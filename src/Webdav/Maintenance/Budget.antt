-- ===== src/Webdav/Maintenance/Budget.antt =====
-- How far the loop of pruneFiles in internal/webdav/maintenance.go brings the total down.
use idrive_unlimited.Base.{
  Bool, Bool-cases, List, Str, [], ap, arith, false, if◌then◌else◌, inl, inr, leb, leb→le, refl,
  true, ℕ, ◌+◌, ◌-◌, ◌∙◌, ◌∷◌, ◌≡◌, ◌≤◌, ◌⊎◌,
}
use idrive_unlimited.Evs.Errors.{Result, ok}
use idrive_unlimited.Evs.Files.{remove_file}
use idrive_unlimited.Evs.Monad.{Env, World, ask, attempt, on_result, pure, when, ◌>>=◌}
use idrive_unlimited.Evs.Runs.{bind_runs}
use idrive_unlimited.Evs.Transfer.{ask_result}
use idrive_unlimited.Evs.Types.{on_disk}
use idrive_unlimited.Webdav.Maintenance.{
  Found, Item, evict, evict_one, insert_by_time, is_immune, missing_is_fine, remove_retained_file,
  sort_by_time,
}
use idrive_unlimited.Webdav.Maintenance.Totals.{Counted, total_size}

abbrev pub immune_size : Str → List Str → List Item → ℕ
immune_size protected pins [] = 0
immune_size protected pins (f ∷ files) =
    let rest = immune_size protected pins files in
    if is_immune protected pins f.path then f.size + rest else rest

-- A disk that removes every file it is asked to remove.
abbrev pub RemovesFiles : Env → Type 0
RemovesFiles E = (p : Str) (s : E.State) → (E.respond (on_disk (remove_file p)) s).0 ≡ ok tt

module _ (protected : Str) (pins : List Str) where
  abbrev pub left_after : Item → ℕ → ℕ
  left_after f total = if is_immune protected pins f.path then total else total - f.size

  abbrev pub Within : ℕ → List Item → ℕ → Result ℕ → Type 0
  Within max_bytes files more r =
      (left : ℕ) × (r ≡ ok left)
      × ((left ≤ max_bytes) ⊎ (left ≡ more + immune_size protected pins files))

module _ {E : Env} (removes : RemovesFiles E) where
  removed_metadata :
      (b : Bool) (p : Str) (w : World E)
      → (when b (do r ← ask (on_disk (remove_file p)); missing_is_fine r) w).0 ≡ ok tt
  unfolding missing_is_fine when ◌>>=◌
  removed_metadata true p w = rw (removes p w.env) refl
  removed_metadata false p w = refl

  removed_retained : (p : Str) (w : World E) → (remove_retained_file p w).0 ≡ ok tt
  unfolding remove_retained_file ask_result ◌>>=◌
  removed_retained p w = rw (removes p w.env) (removed_metadata _ _ _)

module _ {E : Env} (removes : RemovesFiles E) (protected : Str) (pins : List Str) where
  evicted :
      (b : Bool) (f : Item) (total : ℕ) (w : World E)
      → ((if b then pure total else (do
        removed ← attempt (remove_retained_file f.path)
        on_result removed (λ _. pure (total - f.size)) (λ _. pure total)))
          w).0
        ≡ ok (if b then total else total - f.size)
  unfolding ◌>>=◌ on_result
  evicted true f total w = refl
  evicted false f total w = rw (removed_retained removes f.path w) refl

  evict_one_left :
      (f : Item) (total : ℕ) (w : World E)
      → (evict_one protected pins f total w).0
        ≡ ok (if is_immune protected pins f.path then total else total - f.size)
  unfolding evict_one
  evict_one_left f total w = evicted (is_immune protected pins f.path) f total w

  evict_step :
      (max_bytes : ℕ) (f : Item) (files : List Item) (total : ℕ) (w : World E)
      → leb total max_bytes ≡ false
      → evict protected pins max_bytes (f ∷ files) total w
        ≡ evict protected pins max_bytes files
            (left_after protected pins f total)
            (evict_one protected pins f total w).1
  unfolding evict
  evict_step max_bytes f files total w l =
      rw (l) (bind_runs _ _ w (left_after protected pins f total) (evict_one_left f total w))

  evict-Within :
      (max_bytes : ℕ) (files : List Item) (more total : ℕ) (w : World E)
      → total ≡ more + total_size files
      → Within protected pins max_bytes files more (evict protected pins max_bytes files total w).0
  unfolding evict pure
  evict-Within max_bytes [] more total w h = (total, refl, inr (omega (arith, h)))
  evict-Within max_bytes (f ∷ files) more total w h = elim (Bool-cases (leb total max_bytes)) [
    | inl l ↦ (total, rw (l) refl, inl (leb→le total max_bytes l))
    | inr l ↦ elim (Bool-cases (is_immune protected pins f.path)) [
      | inl i ↦
          let rest =
            evict-Within max_bytes files (more + f.size) total
              (evict_one protected pins f total w).1 (omega (arith, h)) in
          (
            rest.0,
            ap (λ r. r.0) (evict_step max_bytes f files total w l) ∙ rw (i) rest.1,
            rw (i) (elim rest.2 [ inl a ↦ inl a | inr b ↦ inr (omega (arith, b)) ]),
          )
      | inr i ↦
          let rest =
            evict-Within max_bytes files more (total - f.size)
              (evict_one protected pins f total w).1 (omega (arith, h)) in
          (
            rest.0,
            ap (λ r. r.0) (evict_step max_bytes f files total w l) ∙ rw (i) rest.1,
            rw (i) rest.2,
          )
    ]
  ]

module _ (protected : Str) (pins : List Str) where
  immune_size-insert :
      (f : Item) (files : List Item)
      → immune_size protected pins (insert_by_time f files) ≡ immune_size protected pins (f ∷ files)
  unfolding insert_by_time
  immune_size-insert f [] = refl
  immune_size-insert f (g ∷ files) = ground (arith, immune_size-insert f files)

  immune_size-sort :
      (files : List Item)
      → immune_size protected pins (sort_by_time files) ≡ immune_size protected pins files
  unfolding sort_by_time
  immune_size-sort [] = refl
  immune_size-sort (f ∷ files) =
      immune_size-insert f (sort_by_time files) ∙ ground (arith, immune_size-sort files)

total_size-insert :
    (f : Item) (files : List Item) → total_size (insert_by_time f files) ≡ total_size (f ∷ files)
unfolding insert_by_time
total_size-insert f [] = refl
total_size-insert f (g ∷ files) = ground (arith, total_size-insert f files)

total_size-sort : (files : List Item) → total_size (sort_by_time files) ≡ total_size files
unfolding sort_by_time
total_size-sort [] = refl
total_size-sort (f ∷ files) =
    total_size-insert f (sort_by_time files) ∙ omega (arith, total_size-sort files)

module _ {E : Env} (removes : RemovesFiles E) where
  -- Where every removal succeeds, the loop of pruneFiles that removes the oldest of the listed
  -- files ends with a total within the limit, or with the total of the files that it must keep.
  pub evict-sort-Within :
      (protected : Str) (pins : List Str) (max_bytes : ℕ) (v : Found) (w : World E)
      → Counted v
      → Within protected pins max_bytes v.files 0
          (evict protected pins max_bytes (sort_by_time v.files) v.total w).0
  evict-sort-Within protected pins max_bytes v w c =
      let r =
        evict-Within removes protected pins max_bytes (sort_by_time v.files) 0 v.total w
          (omega (arith, c, total_size-sort v.files)) in
      (
        r.0,
        r.1,
        elim r.2 [
          | inl a ↦ inl a
          | inr b ↦ inr (omega (arith, b, immune_size-sort protected pins v.files))
        ],
      )
