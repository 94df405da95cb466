-- ===== src/Webdav/Maintenance/Asks.antt =====
-- What pruneFiles and retainUpload of internal/webdav/maintenance.go ask of the disk and the clock.
use idrive_unlimited.Base.{
  All, Bool, List, Str, [], arith, codes, false, has_prefix, if◌then◌else◌, inl, inr, leb, negate,
  refl, trim_suffix, true, ℕ, ◌++◌, ◌∷◌, ◌≡◌, ◌⊎◌,
}
use idrive_unlimited.Evs.Errors.{Result, err, ok}
use idrive_unlimited.Evs.Files.{
  FileInfo, FileOp, WalkEntry, cache_pins, entry_info, remove_file, stat_file, walk_dir,
}
use idrive_unlimited.Evs.Keeps.{
  Keeps, Keeps-ask, Keeps-attempt, Keeps-bind, Keeps-bind_gives, Keeps-if, Keeps-lift,
  Keeps-on_option, Keeps-on_result, Keeps-pure, Keeps-raise, Keeps-when,
}
use idrive_unlimited.Evs.Monad.{Env, M, ask, lift, on_result, pure, ◌>>=◌, ◌>>◌}
use idrive_unlimited.Evs.Transfer.{ask_result}
use idrive_unlimited.Evs.Types.{Query, UploadRecord, clock, on_disk}
use idrive_unlimited.Path.{path_base}
use idrive_unlimited.Webdav.Maintenance.{
  Found, Item, drop_orphan, evict, evict_one, holds_immune, ignoring, is_blob_metadata, is_immune,
  is_outdated, is_recent_download, is_recovery_blob, missing_is_fine, nothing_found, prune_files,
  prune_unpinned, remove_empty, remove_outdated, remove_retained_file, size_with_metadata,
  sort_by_time, visit, visit_all, visit_file, visit_info, with_file,
}
use idrive_unlimited.Webdav.Maintenance.Listed.{IsDirectory, IsListed, visit_all-IsListed}

-- The reason for which a path may be removed: it is neither the requested file nor pinned; it is the
-- metadata of a recovery blob that may be removed; it is metadata by its name; it is a directory
-- that the walk came upon, below `top`, and holds neither the requested file nor a pinned one.
abbrev pub Removable : Str → List WalkEntry → Str → List Str → Str → Type 0
Removable top entries protected pins p =
    (is_immune protected pins p ≡ false)
    ⊎ (((blob : Str) × (p ≡ blob ++ codes ".json")
          × (is_recovery_blob blob ≡ true)
          × (is_immune protected pins blob ≡ false))
        ⊎ ((is_blob_metadata p ≡ true)
            ⊎ (IsDirectory top entries p × (holds_immune protected pins p ≡ false))))

abbrev pub looks : Query → Bool
looks clock = true
looks (on_disk (stat_file p)) = true
looks (on_disk (entry_info p)) = true
looks (on_disk (walk_dir p)) = true
looks _ = false

module _ {E : Env} {B : Type 0} {P : Query → Type 0} {Q : UploadRecord → Type 0} where
  -- A test that is only made where `b` is false.
  Keeps-bind_if :
      (b : Bool) (m : M E Bool) (f : Bool → M E B)
      → (b ≡ false → Keeps P Q m)
      → Keeps P Q (f false)
      → (b ≡ false → (c : Bool) → Keeps P Q (f c))
      → Keeps P Q ((if b then pure false else m) >>= f)
  unfolding ◌>>=◌
  Keeps-bind_if true m f k l n = record { at = λ w h q. l.at w h q; grows = λ w q. l.grows w q }
  Keeps-bind_if false m f k l n = Keeps-bind m f (k refl) (n refl)

module _ (protected : Str) (pins : List Str) {E : Env} {P : Query → Type 0}
    {Q : UploadRecord → Type 0} (looking : (q : Query) → looks q ≡ true → P q) (top : Str)
    (entries : List WalkEntry)
    (removing : (p : Str)
      → Removable top entries protected pins p
      → P (on_disk (remove_file p))) where
  Keeps-ignoring_remove :
      (p : Str)
      → Removable top entries protected pins p
      → Keeps {E = E} P Q (ignoring (remove_file p))
  unfolding ignoring
  Keeps-ignoring_remove p r =
      Keeps-bind _ _ (Keeps-ask (on_disk (remove_file p)) (removing p r)) λ _. Keeps-pure tt

  Keeps-missing_is_fine : (r : Result (Unit {0})) → Keeps {E = E} P Q (missing_is_fine r)
  unfolding missing_is_fine
  Keeps-missing_is_fine (ok _) = Keeps-pure tt
  Keeps-missing_is_fine (err e) = Keeps-if _ _ _ (λ _. Keeps-pure tt) λ _. Keeps-raise e

  Keeps-remove_retained_file :
      (p : Str) → is_immune protected pins p ≡ false → Keeps {E = E} P Q (remove_retained_file p)
  unfolding remove_retained_file ask_result
  Keeps-remove_retained_file p free =
      Keeps-bind _ _
        (Keeps-bind _ _ (Keeps-ask (on_disk (remove_file p)) (removing p (inl free)))
          λ r. Keeps-lift r)
        λ _. Keeps-when _ _ λ blob.
          Keeps-bind _ _
            (Keeps-ask (on_disk (remove_file (p ++ codes ".json")))
              (removing _ (inr (inl (p, refl, blob, free)))))
            Keeps-missing_is_fine

  Keeps-size_with_metadata : (p : Str) (size : ℕ) → Keeps {E = E} P Q (size_with_metadata p size)
  unfolding size_with_metadata
  Keeps-size_with_metadata p size =
      Keeps-if (is_recovery_blob p) _ (pure size)
        (λ _.
          Keeps-bind _ _
            (Keeps-ask (on_disk (stat_file (p ++ codes ".json")))
              (looking (on_disk (stat_file (p ++ codes ".json"))) refl))
            λ meta. Keeps-on_result _ _ _ (λ m. Keeps-pure _) λ _. Keeps-pure _)
        λ _. Keeps-pure _

  Keeps-is_recent_download : (p : Str) (t : ℕ) → Keeps {E = E} P Q (is_recent_download p t)
  unfolding is_recent_download
  Keeps-is_recent_download p t =
      Keeps-if (has_prefix (path_base p) (codes "download-")) _ (pure false)
        (λ _. Keeps-bind _ _ (Keeps-ask clock (looking clock refl)) λ now. Keeps-pure _)
        λ _. Keeps-pure _

  Keeps-drop_orphan : (p : Str) → is_blob_metadata p ≡ true → Keeps {E = E} P Q (drop_orphan p)
  unfolding drop_orphan
  Keeps-drop_orphan p meta =
      Keeps-bind _ _
        (Keeps-ask (on_disk (stat_file (trim_suffix p (codes ".json"))))
          (looking (on_disk (stat_file (trim_suffix p (codes ".json")))) refl))
        λ blob.
          Keeps-on_result _ _ _ (λ _. Keeps-pure tt)
            λ e. Keeps-when _ _ λ _. Keeps-ignoring_remove p (inr (inr (inl meta)))

  module _ (max_age : ℕ) (p : Str) (info : FileInfo) (v : Found) where
    kept :
        (size : ℕ) (r : Result (Unit {0}))
        → Keeps {E = E} P Q (on_result r (λ _. pure v) (λ _. pure (with_file p size info v)))
    kept size r = Keeps-on_result _ _ _ (λ _. Keeps-pure _) λ _. Keeps-pure _

    Keeps-remove_outdated :
        (size : ℕ) → Keeps {E = E} P Q (remove_outdated protected pins max_age p size info v)
    unfolding remove_outdated is_outdated
    Keeps-remove_outdated size =
        Keeps-bind_if (is_immune protected pins p) _ _
          (λ _. Keeps-bind _ _ (Keeps-ask clock (looking clock refl)) λ now. Keeps-pure _)
          (Keeps-bind _ _ (Keeps-attempt _ (Keeps-raise _)) (kept size))
          λ free outdated.
            Keeps-bind _ _
              (Keeps-attempt _ (
                Keeps-if outdated (remove_retained_file p) _
                  (λ _. Keeps-remove_retained_file p free) λ _. Keeps-raise _))
              (kept size)

    Keeps-visit_file : Keeps {E = E} P Q (visit_file protected pins max_age p info v)
    unfolding visit_file
    Keeps-visit_file = Keeps-bind _ _ (Keeps-size_with_metadata p _) λ size.
        Keeps-bind _ _ (Keeps-is_recent_download p _)
          λ recent. Keeps-if recent (pure v) _ (λ _. Keeps-pure _) λ _. Keeps-remove_outdated size

  Keeps-visit_info :
      (max_age : ℕ) (p : Str) (v : Found) (r : Result FileInfo)
      → Keeps {E = E} P Q (visit_info protected pins max_age p v r)
  unfolding visit_info
  Keeps-visit_info max_age p v (err e) = Keeps-if _ _ _ (λ _. Keeps-pure v) λ _. Keeps-raise e
  Keeps-visit_info max_age p v (ok info) =
      Keeps-if (negate info.regular) (pure v) _ (λ _. Keeps-pure _)
        λ _.
          Keeps-if (is_blob_metadata p) _ (visit_file protected pins max_age p info v)
            (λ meta. Keeps-bind _ _ (Keeps-drop_orphan p meta) λ _. Keeps-pure _)
            λ _. Keeps-visit_file max_age p info v

  Keeps-visit :
      (max_age : ℕ) (entry : WalkEntry) (v : Found)
      → Keeps {E = E} P Q (visit top protected pins max_age entry v)
  unfolding visit
  Keeps-visit max_age entry v =
      Keeps-on_option _ _ _
        (Keeps-if entry.is_dir (pure _) _ (λ _. Keeps-pure _)
          λ _.
            Keeps-if _ _ _ (λ _. Keeps-pure v)
              λ _.
                Keeps-bind _ _
                  (Keeps-ask (on_disk (entry_info entry.path))
                    (looking (on_disk (entry_info entry.path)) refl))
                  λ info. Keeps-visit_info max_age entry.path v info)
        λ e _. Keeps-if _ _ _ (λ _. Keeps-pure v) λ _. Keeps-raise e

  Keeps-visit_all :
      (max_age : ℕ) (rest : List WalkEntry) (v : Found)
      → Keeps {E = E} P Q (visit_all top protected pins max_age rest v)
  unfolding visit_all
  Keeps-visit_all max_age [] v = Keeps-pure _
  Keeps-visit_all max_age (entry ∷ rest) v =
      Keeps-bind _ _ (Keeps-visit max_age entry v) λ seen. Keeps-visit_all max_age rest seen

  Keeps-evict_one : (f : Item) (total : ℕ) → Keeps {E = E} P Q (evict_one protected pins f total)
  unfolding evict_one
  Keeps-evict_one f total =
      Keeps-if _ _ _ (λ _. Keeps-pure _)
        λ free.
          Keeps-bind _ _ (Keeps-attempt _ (Keeps-remove_retained_file f.path free))
            λ removed. Keeps-on_result _ _ _ (λ _. Keeps-pure _) λ _. Keeps-pure _

  Keeps-evict :
      (max_bytes : ℕ) (files : List Item) (total : ℕ)
      → Keeps {E = E} P Q (evict protected pins max_bytes files total)
  unfolding evict
  Keeps-evict max_bytes [] total = Keeps-pure _
  Keeps-evict max_bytes (f ∷ files) total =
      Keeps-if (leb total max_bytes) (pure total) _ (λ _. Keeps-pure _)
        λ _. Keeps-bind _ _ (Keeps-evict_one f total) λ left. Keeps-evict max_bytes files left

  Keeps-remove_empty :
      (dirs : List Str)
      → All (IsDirectory top entries) dirs
      → Keeps {E = E} P Q (remove_empty protected pins dirs)
  unfolding remove_empty
  Keeps-remove_empty [] h = Keeps-pure tt
  Keeps-remove_empty (dir ∷ dirs) h =
      Keeps-bind _ _
        (Keeps-when _ _
          λ free. Keeps-ignoring_remove dir (inr (inr (inr (h.0, ground (arith, free))))))
        λ _. Keeps-remove_empty dirs h.1

  -- What follows the walk.
  pub Keeps-walked :
      (max_bytes max_age : ℕ)
      → Keeps {E = E} P Q (do
        v ← visit_all top protected pins max_age entries nothing_found
        evict protected pins max_bytes (sort_by_time v.files) v.total
        remove_empty protected pins v.directories)
  Keeps-walked max_bytes max_age =
      Keeps-bind_gives (IsListed top entries) _ _ (Keeps-visit_all max_age entries nothing_found)
        (λ w v h.
          (visit_all-IsListed top entries protected pins max_age entries nothing_found (λ e m. m)
              tt).given
            w v h)
        λ v listed.
          Keeps-bind _ _ (Keeps-evict max_bytes (sort_by_time v.files) v.total)
            λ _. Keeps-remove_empty v.directories listed

module _ (P : Query → Type 0) (disk : (op : FileOp) → P (on_disk op)) (tick : P clock) where
  looking_locally : (q : Query) → looks q ≡ true → P q
  looking_locally clock e = tick
  looking_locally (on_disk op) e = disk op
  looking_locally _ e = cc

module _ {E : Env} {P : Query → Type 0} {Q : UploadRecord → Type 0}
    (disk : (op : FileOp) → P (on_disk op)) where
  pub Keeps-disk : (op : FileOp) → Keeps {E = E} P Q (ask (on_disk op))
  Keeps-disk op = Keeps-ask (on_disk op) (disk op)

  pub Keeps-disk_result :
      {A : Type 0} (m : M E (Result A)) → Keeps P Q m → Keeps {E = E} P Q (ask_result m)
  unfolding ask_result
  Keeps-disk_result m k = Keeps-bind m lift k Keeps-lift

  pub Keeps-disk_ignoring : (op : FileOp) → Keeps {E = E} P Q (ignoring op)
  unfolding ignoring
  Keeps-disk_ignoring op = Keeps-bind _ _ (Keeps-disk op) λ _. Keeps-pure tt

  module _ (tick : P clock) where
    pub Keeps-prune_files :
        (top protected : Str) (max_bytes max_age : ℕ)
        → Keeps {E = E} P Q (prune_files top protected max_bytes max_age)
    unfolding prune_files prune_unpinned
    Keeps-prune_files top protected max_bytes max_age =
        Keeps-bind _ _ (Keeps-disk cache_pins) λ pins.
          Keeps-bind _ _ (Keeps-disk (walk_dir top)) λ entries.
            Keeps-walked protected pins (looking_locally P disk tick) top entries
              (λ p r. disk (remove_file p)) max_bytes max_age
