-- ===== src/Webdav/Directory/Pages.antt =====
-- The pages of a directory in internal/webdav/fs.go are its entries.
use mathlib.Core.List.{append-nil}
use idrive_unlimited.Base.{
  Bool, Bool-cases, List, [], ap, arith, drop, false, inl, inr, leb, leb→le, length, ltb, max_int64,
  pos, refl, subst, suc, sym, take, take-append-drop, true, zero, ℕ, ℤ, ◌++◌, ◌+◌, ◌-◌, ◌<◌, ◌∙◌,
  ◌∷◌, ◌≡◌, ◌≤◌, ◌⊎◌,
}
use idrive_unlimited.Webdav.Directory.{
  DirFile, Page, left_of, no_more, page, panics, readdir, rest_of,
}

module _ {A : Type 0} where
  abbrev pub with_page :
      (DirFile A → List (List A) × Bool) → Page A × DirFile A → List (List A) × Bool
  with_page more (page xs, d) = let (pages, ended) = more d in (xs ∷ pages, ended)
  with_page more (no_more, d) = ([], true)
  with_page more (panics, d) = ([], false)

  -- A caller that asks for pages until there are no more; false where the pages do not end.
  unfoldable pub read_pages : ℕ → ℤ → DirFile A → List (List A) × Bool
  read_pages zero count d = ([], false)
  read_pages (suc fuel) count d = with_page (read_pages fuel count) (readdir count d)

  abbrev pub concat : List (List A) → List A
  concat [] = []
  concat (xs ∷ xss) = xs ++ concat xss

  drop_nil : (n : ℕ) → drop {A = A} n [] ≡ []
  drop_nil zero = refl
  drop_nil (suc n) = refl

  drop-drop : (n m k : ℕ) (xs : List A) → k ≡ m + n → drop n (drop m xs) ≡ drop k xs
  drop-drop n zero k xs e = ap (λ i. drop i xs) (omega (arith, e))
  drop-drop n (suc m) k [] e = drop_nil n ∙ sym (drop_nil k)
  drop-drop n (suc m) zero (x ∷ xs) e = absurd (omega (arith, e))
  drop-drop n (suc m) (suc k) (x ∷ xs) e = drop-drop n m k xs (omega (arith, e))

  drop_all : (n : ℕ) (xs : List A) → length xs ≤ n → drop n xs ≡ []
  drop_all zero [] h = refl
  drop_all zero (x ∷ xs) h = absurd (omega (arith, h))
  drop_all (suc n) [] h = refl
  drop_all (suc n) (x ∷ xs) h = drop_all n xs (omega (arith, h))

  abbrev after_page : ℕ → DirFile A → DirFile A
  after_page n d = record d { position = d.position + n }

  readdir-cases :
      (n : ℕ) (d : DirFile A)
      → length d.entries + suc n ≤ max_int64
      → ((length d.entries ≤ d.position) × (readdir (pos (suc n)) d ≡ (no_more, d)))
        ⊎ (((d.position < length d.entries) × (readdir (pos (suc n)) d ≡ rest_of d))
            ⊎ ((d.position < length d.entries)
                × (readdir (pos (suc n)) d
                    ≡ (page (take (suc n) (left_of d)), after_page (suc n) d))))
  unfolding readdir
  readdir-cases n d h = elim (Bool-cases (leb (length d.entries) d.position)) [
    | inl l ↦ inl (leb→le _ _ l, rw (l) refl)
    | inr l ↦
        let small : ltb max_int64 (d.position + suc n) ≡ false = ground (arith, h, l) in
        elim (Bool-cases (ltb (length d.entries) (d.position + suc n))) [
          | inl m ↦ inr (inl (ground (arith, l), rw (l) (rw (small) (rw (m) refl))))
          | inr m ↦ inr (inr (ground (arith, l), rw (l) (rw (small) (rw (m) refl))))
        ]
  ]

  abbrev Reads : List A → List (List A) × Bool → Type 0
  Reads xs q = (concat q.0 ≡ xs) × (q.1 ≡ true)

  -- A caller that asks for pages of a positive count until there are no more reads what was left of
  -- the entries, in their order, and comes to the end, within as many calls as entries are left
  -- and one more, if the number of entries and the count have a sum below 2 ^ 63.
  pub read_pages-left_of :
      (fuel n : ℕ) (d : DirFile A)
      → length d.entries + suc n ≤ max_int64
      → length d.entries - d.position < fuel
      → (concat (read_pages fuel (pos (suc n)) d).0 ≡ left_of d)
        × ((read_pages fuel (pos (suc n)) d).1 ≡ true)
  unfolding read_pages
  read_pages-left_of zero n d h f = absurd (omega (arith, f))
  read_pages-left_of (suc fuel) n d h f = elim (readdir-cases n d h) [
    | inl e ↦
        subst (λ r. Reads (left_of d) (with_page (read_pages fuel (pos (suc n))) r)) (sym e.1)
          (sym (drop_all d.position d.entries e.0), refl)
    | inr (inl e) ↦
        let r = read_pages-left_of fuel n (rest_of d).1 h (omega (arith, e.0, f)) in
        subst (λ r. Reads (left_of d) (with_page (read_pages fuel (pos (suc n))) r)) (sym e.1)
          (
            ap (λ t. left_of d ++ t) (r.0 ∙ drop_all (length d.entries) d.entries (omega arith))
                ∙ append-nil (left_of d),
            r.1,
          )
    | inr (inr e) ↦
        let r = read_pages-left_of fuel n (after_page (suc n) d) h (omega (arith, e.0, f)) in
        subst (λ r. Reads (left_of d) (with_page (read_pages fuel (pos (suc n))) r)) (sym e.1)
          (
            ap (λ t. take (suc n) (left_of d) ++ t)
                  (r.0 ∙ sym (drop-drop (suc n) d.position _ d.entries refl))
                ∙ take-append-drop (suc n) (left_of d),
            r.1,
          )
  ]
