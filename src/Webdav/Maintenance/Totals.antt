-- ===== src/Webdav/Maintenance/Totals.antt =====
-- The total that the walk of pruneFiles in internal/webdav/maintenance.go keeps.
use idrive_unlimited.Base.{
  Bool, List, Str, [], arith, false, if◌then◌else◌, refl, true, ℕ, ◌+◌, ◌=s◌, ◌∷◌, ◌≡◌,
}
use idrive_unlimited.Evs.Errors.{Result, err, ok}
use idrive_unlimited.Evs.Files.{FileInfo, WalkEntry}
use idrive_unlimited.Evs.Gives.{
  Gives, Gives-bind, Gives-if, Gives-on_option, Gives-on_result, Gives-pure, Gives-raise,
}
use idrive_unlimited.Evs.Monad.{Env, World}
use idrive_unlimited.Evs.Runs.{bind_ok}
use idrive_unlimited.Webdav.Maintenance.{
  Found, Item, nothing_found, remove_outdated, visit, visit_all, visit_file, visit_info, with_file,
}

abbrev pub total_size : List Item → ℕ
total_size [] = 0
total_size (f ∷ files) = f.size + total_size files

-- The total is that of the files.
abbrev pub Counted : Found → Type 0
Counted v = v.total ≡ total_size v.files

module _ {E : Env} (top protected : Str) (pins : List Str) (max_age : ℕ) (v : Found)
    (c : Counted v) where
  Gives-remove_outdated :
      (p : Str) (size : ℕ) (info : FileInfo)
      → Gives {E = E} Counted (remove_outdated protected pins max_age p size info v)
  unfolding remove_outdated
  Gives-remove_outdated p size info = Gives-bind _ _ λ outdated. Gives-bind _ _ λ removed.
      Gives-on_result _ _ _ (λ _. Gives-pure v c)
        λ _. Gives-pure (with_file p size info v) (omega (arith, c))

  Gives-visit_file :
      (p : Str) (info : FileInfo)
      → Gives {E = E} Counted (visit_file protected pins max_age p info v)
  unfolding visit_file
  Gives-visit_file p info = Gives-bind _ _ λ size.
      Gives-bind _ _ λ recent. Gives-if _ _ _ (Gives-pure v c) (Gives-remove_outdated p size info)

  Gives-visit_info :
      (p : Str) (r : Result FileInfo)
      → Gives {E = E} Counted (visit_info protected pins max_age p v r)
  unfolding visit_info
  Gives-visit_info p (err e) = Gives-if _ _ _ (Gives-pure v c) (Gives-raise e)
  Gives-visit_info p (ok info) =
      Gives-if _ _ _ (Gives-pure v c)
        (Gives-if _ _ _ (Gives-bind _ _ λ _. Gives-pure v c) (Gives-visit_file p info))

  Gives-visit :
      (entry : WalkEntry) → Gives {E = E} Counted (visit top protected pins max_age entry v)
  unfolding visit
  Gives-visit entry =
      Gives-on_option _ _ _
        (Gives-if _ _ _ (Gives-pure _ (folder (entry.path =s top)))
          (Gives-if _ _ _ (Gives-pure v c) (Gives-bind _ _ (Gives-visit_info entry.path))))
        λ e. Gives-if _ _ _ (Gives-pure v c) (Gives-raise e)
    where
      folder :
          (b : Bool)
          → Counted (if b then v else record v { directories = entry.path ∷ v.directories })
      folder true = c
      folder false = c

module _ {E : Env} (top protected : Str) (pins : List Str) (max_age : ℕ) where
  Gives-visit_all :
      (entries : List WalkEntry) (v : Found)
      → Counted v
      → Gives {E = E} Counted (visit_all top protected pins max_age entries v)
  unfolding visit_all
  Gives-visit_all [] v c = Gives-pure v c
  Gives-visit_all (entry ∷ entries) v c = record {
    given = λ w u h.
        let r = bind_ok _ _ w u h in
        (Gives-visit_all entries r.0
            ((Gives-visit top protected pins max_age v c entry).given w r.0 r.1.0)).given
          _ u r.1.1;
  }

  -- Whatever the disk and the clock answer, the total with which the walk of pruneFiles ends is the
  -- sum of the sizes of the files that it has listed.
  visit_all-Counted :
      (entries : List WalkEntry) (w : World E) (v : Found)
      → (visit_all top protected pins max_age entries nothing_found w).0 ≡ ok v
      → Counted v
  visit_all-Counted entries w v h = (Gives-visit_all entries nothing_found refl).given w v h
