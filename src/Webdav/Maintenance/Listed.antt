-- ===== src/Webdav/Maintenance/Listed.antt =====
-- The directories that the walk of pruneFiles in internal/webdav/maintenance.go lists.
use mathlib.Core.List.{Memᴰ}
use idrive_unlimited.Base.{
  All, Bool, List, Str, [], false, if◌then◌else◌, refl, true, ℕ, ◌=s◌, ◌∷◌, ◌≡◌,
}
use idrive_unlimited.Evs.Errors.{Result, err, ok}
use idrive_unlimited.Evs.Files.{FileInfo, WalkEntry}
use idrive_unlimited.Evs.Gives.{
  Gives, Gives-bind, Gives-if, Gives-on_option, Gives-on_result, Gives-pure, Gives-raise,
}
use idrive_unlimited.Evs.Monad.{Env, M, pure}
use idrive_unlimited.Evs.Runs.{bind_ok}
use idrive_unlimited.Webdav.Maintenance.{
  Found, remove_outdated, visit, visit_all, visit_file, visit_info, with_file,
}

-- A directory that the walk of `top` came upon, other than `top`.
pub record IsDirectory (top : Str) (entries : List WalkEntry) (p : Str) : Type 0 where
  pub entry : WalkEntry
  pub walked : Memᴰ entry entries
  pub at : entry.path ≡ p
  pub folder : entry.is_dir ≡ true
  pub below : (p =s top) ≡ false

module _ (top : Str) (entries : List WalkEntry) where
  abbrev pub IsListed : Found → Type 0
  IsListed v = All (IsDirectory top entries) v.directories

  folder-IsListed :
      (v : Found) (entry : WalkEntry) (b : Bool)
      → IsListed v
      → Memᴰ entry entries
      → entry.is_dir ≡ true
      → (entry.path =s top) ≡ b
      → IsListed (if b then v else record v { directories = entry.path ∷ v.directories })
  folder-IsListed v entry true c m d e = c
  folder-IsListed v entry false c m d e =
      (record { entry = entry; walked = m; at = refl; folder = d; below = e }, c)

  module _ {E : Env} (protected : Str) (pins : List Str) (max_age : ℕ) (v : Found)
      (c : IsListed v) where
    remove_outdated-IsListed :
        (p : Str) (size : ℕ) (info : FileInfo)
        → Gives {E = E} IsListed (remove_outdated protected pins max_age p size info v)
    unfolding remove_outdated
    remove_outdated-IsListed p size info = Gives-bind _ _ λ outdated. Gives-bind _ _ λ removed.
        Gives-on_result _ _ _ (λ _. Gives-pure v c) λ _. Gives-pure (with_file p size info v) c

    visit_file-IsListed :
        (p : Str) (info : FileInfo)
        → Gives {E = E} IsListed (visit_file protected pins max_age p info v)
    unfolding visit_file
    visit_file-IsListed p info = Gives-bind _ _ λ size.
        Gives-bind _ _
          λ recent. Gives-if _ _ _ (Gives-pure v c) (remove_outdated-IsListed p size info)

    visit_info-IsListed :
        (p : Str) (r : Result FileInfo)
        → Gives {E = E} IsListed (visit_info protected pins max_age p v r)
    unfolding visit_info
    visit_info-IsListed p (err e) = Gives-if _ _ _ (Gives-pure v c) (Gives-raise e)
    visit_info-IsListed p (ok info) =
        Gives-if _ _ _ (Gives-pure v c)
          (Gives-if _ _ _ (Gives-bind _ _ λ _. Gives-pure v c) (visit_file-IsListed p info))

    directory-IsListed :
        (entry : WalkEntry) (b : Bool) (n : M E Found)
        → Memᴰ entry entries
        → entry.is_dir ≡ b
        → Gives {E = E} IsListed n
        → Gives {E = E} IsListed (
            if b
            then pure (
                if entry.path =s top
                then v
                else record v { directories = entry.path ∷ v.directories })
            else n)
    directory-IsListed entry true n m d k =
        Gives-pure _ (folder-IsListed v entry (entry.path =s top) c m d refl)
    directory-IsListed entry false n m d k = k

    visit-IsListed :
        (entry : WalkEntry)
        → Memᴰ entry entries
        → Gives {E = E} IsListed (visit top protected pins max_age entry v)
    unfolding visit
    visit-IsListed entry m =
        Gives-on_option _ _ _
          (directory-IsListed entry _ _ m refl
            (Gives-if _ _ _ (Gives-pure v c) (Gives-bind _ _ (visit_info-IsListed entry.path))))
          λ e. Gives-if _ _ _ (Gives-pure v c) (Gives-raise e)

  pub visit_all-IsListed :
      {E : Env} (protected : Str) (pins : List Str) (max_age : ℕ) (rest : List WalkEntry)
      (v : Found)
      → ((entry : WalkEntry) → Memᴰ entry rest → Memᴰ entry entries)
      → IsListed v
      → Gives {E = E} IsListed (visit_all top protected pins max_age rest v)
  unfolding visit_all
  visit_all-IsListed protected pins max_age [] v m c = Gives-pure v c
  visit_all-IsListed protected pins max_age (entry ∷ rest) v m c = record {
    given = λ w u h.
        let r = bind_ok _ _ w u h in
        let seen =
          (visit-IsListed protected pins max_age v c entry (m entry (Memᴰ.head refl))).given w r.0
            r.1.0 in
        (visit_all-IsListed protected pins max_age rest r.0 (λ e k. m e (Memᴰ.tail k)) seen).given _
          u r.1.1;
  }
