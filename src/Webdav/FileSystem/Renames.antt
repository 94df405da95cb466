-- ===== src/Webdav/FileSystem/Renames.antt =====
-- Renames of the devices of the root, in internal/webdav/fs.go.
use idrive_unlimited.Base.{
  All, Bool, Bool-cases, Option, Str, [], ap, arith, false, inl, inr, negate, refl, some, subst,
  sym, true, ◌=s◌, ◌∙◌, ◌≡◌, ◌≢◌, ◌⊎◌,
}
use idrive_unlimited.Evs.Errors.{Error, Result, err, ok, permission, sentinel, wrap}
use idrive_unlimited.Evs.Files.{remove_all}
use idrive_unlimited.Evs.Keeps.{
  AnyRecord, Keeps, Keeps-ask, Keeps-attempt, Keeps-bind, Keeps-guard, Keeps-lift, Keeps-on_option,
  Keeps-on_result, Keeps-pure,
}
use idrive_unlimited.Evs.Keeps.Reads.{Keeps-browse_cached, is_harmless}
use idrive_unlimited.Evs.Monad.{Env, M, World, continue, guard, on_option, raise, when, ◌>>=◌}
use idrive_unlimited.Evs.Runs.{bind_runs}
use idrive_unlimited.Evs.Transfer.{ask_result}
use idrive_unlimited.Evs.Types.{Query, on_disk}
use idrive_unlimited.Path.{clean_path, root}
use idrive_unlimited.Webdav.Aliases.{RootAliases, is_among}
use idrive_unlimited.Webdav.FileSystem.{
  FileSystem, check_protected, mapped, rename_path, rename_remote,
}
use idrive_unlimited.Webdav.Paths.{
  is_protected_root_rename_path, resolved, root_aliases, split_first_component, translate,
}
use idrive_unlimited.Webdav.Paths.Protected.{is_protected_root_rename_path-translate}
use idrive_unlimited.Webdav.ReadCache.{FileCache, invalidate_all}

abbrev pub IsHarmless : Query → Type 0
IsHarmless q = is_harmless q ≡ true

device_stays :
    (old new : Str) (a : RootAliases)
    → clean_path old ≢ root
    → clean_path new ≢ root
    → (split_first_component old).1 ≡ []
    → is_among (resolved a (split_first_component old).0) a.protected_raw ≡ true
    → translate a.display_to_raw new ≢ translate a.display_to_raw old
    → is_protected_root_rename_path a old new ≡ true
device_stays old new a o n s p d = elim (Bool-cases (is_protected_root_rename_path a old new)) [
  | inl e ↦ e
  | inr e ↦ absurd (d (is_protected_root_rename_path-translate a old new o n s p e))
]

module _ {E : Env} {A B : Type 0} where
  bind_stops :
      (m : M E A) (f : A → M E B) (w : World E) (e : Error)
      → (m w).0 ≡ err e
      → (m >>= f) w ≡ (err e, (m w).1)
  unfolding ◌>>=◌
  bind_stops m f w e h = ap (λ r. continue r f (m w).1) h

module _ {E : Env} where
  KeepsHarmless-root_aliases : Keeps {E = E} IsHarmless AnyRecord root_aliases
  unfolding root_aliases
  KeepsHarmless-root_aliases =
      Keeps-bind _ _ (Keeps-attempt _ (Keeps-browse_cached (λ q h. h) root))
        λ nodes. Keeps-on_result _ _ _ (λ found. Keeps-pure _) λ e. Keeps-pure _

  KeepsHarmless-check :
      (old new : Str) → Keeps {E = E} IsHarmless AnyRecord (check_protected old new)
  unfolding check_protected
  KeepsHarmless-check old new =
      Keeps-bind _ _ KeepsHarmless-root_aliases
        λ aliases. Keeps-on_option _ _ _ (Keeps-pure tt) λ a h. Keeps-guard _ _

  KeepsHarmless-invalidate_all :
      (c : FileCache) → Keeps {E = E} IsHarmless AnyRecord (invalidate_all c)
  unfolding invalidate_all ask_result
  KeepsHarmless-invalidate_all c =
      Keeps-bind _ _ (Keeps-ask (on_disk (remove_all _)) refl) λ r. Keeps-lift r

  refuses_guard :
      (b : Bool) (e : Error) (w : World E) → b ≡ true → (guard {E = E} (negate b) e w).0 ≡ err e
  unfolding guard raise
  refuses_guard true e w h = refl
  refuses_guard false e w h = ground arith

  check_stops :
      (old new : Str) (w : World E) (a : RootAliases)
      → (root_aliases w).0 ≡ ok (some a)
      → is_protected_root_rename_path a old new ≡ true
      → (check_protected old new w).0 ≡ err (wrap "PathError" (sentinel permission))
  unfolding check_protected on_option
  check_stops old new w a r p =
      ap (λ q. q.0) (bind_runs root_aliases _ w (some a) r) ∙ refuses_guard _ _ _ p

  module _ (f : FileSystem) (destination : Option Str) (old new : Str) where
    stopped :
        (b : Bool) (w : World E)
        → b ≡ true
        → (e : Error) → (check_protected old new w).0 ≡ err e
        → (when b (check_protected old new) >>= λ _. mapped (rename_remote f destination old new)) w
          ≡ (err e, (check_protected old new w).1)
    unfolding when
    stopped true w h e c = bind_stops _ _ w e c
    stopped false w h e c = ground arith

    -- How a rename fails: with the error of the cache that could not be cleared, or with
    -- fs.ErrPermission.
    abbrev pub IsRefused : World E → Type 0
    IsRefused w =
        ((e : Error) × ((invalidate_all {E = E} f.cache w).0 ≡ err e)
          × ((rename_path f destination old new w).0 ≡ err e))
        ⊎ ((rename_path f destination old new w).0 ≡ err (wrap "PathError" (sentinel permission)))

    rename_path-IsRefused :
        (w : World E) (a : RootAliases) (r : Result (Unit {0}))
        → (f.top =s root) ≡ true
        → (invalidate_all {E = E} f.cache w).0 ≡ r
        → (root_aliases (invalidate_all {E = E} f.cache w).1).0 ≡ ok (some a)
        → is_protected_root_rename_path a old new ≡ true
        → All IsHarmless w.trace
        → IsRefused w × All IsHarmless (rename_path f destination old new w).1.trace
    unfolding rename_path
    rename_path-IsRefused w a (err e) t i g p l =
        let ran = bind_stops (invalidate_all f.cache) _ w e i in
        let kept = (KeepsHarmless-invalidate_all f.cache).at w l tt in
        (inl (e, i, ap (λ q. q.0) ran), subst (λ q. All IsHarmless q.1.trace) (sym ran) kept.0)
    rename_path-IsRefused w a (ok _) t i g p l =
        let ran =
          bind_runs (invalidate_all f.cache) _ w tt i
          ∙ stopped _ _ t _ (check_stops old new _ a g p) in
        let kept = (KeepsHarmless-invalidate_all f.cache).at w l tt in
        (
          inr (ap (λ q. q.0) ran),
          subst (λ q. All IsHarmless q.1.trace) (sym ran)
              ((KeepsHarmless-check old new).at _ kept.0 kept.1).0,
        )

    -- For a FileSystem whose root is "/", and the aliases that the listing of the root gives once
    -- the cache is cleared: where the old name is that of a device, under its own name or its
    -- alias, the new name is not the root, and the two names have different remote paths, Rename
    -- fails, with the error of a cache that could not be cleared or with fs.ErrPermission, and asks
    -- nothing that changes the drive or the journal, if this held of the questions asked before.
    pub rename_path-protected :
        (w : World E) (a : RootAliases)
        → (f.top =s root) ≡ true
        → (root_aliases (invalidate_all {E = E} f.cache w).1).0 ≡ ok (some a)
        → clean_path old ≢ root
        → clean_path new ≢ root
        → (split_first_component old).1 ≡ []
        → is_among (resolved a (split_first_component old).0) a.protected_raw ≡ true
        → translate a.display_to_raw new ≢ translate a.display_to_raw old
        → All IsHarmless w.trace
        → IsRefused w × All IsHarmless (rename_path f destination old new w).1.trace
    rename_path-protected w a t g o n s p d l =
        rename_path-IsRefused w a _ t refl g (device_stays old new a o n s p d) l
