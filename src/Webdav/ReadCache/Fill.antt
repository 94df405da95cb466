-- ===== src/Webdav/ReadCache/Fill.antt =====
-- What a download into the read cache, in internal/webdav/cache.go, leaves behind.
use idrive_unlimited.Base.{
  Bool, Str, ap, false, if◌then◌else◌, inl, inr, pos, refl, subst, sym, true, ℤ, ◌=ℤ◌, ◌∙◌, ◌≡◌,
  ◌⊎◌,
}
use idrive_unlimited.Evs.Errors.{Error, Result, err, is, message, not_exist, ok}
use idrive_unlimited.Evs.Files.{FileInfo, close_file, lstat, remove_file, rename_local}
use idrive_unlimited.Evs.Gives.{ok_injective}
use idrive_unlimited.Evs.Listing.{check_context}
use idrive_unlimited.Evs.Monad.{
  Env, M, World, ask, attempt, guard, on_result, pure, raise, when, ◌>>=◌, ◌>>◌,
}
use idrive_unlimited.Evs.Runs.{bind_ok, bind_runs, guard_holds, guard_ok}
use idrive_unlimited.Evs.Transfer.{ask_result, download_to_file}
use idrive_unlimited.Evs.Types.{Node, on_disk}
use idrive_unlimited.Webdav.Discard.{or_discard}
use idrive_unlimited.Webdav.Maintenance.{ignoring}
use idrive_unlimited.Webdav.ReadCache.{
  FileCache, cache_file_valid, file_fits, fill, fill_missing, fill_temp, prune_cache, publish,
  published_by_other,
}

module _ (E : Env) (size : ℤ) where
  -- On this disk a call of os.Lstat finds a regular file of the wanted size.
  pub record Checked (path : Str) (disk : E.State) : Type 0 where
    pub info : FileInfo
    pub looked : (E.respond (on_disk (lstat path)) disk).0 ≡ ok info
    pub is_regular : info.regular ≡ true
    pub fits : (pos info.size =ℤ size) ≡ true

  -- Whether the rename to the target succeeded, or the target then was a file of the wanted size.
  abbrev pub Published : Str → Str → E.State → Type 0
  Published target temp disk =
      ((E.respond (on_disk (rename_local temp target)) disk).0 ≡ ok tt)
      ⊎ Checked target (E.respond (on_disk (rename_local temp target)) disk).1

module _ {E : Env} (remote : Str) (node : Node) (target : Str) where
  -- The world after each step of fill_temp.
  abbrev pub closed_at : Str → World E → World E
  closed_at temp w = (or_discard false temp (ask_result (ask (on_disk (close_file temp)))) w).1

  abbrev pub loaded_at : Str → World E → World E
  loaded_at temp w = (or_discard false temp (download_to_file remote temp) (closed_at temp w)).1

  abbrev pub weighed_at : Str → World E → World E
  weighed_at temp w =
      (or_discard false temp
        (do
          fits ← cache_file_valid temp node.size
          guard fits (message "cached download size mismatch"))
        (loaded_at temp w)).1

  -- A run of fill that downloads: the file is closed, downloaded, checked and published in turn.
  pub record Loaded (c : FileCache) (w : World E) : Type 0 where
    pub temp : Str
    pub before : World E
    pub run : fill c remote node target w ≡ fill_temp c remote node target temp before
    pub downloaded : (download_to_file remote temp (closed_at temp before)).0 ≡ ok tt
    pub checked : Checked E node.size temp (loaded_at temp before).env
    pub published : Published E node.size target temp (weighed_at temp before).env

  abbrev pub Filled : FileCache → World E → Str → Type 0
  Filled c w path =
      (path ≡ target) × (Checked E node.size target (check_context {E = E} w).1.env ⊎ Loaded c w)

module _ {E : Env} where
  not_absent :
      (b : Bool) (e : Error) (w : World E) → ((if b then pure false else raise e) w).0 ≡ ok true → ⊥
  unfolding pure raise
  not_absent true e w h = cc
  not_absent false e w h = cc

  file_fits-Checked :
      (p : Str) (size : ℤ) (d : E.State) (r : Result FileInfo) (w : World E)
      → (E.respond (on_disk (lstat p)) d).0 ≡ r
      → (file_fits size r w).0 ≡ ok true
      → Checked E size p d
  unfolding file_fits pure
  file_fits-Checked p size d (ok info) w a h =
      let g = guard_ok info.regular _ (pure (pos info.size =ℤ size)) w true h in
      record { info = info; looked = a; is_regular = g.0; fits = ok_injective _ _ g.1 }
  file_fits-Checked p size d (err e) w a h = absurd (not_absent (is e not_exist) e w h)

  cache_file_valid-Checked :
      (p : Str) (size : ℤ) (w : World E)
      → (cache_file_valid p size w).0 ≡ ok true
      → Checked E size p w.env
  unfolding cache_file_valid ◌>>=◌
  cache_file_valid-Checked p size w h = file_fits-Checked p size w.env _ _ refl h

  module _ {A : Type 0} where
    kept_ok :
        (b : Bool) (temp : Str) (r : Result A) (w : World E) (a : A)
        → (on_result {E = E} r pure
            (λ e. do when b (ignoring (close_file temp)); ignoring (remove_file temp); raise e)
            w).0
          ≡ ok a
        → r ≡ ok a
    unfolding on_result ignoring when ◌>>=◌
    kept_ok b temp (ok c) w a h = h
    kept_ok true temp (err e) w a h = cc
    kept_ok false temp (err e) w a h = cc

    or_discard_ok :
        (b : Bool) (temp : Str) (m : M E A) (w : World E) (a : A)
        → (or_discard b temp m w).0 ≡ ok a
        → (m w).0 ≡ ok a
    unfolding or_discard attempt ◌>>=◌
    or_discard_ok b temp m w a h = kept_ok b temp (m w).0 (m w).1 a h

    attempt_ok : (m : M E A) (w : World E) (r : Result A) → (attempt m w).0 ≡ ok r → (m w).0 ≡ r
    unfolding attempt
    attempt_ok m w r h = ok_injective _ _ h

  module _ (node : Node) (target path : Str) where
    pure_target : (w : World E) → (pure target w).0 ≡ ok path → path ≡ target
    unfolding pure
    pure_target w h = sym (ok_injective _ _ h)

    found_again :
        (again : Result Bool) (cause : Error) (w v : World E)
        → (cache_file_valid target node.size v).0 ≡ again
        → (on_result again
            (λ fits. if fits then pure target else raise cause)
            (λ _. raise cause)
            w).0
          ≡ ok path
        → (path ≡ target) × Checked E node.size target v.env
    unfolding on_result raise
    found_again (ok true) cause w v a h =
        (pure_target w h, cache_file_valid-Checked target node.size v a)
    found_again (ok false) cause w v a h = cc
    found_again (err e) cause w v a h = cc

    other-Checked :
        (temp : Str) (cause : Error) (w : World E)
        → (published_by_other target node temp cause w).0 ≡ ok path
        → (path ≡ target) × Checked E node.size target w.env
    unfolding published_by_other
    other-Checked temp cause w h =
        let r = bind_ok _ _ w path h in
        let s = bind_ok _ _ _ path r.1.1 in
        found_again r.0 cause _ w (attempt_ok _ w r.0 r.1.0) s.1.1

    module _ (remote temp : Str) where
      renamed-Published :
          (c : FileCache) (d : E.State) (r : Result (Unit {0})) (w : World E)
          → (E.respond (on_disk (rename_local temp target)) d).0 ≡ r
          → (E.respond (on_disk (rename_local temp target)) d).1 ≡ w.env
          → (on_result r
              (λ _. do _ ← attempt (prune_cache c target); pure target)
              (published_by_other target node temp)
              w).0
            ≡ ok path
          → (path ≡ target) × Published E node.size target temp d
      unfolding on_result
      renamed-Published c d (ok tt) w a k h =
          let s = bind_ok _ _ w path h in (pure_target _ s.1.1, inl a)
      renamed-Published c d (err e) w a k h =
          let out = other-Checked temp e w h in
          (out.0, inr (subst (λ x. Checked E node.size target x) (sym k) out.1))

      publish-Published :
          (c : FileCache) (w : World E)
          → (publish c target node temp w).0 ≡ ok path
          → (path ≡ target) × Published E node.size target temp w.env
      unfolding publish ◌>>=◌
      publish-Published c w h = renamed-Published c w.env _ _ refl refl h

      fill_temp-Filled :
          (c : FileCache) (w before : World E)
          → fill c remote node target w ≡ fill_temp c remote node target temp before
          → (fill_temp c remote node target temp before).0 ≡ ok path
          → Filled remote node target c w path
      unfolding fill_temp
      fill_temp-Filled c w before run h =
          let closed = bind_ok _ _ before path h in
          let loaded = bind_ok _ _ _ path closed.1.1 in
          let checked = bind_ok _ _ _ path loaded.1.1 in
          let fits =
            bind_ok (cache_file_valid temp node.size) _ _ tt
              (or_discard_ok _ _ _ _ tt checked.1.0) in
          let yes : fits.0 ≡ true = guard_holds _ _ _ fits.1.1 in
          let out = publish-Published c _ checked.1.1 in
          (
            out.0,
            inr (record {
              temp = temp;
              before = before;
              run = run;
              downloaded = or_discard_ok _ _ _ _ tt loaded.1.0;
              checked = cache_file_valid-Checked temp node.size _ (fits.1.0 ∙ ap (λ b. ok b) yes);
              published = out.1;
            }),
          )

    module _ (remote : Str) (c : FileCache) where
      branch-Filled :
          (valid : Bool) (w u v : World E)
          → (cache_file_valid target node.size v).0 ≡ ok valid
          → v.env ≡ (check_context {E = E} w).1.env
          → fill c remote node target w
            ≡ (if valid then pure target else fill_missing c remote node target) u
          → (fill c remote node target w).0 ≡ ok path
          → Filled remote node target c w path
      unfolding fill_missing
      branch-Filled true w u v a k run h = (
        pure_target u (ap (λ q. q.0) (sym run) ∙ h),
        inl (
            subst (λ x. Checked E node.size target x) k
              (cache_file_valid-Checked target node.size v a)),
      )
      branch-Filled false w u v a k run h =
          let ends = ap (λ q. q.0) (sym run) ∙ h in
          let made = bind_ok _ _ u path ends in
          let temp = bind_ok _ _ _ path made.1.1 in
          fill_temp-Filled remote temp.0 c w _
            (run ∙ bind_runs _ _ u made.0 made.1.0 ∙ bind_runs _ _ _ temp.0 temp.1.0) temp.1.1

      -- Where fill succeeds, it gives the target, and either a look at the target, right after the
      -- check of the context, found a regular file of the node's size, or the rest of the run is
      -- that of fill_temp from some point on, in which in turn the temporary file is closed, the
      -- download to it succeeds, a look at it finds a regular file of the node's size, and the
      -- rename of it to the target succeeds, or a look after the rename finds a regular file of
      -- the node's size at the target.
      pub fill-Filled :
          (w : World E)
          → (fill c remote node target w).0 ≡ ok path
          → Filled remote node target c w path
      unfolding fill
      fill-Filled w h =
          let ready = bind_ok _ _ w path h in
          let valid = bind_ok _ _ _ path ready.1.1 in
          branch-Filled valid.0 w _ _ valid.1.0 refl
            (bind_runs _ _ w ready.0 ready.1.0 ∙ bind_runs _ _ _ valid.0 valid.1.0) h
