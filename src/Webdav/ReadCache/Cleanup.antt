-- ===== src/Webdav/ReadCache/Cleanup.antt =====
-- A download into the read cache, in internal/webdav/cache.go, that fails leaves no temporary file.
use idrive_unlimited.Base.{Bool, Str, false, if◌then◌else◌, refl, true, ◌≡◌}
use idrive_unlimited.Evs.Errors.{Error, Result, err, ok}
use idrive_unlimited.Evs.Files.{remove_file, rename_local}
use idrive_unlimited.Evs.Monad.{Env, World, on_result, pure, raise, ◌>>=◌}
use idrive_unlimited.Evs.Types.{Node, on_disk}
use idrive_unlimited.Webdav.Discard.{
  Discards, Discards-ask, Discards-attempt, Discards-bind, Discards-on_result, Discards-or_discard,
  Discards-pure, EndsWith,
}
use idrive_unlimited.Webdav.Maintenance.{ignoring}
use idrive_unlimited.Webdav.ReadCache.{
  FileCache, fill_temp, prune_cache, publish, published_by_other,
}

module _ {E : Env} (temp : Str) (node : Node) (target : Str) where
  removed_last :
      (again : Result Bool) (cause : Error) (w : World E) (e : Error)
      → EndsWith (on_disk (remove_file temp)) w.trace
      → (on_result {E = E} again
          (λ fits. if fits then pure target else raise cause)
          (λ _. raise cause)
          w).0
        ≡ err e
      → EndsWith
          (on_disk (remove_file temp))
          (on_result {E = E} again
            (λ fits. if fits then pure target else raise cause)
            (λ _. raise cause)
            w).1.trace
  unfolding on_result pure raise
  removed_last (ok true) cause w e r h = cc
  removed_last (ok false) cause w e r h = r
  removed_last (err d) cause w e r h = r

  Discards-published_by_other :
      (cause : Error) → Discards {E = E} temp (published_by_other target node temp cause)
  unfolding published_by_other ignoring ◌>>=◌
  Discards-published_by_other cause = record {
    discards = λ w e h. removed_last _ cause _ e (_, refl) h;
  }

  Discards-publish : (c : FileCache) → Discards {E = E} temp (publish c target node temp)
  unfolding publish
  Discards-publish c = Discards-bind _ _ (Discards-ask (on_disk (rename_local temp target))) λ r.
      Discards-on_result r _ _
        (λ _. Discards-bind _ _ (Discards-attempt (prune_cache c target)) λ _. Discards-pure target)
        Discards-published_by_other

  -- Where a download into the cache fails, or its file cannot be published, the last thing that
  -- fill does is to remove its temporary file.
  pub fill_temp_discards :
      (c : FileCache) (remote : Str) (w : World E) (e : Error)
      → (fill_temp c remote node target temp w).0 ≡ err e
      → EndsWith (on_disk (remove_file temp)) (fill_temp c remote node target temp w).1.trace
  unfolding fill_temp
  fill_temp_discards c remote =
      (Discards-bind _ _ (Discards-or_discard false _) λ _.
        Discards-bind _ _ (Discards-or_discard false _)
          λ _. Discards-bind _ _ (Discards-or_discard false _) λ _. Discards-publish c).discards
