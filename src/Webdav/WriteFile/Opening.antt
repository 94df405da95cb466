-- ===== src/Webdav/WriteFile/Opening.antt =====
-- newWriteFile of internal/webdav/fs.go leaves no temporary file behind where it fails.
use idrive_unlimited.Base.{Bool, Str, [], ap, codes, false, subst, sym, true, ◌∙◌, ◌≡◌}
use idrive_unlimited.Evs.Errors.{Error, Result, err, ok}
use idrive_unlimited.Evs.Files.{create_temp, remove_file, seek_start, truncate_file}
use idrive_unlimited.Evs.Listing.{stat}
use idrive_unlimited.Evs.Monad.{Env, M, World, ask, pure, when, ◌>>=◌, ◌>>◌}
use idrive_unlimited.Evs.Runs.{bind_runs}
use idrive_unlimited.Evs.Transfer.{ask_result}
use idrive_unlimited.Evs.Types.{Node, Query, on_disk}
use idrive_unlimited.Webdav.Discard.{
  Discards, Discards-attempt, Discards-bind, Discards-if, Discards-or_discard, Discards-pure,
  EndsWith, or_discard,
}
use idrive_unlimited.Webdav.WriteFile.{
  OpenFlags, new_write_file, open_existing, open_target, open_temp, position,
}

module _ {E : Env} (temp : Str) where
  Discards-open_existing :
      (remote : Str) (flags : OpenFlags) (node : Node)
      → Discards {E = E} temp (open_existing remote temp flags node)
  unfolding open_existing
  Discards-open_existing remote flags node = Discards-bind _ _ (Discards-or_discard true _) λ _.
      Discards-bind _ _ (Discards-or_discard true _) λ _.
        Discards-if flags.truncating (pure true) _ (Discards-pure true) (
          Discards-bind _ _ (Discards-or_discard true _) λ _.
            Discards-bind _ _ (Discards-or_discard false _)
              λ _. Discards-bind _ _ (Discards-or_discard false _) λ _. Discards-pure false)

  Discards-open_target :
      (remote : Str) (flags : OpenFlags) (r : Result Node)
      → Discards {E = E} temp (open_target remote temp flags r)
  unfolding open_target
  Discards-open_target remote flags (ok node) = Discards-open_existing remote flags node
  Discards-open_target remote flags (err e) =
      Discards-bind _ _ (Discards-or_discard true _) λ _. Discards-pure true

  abbrev emptied : M E (Unit {0})
  emptied = do
    or_discard true temp (ask_result (ask (on_disk (truncate_file temp))))
    or_discard true temp (ask_result (ask (on_disk (seek_start temp))))

  Discards-truncating : (b : Bool) → Discards {E = E} temp (when b emptied)
  unfolding when
  Discards-truncating true =
      Discards-bind _ _ (Discards-or_discard true _) λ _. Discards-or_discard true _
  Discards-truncating false = Discards-pure tt

  Discards-position : (flags : OpenFlags) → Discards {E = E} temp (position temp flags)
  unfolding position
  Discards-position flags =
      Discards-bind _ _ (Discards-truncating flags.truncating) λ _. Discards-or_discard true _

  Discards-open_temp :
      (remote : Str) (flags : OpenFlags) → Discards {E = E} temp (open_temp remote flags temp)
  unfolding open_temp
  Discards-open_temp remote flags = Discards-bind _ _ (Discards-attempt (stat remote)) λ target.
      Discards-bind _ _ (Discards-open_target remote flags target)
        λ commit. Discards-bind _ _ (Discards-position flags) λ _. Discards-pure _

abbrev pub temp_query : Query
temp_query = on_disk (create_temp [] (codes "idrive-gateway-write-*"))

module _ {E : Env} where
  asked :
      (w : World E) (temp : Str)
      → (E.respond temp_query w.env).0 ≡ ok temp
      → (ask_result (ask temp_query) w).0 ≡ ok temp
  unfolding ask_result ◌>>=◌
  asked w temp c = c

  -- Where newWriteFile fails after its temporary file was created, the last thing that it does is
  -- to remove that file.
  pub new_write_file_discards :
      (remote : Str) (flags : OpenFlags) (w : World E) (temp : Str) (e : Error)
      → (E.respond temp_query w.env).0 ≡ ok temp
      → (new_write_file remote flags w).0 ≡ err e
      → EndsWith (on_disk (remove_file temp)) (new_write_file remote flags w).1.trace
  unfolding new_write_file
  new_write_file_discards remote flags w temp e c h =
      let runs =
        bind_runs (ask_result (ask temp_query)) (open_temp remote flags) w temp (asked w temp c) in
      subst (λ q. EndsWith (on_disk (remove_file temp)) q.1.trace) (sym runs)
        ((Discards-open_temp temp remote flags).discards _ e (ap (λ q. q.0) (sym runs) ∙ h))
