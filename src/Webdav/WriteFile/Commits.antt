-- ===== src/Webdav/WriteFile/Commits.antt =====
-- What Close of a writeFile in internal/webdav/fs.go may do to the drive.
use idrive_unlimited.Base.{
  All, Bool, Option, Str, false, if◌then◌else◌, none, refl, some, true, ℕ, ◌/◌, ◌||◌, ◌≡◌,
}
use idrive_unlimited.Evs.Errors.{Error, Result, err, file_too_large, join_errors, ok, sentinel}
use idrive_unlimited.Evs.Files.{FileOp, close_file, offset_of, remove_all, remove_file}
use idrive_unlimited.Evs.Footprint.{UploadAllows}
use idrive_unlimited.Evs.Footprint.Upload.{Keeps-upload_file}
use idrive_unlimited.Evs.Journal.{is_ok}
use idrive_unlimited.Evs.Keeps.{
  AnyRecord, Keeps, Keeps-ask, Keeps-attempt, Keeps-bind, Keeps-if, Keeps-on_result, Keeps-pure,
  Keeps-raise,
}
use idrive_unlimited.Evs.Monad.{Env, M, World, on_option, on_result, pure, raise, ◌>>=◌, ◌>>◌}
use idrive_unlimited.Evs.Transfer.{ask_result}
use idrive_unlimited.Evs.Types.{Query, UploadRecord, clock, context_error, on_disk}
use idrive_unlimited.Evs.Upload.{upload_file}
use idrive_unlimited.Path.{clean_path}
use idrive_unlimited.Webdav.Maintenance.{ignoring}
use idrive_unlimited.Webdav.Maintenance.Asks.{Keeps-disk, Keeps-disk_ignoring, Keeps-disk_result}
use idrive_unlimited.Webdav.ReadCache.{FileCache, invalidate}
use idrive_unlimited.Webdav.Retention.Asks.{Keeps-retain_upload}
use idrive_unlimited.Webdav.WriteFile.{
  WriteFile, Written, close, close_changed, commit, read_error_of, retain_failed, write,
  write_within,
}
use idrive_unlimited.Webdav.WriteState.{WriteState, complete, fail, failure}

join_errors_ok : (a b : Result (Unit {0})) → join_errors a b ≡ ok tt → b ≡ ok tt
unfolding join_errors
join_errors_ok (ok _) b h = h
join_errors_ok (err e) (ok _) h = cc
join_errors_ok (err e) (err d) h = cc

module _ {E : Env} {P : Query → Type 0} {Q : UploadRecord → Type 0}
    (disk : (op : FileOp) → P (on_disk op)) (tick : P clock) (f : WriteFile) where
  -- What follows a success may use that it was one.
  Keeps-on_success :
      (r : Result (Unit {0})) (m : Unit {0} → M E (Unit {0})) (n : Error → M E (Unit {0}))
      → (r ≡ ok tt → Keeps P Q (m tt))
      → ((e : Error) → Keeps P Q (n e))
      → Keeps P Q (on_result r m n)
  unfolding on_result
  Keeps-on_success (ok tt) m n k l = k refl
  Keeps-on_success (err e) m n k l = l e

  Keeps-remove_and_raise :
      (e : Error) → Keeps {E = E} {A = Unit {0}} P Q (do ignoring (remove_file f.temp); raise e)
  Keeps-remove_and_raise e =
      Keeps-bind _ _ (Keeps-disk_ignoring disk (remove_file f.temp)) λ _. Keeps-raise e

  Keeps-retain_failed : (cause : Error) → Keeps {E = E} P Q (retain_failed f cause)
  unfolding retain_failed
  Keeps-retain_failed cause =
      Keeps-bind _ _ (Keeps-retain_upload disk tick f.temp f.remote cause) λ saved.
        Keeps-bind _ _
          (Keeps-on_result _ _ _ (λ _. Keeps-disk_ignoring disk (remove_file f.temp))
            λ _. Keeps-pure tt)
          λ _. Keeps-raise _

  Keeps-invalidated :
      (o : Option FileCache)
      → Keeps {E = E} P Q (on_option o (pure tt) (λ c. invalidate c f.remote))
  unfolding on_option invalidate
  Keeps-invalidated none = Keeps-pure tt
  Keeps-invalidated (some c) = Keeps-disk_result disk _ (Keeps-disk disk (remove_all _))

  Keeps-commit :
      ((t : ℕ) → Keeps {E = E} P Q (upload_file f.temp f.remote t)) → Keeps {E = E} P Q (commit f)
  unfolding commit
  Keeps-commit u =
      Keeps-bind _ _
        (Keeps-attempt _ (
          Keeps-bind _ _ (Keeps-invalidated f.cache)
            λ _. Keeps-bind _ _ (Keeps-ask clock tick) λ now. u (now / 1000000)))
        λ saved.
          Keeps-on_result _ _ _
            (λ _. Keeps-disk_result disk _ (Keeps-disk disk (remove_file f.temp)))
            Keeps-retain_failed

  -- Close uploads only where the write state is complete.
  Keeps-close :
      (state : Option WriteState)
      → P context_error
      → (complete state ≡ ok tt → (t : ℕ) → Keeps {E = E} P Q (upload_file f.temp f.remote t))
      → Keeps {E = E} P Q (close f state)
  unfolding close close_changed
  Keeps-close state c u = Keeps-bind _ _ (Keeps-disk disk (close_file f.temp)) λ closed.
      Keeps-on_result _ _ _
        (λ _.
          Keeps-if (f.dirty || f.commit_on_close) _ _
            (λ _. Keeps-bind _ _ (Keeps-ask context_error c) λ ended.
              Keeps-on_success _ _ _ (λ h. Keeps-commit (u (join_errors_ok _ _ h)))
                Keeps-remove_and_raise)
            λ _. Keeps-disk_ignoring disk (remove_file f.temp))
        Keeps-remove_and_raise

abbrev pub is_local : Query → Bool
is_local (on_disk op) = true
is_local clock = true
is_local context_error = true
is_local _ = false

abbrev pub IsLocal : Query → Type 0
IsLocal q = is_local q ≡ true

module _ {E : Env} (f : WriteFile) where
  module _ (e : Error) where
    refused :
        (r : Result (Unit {0})) (w : World E)
        → is_ok
            (on_result {E = E}
              (join_errors r (err e))
              (λ _. commit f)
              (λ d. do ignoring (remove_file f.temp); raise d)
              w).0
          ≡ false
    unfolding join_errors on_result ignoring ◌>>=◌
    refused (ok _) w = refl
    refused (err d) w = refl

    refused_closed :
        (state : Option WriteState) (closed : Result (Unit {0})) (w : World E)
        → complete state ≡ err e
        → (f.dirty || f.commit_on_close) ≡ true
        → is_ok
            (on_result {E = E} closed
              (λ _.
                if f.dirty || f.commit_on_close
                then close_changed f state
                else ignoring (remove_file f.temp))
              (λ d. do ignoring (remove_file f.temp); raise d)
              w).0
          ≡ false
    unfolding on_result ignoring ◌>>=◌ close_changed
    refused_closed state (ok _) w h c = rw (c) (rw (h) (refused _ _))
    refused_closed state (err d) w h c = refl

  -- A file that was changed, or is to be committed in any case, and whose request was not received
  -- whole or met an error, is not committed: Close fails, and asks only for the state of the
  -- context, the clock and the local disk.
  pub close_incomplete :
      (state : Option WriteState) (e : Error) (w : World E)
      → complete state ≡ err e
      → (f.dirty || f.commit_on_close) ≡ true
      → All IsLocal w.trace
      → (is_ok (close f state w).0 ≡ false) × All IsLocal (close f state w).1.trace
  unfolding close ◌>>=◌
  close_incomplete state e w h c l = (
    refused_closed e state _ _ h c,
    ((Keeps-close {P = IsLocal} {Q = AnyRecord} (λ op. refl) refl f state refl (λ k t. cc)).at w l
        tt).0,
  )

  -- Close, whether it commits or fails, asks of the drive and of the journal only what an upload
  -- to the cleaned remote path may ask, whatever the drive and the disk answer.
  pub close-footprint :
      (state : Option WriteState) (w : World E)
      → All (UploadAllows (clean_path f.remote)) w.trace
      → All (UploadAllows (clean_path f.remote)) (close f state w).1.trace
  close-footprint state w h =
      ((Keeps-close {P = UploadAllows (clean_path f.remote)} {Q = AnyRecord} (λ op. tt) tt f state
          tt (λ k t. Keeps-upload_file f.temp f.remote t)).at
        w h tt).0

abbrev pub error_of : Result Written → Option Error
error_of (ok q) = q.0.1
error_of (err e) = none

abbrev pub state_of : Result Written → Option WriteState
state_of (ok q) = q.1.1
state_of (err e) = none

-- An outcome with an error leaves a write state that Close does not commit.
abbrev RefusesAfter : Result Written → Type 0
RefusesAfter q = (e : Error) → error_of q ≡ some e → is_ok (complete (state_of q)) ≡ false

fail-complete :
    (s : WriteState) (r : Option Error) (e : Error)
    → r ≡ some e
    → is_ok (complete (fail (some s) (read_error_of r))) ≡ false
unfolding fail complete
fail-complete s none e h = cc
fail-complete s (some d) e h = refl

module _ {E : Env} (f : WriteFile) (s : WriteState) (bytes : Str) where
  within_limit : (w : World E) → RefusesAfter (write_within f (some s) bytes w).0
  unfolding write_within ◌>>=◌
  within_limit w e h = fail-complete s _ e h

  limited :
      (b : Bool) (w : World E)
      → RefusesAfter
          ((if b
              then pure (
                (0, some (sentinel file_too_large)),
                (f, fail (some s) (failure (sentinel file_too_large))),
              )
              else write_within f (some s) bytes)
            w).0
  unfolding pure
  limited true w e h =
      fail-complete s (some (sentinel file_too_large)) (sentinel file_too_large) refl
  limited false w e h = within_limit w e h

  refuses :
      (w : World E) (offset : ℕ)
      → (E.respond (on_disk (offset_of f.temp)) w.env).0 ≡ ok offset
      → RefusesAfter (write f (some s) bytes w).0
  unfolding write ask_result ◌>>=◌ on_result
  refuses w offset o = rw (o) (limited _ _)

  -- A Write that reports an error leaves a write state that Close does not commit, if the offset
  -- of the file could be read.
  pub write-complete :
      (w : World E) (offset : ℕ)
      → (E.respond (on_disk (offset_of f.temp)) w.env).0 ≡ ok offset
      → (e : Error) → error_of (write f (some s) bytes w).0 ≡ some e
      → is_ok (complete (state_of (write f (some s) bytes w).0)) ≡ false
  write-complete w offset o e h = refuses w offset o e h
