-- ===== src/Session/Store/Saves.antt =====
-- Store.save writes the session file under the lock alone, over what it expects there.
use idrive_unlimited.Base.{Bool, List, Option, Str, ap, inl, inr, none, refl, some, ◌+◌, ◌≡◌}
use idrive_unlimited.Evs.Errors.{Result, ok}
use idrive_unlimited.Evs.Files.{
  lock_file, make_dirs, read_at_most, stat_file, unlock_file, write_atomic,
}
use idrive_unlimited.Evs.Gives.{ok_injective}
use idrive_unlimited.Evs.Keeps.{AnyRecord, Keeps, Keeps-ask, Keeps-bind, Keeps-guard, Keeps-lift}
use idrive_unlimited.Evs.Leads.{
  AnyEvents, Leads, Leads-Keeps, Leads-attempt, Leads-bind, Leads-guard, Leads-lift, Leads-post,
  Leads-pure, Leads-return, Obeyed, Sound,
}
use idrive_unlimited.Evs.Monad.{Env, M, World, ask, lift, ◌>>=◌}
use idrive_unlimited.Evs.Transfer.{ask_result}
use idrive_unlimited.Evs.Types.{Event, Query, UploadRecord, clock, on_disk}
use idrive_unlimited.Path.{path_dir}
use idrive_unlimited.Session.Store.{
  Data, Json, check_current, decoded_session, load, lock_name, same_revision, save_locked,
  save_session, session_changed, session_limit,
}
use idrive_unlimited.Session.Store.Current.{
  Expected, Expected-grows, Locked, Quiet, Quiet-is_unlock, ReadLocked, Unwriting, WritesCurrent,
  Writing, Writing-is_unlock, quiet_obeys, unwriting_obeys, writing_obeys,
}

-- An action whose answer may be an error, as a step.
asked_Keeps :
    {E : Env} {A : Type 0} {P : Query → Type 0} {Q : UploadRecord → Type 0} (m : M E (Result A))
    → Keeps P Q m
    → Keeps P Q (ask_result m)
unfolding ask_result
asked_Keeps m k = Keeps-bind m _ k λ r. Keeps-lift r

decoded_some : (o : Option Data) (d : Data) → decoded_session o ≡ ok d → o ≡ some d
unfolding decoded_session
decoded_some none d h = cc
decoded_some (some c) d h = ap some (ok_injective c d h)

-- What `load` leaves, under the lock.
abbrev Loaded : Json → Str → Data → List Event → Type 0
Loaded json path old es = (raw : Str) × (json.decode raw ≡ some old) × ReadLocked path raw es

module _ (json : Json) (path : Str) (expected : Option Data) where
  abbrev LeadsFrom :
      {E : Env} {A : Type 0} → (List Event → Type 0) → M E A → (A → List Event → Type 0) → Type 0
  LeadsFrom S m T =
      (open_journal : Bool) → Leads (WritesCurrent json path expected) open_journal AnyRecord S m T

  abbrev StepOf : {E : Env} {A : Type 0} → (Query → Type 0) → M E A → Type 0
  StepOf P m = Keeps P AnyRecord m

  -- Steps that ask quiet questions keep the lock, and what was read under it.
  Quiet-Locked :
      {E : Env} {A : Type 0} (m : M E A)
      → StepOf Quiet m
      → LeadsFrom (Locked path) m λ _. Locked path
  Quiet-Locked m k j =
      Leads-Keeps
        (λ e es p h.
          (quiet_obeys json path expected es e.question p, inr (Quiet-is_unlock e.question p, h)))
        m k

  Writing-Expected :
      {E : Env} {A : Type 0} (m : M E A)
      → StepOf (Writing path) m
      → LeadsFrom (Expected json path expected) m λ _. Expected json path expected
  Writing-Expected m k j =
      Leads-Keeps
        (λ e es p h. (
          writing_obeys json path expected es e.question p h,
          Expected-grows json path expected expected e es (Writing-is_unlock path e.question p) h,
        ))
        m k

  plainly :
      {E : Env} {A : Type 0} (m : M E A) → StepOf Unwriting m → LeadsFrom AnyEvents m λ _. AnyEvents
  plainly m k j =
      Leads-Keeps (λ e es p h. (unwriting_obeys json path expected es e.question p, tt)) m k

  module _ {E : Env} where
    Leads-locks :
        LeadsFrom {E = E} AnyEvents
          (ask_result (ask (on_disk (lock_file (lock_name path)))))
          λ _. Locked path
    unfolding ask_result ask ◌>>=◌ lift
    Leads-locks j = record {
      at = λ w s h. (
        record { journal = s.journal; ahead = (tt, s.ahead); tx = s.tx },
        λ a e.
            inl
              (ap (λ x. record { question = on_disk (lock_file (lock_name path)); answer = x }) e),
      );
    }

    Leads-reads :
        LeadsFrom {E = E}
          (Locked path)
          (ask_result (ask (on_disk (read_at_most path (session_limit + 1)))))
          (ReadLocked path)
    unfolding ask_result ask ◌>>=◌ lift
    Leads-reads j = record {
      at = λ w s h. (
        record { journal = s.journal; ahead = (tt, s.ahead); tx = s.tx },
        λ raw e. inl (
          ap
              (λ x. record {
                question = on_disk (read_at_most path (session_limit + 1));
                answer = x;
              })
              e,
          h,
        ),
      );
    }

    Leads-load : LeadsFrom {E = E} (Locked path) (load json path) (Loaded json path)
    unfolding load
    Leads-load j =
        Leads-bind _ _ (Quiet-Locked _ (asked_Keeps _ (Keeps-ask (on_disk (stat_file path)) tt)) j)
          λ info. Leads-bind _ _ (Quiet-Locked _ (Keeps-guard _ _) j) λ _.
            Leads-bind _ _ (Leads-reads j) λ raw. Leads-bind _ _ (Leads-guard _ _) λ _.
              Leads-bind _ _ (Leads-lift (decoded_session (json.decode raw))) λ old.
                Leads-bind _ _ (Leads-guard _ _) λ _.
                  Leads-return old λ es h. (raw, decoded_some (json.decode raw) old h.1.0, h.1.1.1)

    Leads-check_current :
        (o : Option Data)
        → LeadsFrom {E = E} (Locked path) (check_current json path o) λ _. Expected json path o
    unfolding check_current
    Leads-check_current none j = Leads-return tt λ es h. h
    Leads-check_current (some x) j = Leads-bind _ _ (Leads-load j) λ old.
        Leads-post _ (Leads-guard (same_revision old x) session_changed)
          λ a es h. (h.1.0, old, h.1.1, h.0, h.1.2)

    Leads-save_locked :
        (saved : Data)
        → LeadsFrom {E = E} (Locked path) (save_locked json path saved expected) λ _. AnyEvents
    unfolding save_locked
    Leads-save_locked saved j = Leads-bind _ _ (Leads-check_current expected j) λ _.
        Leads-bind _ _ (Writing-Expected _ (Keeps-ask clock tt) j) λ now.
          Leads-bind _ _ (Writing-Expected _ (Keeps-lift _) j) λ payload.
            Leads-bind _ _
              (Writing-Expected _
                (asked_Keeps _ (Keeps-ask (on_disk (write_atomic path payload)) refl)) j)
              λ _. Leads-pure _

    Leads-save_session :
        (saved : Data)
        → LeadsFrom {E = E} AnyEvents (save_session json path saved expected) λ _. AnyEvents
    unfolding save_session
    Leads-save_session saved j = Leads-bind _ _ (plainly _ (Keeps-guard _ _) j) λ _.
        Leads-bind _ _
          (plainly _ (asked_Keeps _ (Keeps-ask (on_disk (make_dirs (path_dir path))) tt)) j)
          λ _. Leads-bind _ _ (Leads-locks j) λ _.
            Leads-bind _ _ (Leads-attempt _ (Leads-save_locked saved j)) λ outcome.
              Leads-bind _ _ (plainly _ (Keeps-ask (on_disk (unlock_file (lock_name path))) tt) j)
                λ closed. plainly _ (Keeps-lift outcome) j

module _ {E : Env} where
  -- Whatever the disk, other processes and the clock answer, and wherever saving fails, Store.save
  -- writes the session file, and no other, only while it holds the lock beside it, and where a
  -- session is expected, only after it read under that lock a session of the same id and host,
  -- saved at the same time, if this held of the events before: it overwrites no newer login.
  pub save_session-WritesCurrent :
      (json : Json) (path : Str) (saved : Data) (expected : Option Data) (w : World E)
      → Obeyed (WritesCurrent json path expected) w.events
      → Obeyed (WritesCurrent json path expected) (save_session json path saved expected w).1.events
  save_session-WritesCurrent json path saved expected w h =
      let start : Sound (WritesCurrent json path expected) w.journaling AnyRecord w = record {
        journal = refl;
        ahead = h;
        tx = tt;
      } in
      let out = (Leads-save_session json path expected saved w.journaling).at w start tt in
      out.0.ahead
