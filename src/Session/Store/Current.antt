-- ===== src/Session/Store/Current.antt =====
-- A session is written over the one that was expected, and over no newer login.
use idrive_unlimited.Base.{
  Bool, List, Option, Str, [], false, inr, none, refl, some, true, ◌+◌, ◌∷◌, ◌≡◌, ◌⊎◌,
}
use idrive_unlimited.Evs.Errors.{ok}
use idrive_unlimited.Evs.Files.{lock_file, read_at_most, unlock_file, write_atomic}
use idrive_unlimited.Evs.Leads.{Rule}
use idrive_unlimited.Evs.Types.{Event, Query, on_disk}
use idrive_unlimited.Session.Store.{Data, Json, lock_name, same_revision, session_limit}

abbrev pub is_unlock : Query → Bool
is_unlock (on_disk (unlock_file name)) = true
is_unlock _ = false

abbrev pub locked_event : Str → Event
locked_event path = record { question = on_disk (lock_file (lock_name path)); answer = ok tt }

-- The lock beside the file was acquired, and no lock was released since.
abbrev pub Locked : Str → List Event → Type 0
Locked path [] = ⊥
Locked path (e ∷ es) = (e ≡ locked_event path) ⊎ ((is_unlock e.question ≡ false) × Locked path es)

abbrev pub read_event : Str → Str → Event
read_event path raw = record {
  question = on_disk (read_at_most path (session_limit + 1));
  answer = ok raw;
}

-- The bytes were read from the file under the lock, and no lock was released since.
abbrev pub ReadLocked : Str → Str → List Event → Type 0
ReadLocked path raw [] = ⊥
ReadLocked path raw (e ∷ es) =
    ((e ≡ read_event path raw) × Locked path es)
    ⊎ ((is_unlock e.question ≡ false) × ReadLocked path raw es)

-- The lock is held, and where a session is expected, the file was read under it and held a session
-- of the same login, saved at the same time.
abbrev pub Expected : Json → Str → Option Data → List Event → Type 0
Expected json path none es = Locked path es
Expected json path (some expected) es =
    (raw : Str) × (old : Data) × (json.decode raw ≡ some old)
    × (same_revision old expected ≡ true)
    × ReadLocked path raw es

-- A write of the session waits for the lock, and for a read that finds what is expected.
abbrev pub WritesCurrent : Json → Str → Option Data → Rule
WritesCurrent json path expected es (on_disk (write_atomic file bytes)) =
    (file ≡ path) × Expected json path expected es
WritesCurrent json path expected es _ = Unit

-- Questions that write no file atomically.
abbrev pub Unwriting : Query → Type 0
Unwriting (on_disk (write_atomic file bytes)) = ⊥
Unwriting _ = Unit

-- Those of them that release no lock.
abbrev pub Quiet : Query → Type 0
Quiet (on_disk (unlock_file name)) = ⊥
Quiet q = Unwriting q

-- Questions that release no lock and write the one file.
abbrev pub Writing : Str → Query → Type 0
Writing path (on_disk (unlock_file name)) = ⊥
Writing path (on_disk (write_atomic file bytes)) = file ≡ path
Writing path _ = Unit

nothing_here : {A : Type 0} → ⊥ → A
nothing_here h = elim h [ ]

pub Quiet-is_unlock : (q : Query) → Quiet q → is_unlock q ≡ false
Quiet-is_unlock (on_disk (unlock_file name)) h = nothing_here h
Quiet-is_unlock (on_disk _) h = refl
Quiet-is_unlock _ h = refl

pub Writing-is_unlock : (path : Str) (q : Query) → Writing path q → is_unlock q ≡ false
Writing-is_unlock path (on_disk (unlock_file name)) h = nothing_here h
Writing-is_unlock path (on_disk _) h = refl
Writing-is_unlock path _ h = refl

module _ (json : Json) (path : Str) (expected : Option Data) where
  pub unwriting_obeys :
      (es : List Event) (q : Query) → Unwriting q → WritesCurrent json path expected es q
  unwriting_obeys es (on_disk (write_atomic file bytes)) h = nothing_here h
  unwriting_obeys es (on_disk _) h = tt
  unwriting_obeys es _ h = tt

  pub quiet_obeys : (es : List Event) (q : Query) → Quiet q → WritesCurrent json path expected es q
  quiet_obeys es (on_disk (unlock_file name)) h = nothing_here h
  quiet_obeys es (on_disk (write_atomic file bytes)) h = nothing_here h
  quiet_obeys es (on_disk _) h = tt
  quiet_obeys es _ h = tt

  pub writing_obeys :
      (es : List Event) (q : Query)
      → Writing path q
      → Expected json path expected es
      → WritesCurrent json path expected es q
  writing_obeys es (on_disk (unlock_file name)) h x = nothing_here h
  writing_obeys es (on_disk (write_atomic file bytes)) h x = (h, x)
  writing_obeys es (on_disk _) h x = tt
  writing_obeys es _ h x = tt

  pub Expected-grows :
      (o : Option Data) (e : Event) (es : List Event)
      → is_unlock e.question ≡ false
      → Expected json path o es
      → Expected json path o (e ∷ es)
  Expected-grows none e es q h = inr (q, h)
  Expected-grows (some x) e es q (raw, old, d, s, h) = (raw, old, d, s, inr (q, h))
