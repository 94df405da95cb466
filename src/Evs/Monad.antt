-- ===== src/Evs/Monad.antt =====
-- The surroundings of the client as a parameter, and actions that question them. An action keeps
-- what it changed also where it fails.
use idrive_unlimited.Base.{Bool, List, Option, Str, false, none, some, true, ℕ, ◌∷◌}
use idrive_unlimited.Evs.Errors.{Error, Result, err, ok}
use idrive_unlimited.Evs.Types.{Answer, CacheEntry, Devices, Event, Query, UploadRecord}

-- The EVS service, the local disk, the clock and the random source: anything that answers, with
-- a state of its own that others may change between two answers. `sha256` and `md5` are the hash
-- functions, `parse_time` is time.ParseInLocation with the client's layout.
pub record Env : Type 1 where
  pub State : Type 0
  pub sha256 : Str → Str
  pub md5 : Str → Str
  pub parse_time : Str → Option ℕ
  pub respond : (q : Query) → State → Answer q × State

-- The Client's own state, without its recovery journal.
pub record Client : Type 0 where
  pub devices : Devices
  pub browse_cache : List (Str × CacheEntry)
  pub generation : ℕ

-- `tx` is the record that the transaction in progress points to; uploadMu admits one at a time.
-- `journaling` tells whether the client has a recovery journal open. `trace` holds the questions
-- asked so far, the last one first, and `events` the same with their answers.
pub record World (E : Env) : Type 0 where
  pub env : E.State
  pub client : Client
  pub tx : UploadRecord
  pub journaling : Bool
  pub trace : List Query
  pub events : List Event

abbrev pub M : Env → Type 0 → Type 0
M E A = World E → Result A × World E

module _ {E : Env} {A : Type 0} where
  unfoldable pub pure : A → M E A
  pure a w = (ok a, w)

  unfoldable pub raise : Error → M E A
  raise e w = (err e, w)

  unfoldable pub lift : Result A → M E A
  lift r w = (r, w)

  -- The outcome as a value: the action itself does not fail.
  unfoldable pub attempt : M E A → M E (Result A)
  attempt m w = let (r, w') = m w in (ok r, w')

module _ {E : Env} where
  unfoldable pub ask : (q : Query) → M E (Answer q)
  ask q w =
      let (a, s) = E.respond q w.env in
      (
        ok a,
        record w {
          env = s;
          trace = q ∷ w.trace;
          events = record { question = q; answer = a } ∷ w.events;
        },
      )

  unfoldable pub get_client : M E Client
  get_client w = (ok w.client, w)

  unfoldable pub set_client : Client → M E (Unit {0})
  set_client c w = (ok tt, record w { client = c })

  unfoldable pub get_journaling : M E Bool
  get_journaling w = (ok w.journaling, w)

  unfoldable pub get_tx : M E UploadRecord
  get_tx w = (ok w.tx, w)

  unfoldable pub set_tx : UploadRecord → M E (Unit {0})
  set_tx r w = (ok tt, record w { tx = r })

module _ {E : Env} {A B : Type 0} where
  abbrev pub continue : Result A → (A → M E B) → M E B
  continue (ok a) f w = f a w
  continue (err e) f w = (err e, w)

  infixl 10 ◌>>=◌
  unfoldable pub ◌>>=◌ : M E A → (A → M E B) → M E B
  unfolding pure raise lift attempt ask get_client set_client get_journaling get_tx set_tx
  ◌>>=◌ m f w = let (r, w') = m w in continue r f w'

  infixl 10 ◌>>◌
  abbrev pub ◌>>◌ : M E A → M E B → M E B
  m >> n = m >>= λ _. n

module _ {E : Env} where
  -- A Go function that returns an error alone.
  unfoldable pub when : Bool → M E (Unit {0}) → M E (Unit {0})
  when true m = m
  when false m = pure tt

  unfoldable pub guard : Bool → Error → M E (Unit {0})
  guard true e = pure tt
  guard false e = raise e

-- Code that goes on in one way after a success and in another after an error.
module _ {E : Env} {A B : Type 0} where
  unfoldable pub on_result : Result A → (A → M E B) → (Error → M E B) → M E B
  on_result (ok a) f g = f a
  on_result (err e) f g = g e

  unfoldable pub on_option : Option A → M E B → (A → M E B) → M E B
  on_option none m f = m
  on_option (some a) m f = f a
