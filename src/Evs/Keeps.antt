-- ===== src/Evs/Keeps.antt =====
-- Invariants of actions: every question asked meets `P`, and the transaction's record meets `Q`,
-- whatever the surroundings answer and whether or not the action fails. One rule for each way to
-- build an action.
pub mod Reads
pub mod Writes
pub mod Recovery
pub mod Uploads
use idrive_unlimited.Base.{
  All, Bool, List, Option, false, if◌then◌else◌, none, refl, some, true, ◌∙◌, ◌∷◌, ◌≡◌,
}
use idrive_unlimited.Evs.Errors.{Error, Result, err, ok}
use idrive_unlimited.Evs.Monad.{
  Client, Env, M, World, ask, attempt, continue, get_client, get_journaling, get_tx, guard, lift,
  on_option, on_result, pure, raise, set_client, set_tx, when, ◌>>=◌, ◌>>◌,
}
use idrive_unlimited.Evs.Types.{Event, Query, UploadRecord}

-- The events after are the events before with more, whose questions meet `P`.
pub data Extends (P : Query → Type 0) : List Event → List Event → Type 0 where
  no_more : (all_events : List Event) → Extends P all_events all_events
  one_more :
      {old_events all_events : List Event} (e : Event)
      → P e.question
      → Extends P old_events all_events
      → Extends P old_events (e ∷ all_events)

pub Extends-trans :
    {P : Query → Type 0} {a b c : List Event} → Extends P a b → Extends P b c → Extends P a c
Extends-trans g (no_more _) = g
Extends-trans g (one_more e p h) = one_more e p (Extends-trans g h)

-- What an action changes, from a record that meets `Q`: the events grow by questions that meet
-- `P`, the journal stays open or closed, and the record still meets `Q`.
pub record Grown {E : Env} (P : Query → Type 0) (Q : UploadRecord → Type 0) (w v : World E)
    : Type 0 where
  pub events : Extends P w.events v.events
  pub journal : v.journaling ≡ w.journaling
  pub tx : Q v.tx

pub record Keeps {E : Env} {A : Type 0} (P : Query → Type 0) (Q : UploadRecord → Type 0) (m : M E A)
    : Type 0 where
  pub at : (w : World E) → All P w.trace → Q w.tx → All P (m w).1.trace × Q (m w).1.tx
  pub grows : (w : World E) → Q w.tx → Grown P Q w (m w).1

module _ {E : Env} {P : Query → Type 0} {Q : UploadRecord → Type 0} where
  pub Grown-refl : (w : World E) → Q w.tx → Grown P Q w w
  Grown-refl w q = record { events = no_more _; journal = refl; tx = q }

  pub Grown-trans : {u v w : World E} → Grown P Q u v → Grown P Q v w → Grown P Q u w
  Grown-trans f g = record {
    events = Extends-trans f.events g.events;
    journal = g.journal ∙ f.journal;
    tx = g.tx;
  }

  pub Keeps-ask : (q : Query) → P q → Keeps {E = E} P Q (ask q)
  unfolding ask
  Keeps-ask q p = record {
    at = λ w h k. ((p, h), k);
    grows = λ w k. record { events = one_more _ p (no_more _); journal = refl; tx = k };
  }

  pub Keeps-get_client : Keeps {E = E} P Q get_client
  unfolding get_client
  Keeps-get_client = record { at = λ w h k. (h, k); grows = Grown-refl }

  pub Keeps-get_journaling : Keeps {E = E} P Q get_journaling
  unfolding get_journaling
  Keeps-get_journaling = record { at = λ w h k. (h, k); grows = Grown-refl }

  pub Keeps-set_client : (c : Client) → Keeps {E = E} P Q (set_client c)
  unfolding set_client
  Keeps-set_client c = record {
    at = λ w h k. (h, k);
    grows = λ w k. record { events = no_more _; journal = refl; tx = k };
  }

  pub Keeps-set_tx : (r : UploadRecord) → Q r → Keeps {E = E} P Q (set_tx r)
  unfolding set_tx
  Keeps-set_tx r q = record {
    at = λ w h k. (h, q);
    grows = λ w k. record { events = no_more _; journal = refl; tx = q };
  }

module _ {E : Env} {A : Type 0} {P : Query → Type 0} {Q : UploadRecord → Type 0} where
  pub Keeps-pure : (a : A) → Keeps {E = E} P Q (pure a)
  unfolding pure
  Keeps-pure a = record { at = λ w h k. (h, k); grows = Grown-refl }

  pub Keeps-raise : (e : Error) → Keeps {E = E} {A = A} P Q (raise e)
  unfolding raise
  Keeps-raise e = record { at = λ w h k. (h, k); grows = Grown-refl }

  pub Keeps-lift : (r : Result A) → Keeps {E = E} P Q (lift r)
  unfolding lift
  Keeps-lift r = record { at = λ w h k. (h, k); grows = Grown-refl }

  pub Keeps-attempt : (m : M E A) → Keeps P Q m → Keeps P Q (attempt m)
  unfolding attempt
  Keeps-attempt m k = record { at = λ w h q. k.at w h q; grows = λ w q. k.grows w q }

  pub Keeps-if :
      (b : Bool) (m n : M E A)
      → (b ≡ true → Keeps P Q m)
      → (b ≡ false → Keeps P Q n)
      → Keeps P Q (if b then m else n)
  Keeps-if true m n k l = k refl
  Keeps-if false m n k l = l refl

module _ {E : Env} {A B : Type 0} {P : Query → Type 0} {Q : UploadRecord → Type 0} where
  continue-Keeps :
      (r : Result A) (f : A → M E B) → ((a : A) → Keeps P Q (f a)) → Keeps P Q (continue r f)
  continue-Keeps (ok a) f k = record {
    at = λ w h q. (k a).at w h q;
    grows = λ w q. (k a).grows w q;
  }
  continue-Keeps (err e) f k = record { at = λ w h q. (h, q); grows = Grown-refl }

  pub Keeps-bind :
      (m : M E A) (f : A → M E B) → Keeps P Q m → ((a : A) → Keeps P Q (f a)) → Keeps P Q (m >>= f)
  unfolding ◌>>=◌
  Keeps-bind m f k l = record {
    at = λ w h q. let out = k.at w h q in (continue-Keeps (m w).0 f l).at (m w).1 out.0 out.1;
    grows = λ w q.
        let first = k.grows w q in
        Grown-trans first ((continue-Keeps (m w).0 f l).grows (m w).1 first.tx);
  }

  given-Keeps :
      (r : Result A) (f : A → M E B)
      → ((a : A) → r ≡ ok a → Keeps P Q (f a))
      → Keeps P Q (continue r f)
  given-Keeps (ok a) f k = record {
    at = λ w h q. (k a refl).at w h q;
    grows = λ w q. (k a refl).grows w q;
  }
  given-Keeps (err e) f k = record { at = λ w h q. (h, q); grows = Grown-refl }

  -- A step whose results are known to meet `V`.
  pub Keeps-bind_gives :
      (V : A → Type 0) (m : M E A) (f : A → M E B)
      → Keeps P Q m
      → ((w : World E) (a : A) → (m w).0 ≡ ok a → V a)
      → ((a : A) → V a → Keeps P Q (f a))
      → Keeps P Q (m >>= f)
  unfolding ◌>>=◌
  Keeps-bind_gives V m f k v l = record {
    at = λ w h q.
        let out = k.at w h q in
        (given-Keeps (m w).0 f (λ a e. l a (v w a e))).at (m w).1 out.0 out.1;
    grows = λ w q.
        let first = k.grows w q in
        Grown-trans first ((given-Keeps (m w).0 f (λ a e. l a (v w a e))).grows (m w).1 first.tx);
  }

  pub Keeps-on_result :
      (r : Result A) (f : A → M E B) (g : Error → M E B)
      → ((a : A) → Keeps P Q (f a))
      → ((e : Error) → Keeps P Q (g e))
      → Keeps P Q (on_result r f g)
  unfolding on_result
  Keeps-on_result (ok a) f g k l = k a
  Keeps-on_result (err e) f g k l = l e

  pub Keeps-on_option :
      (o : Option A) (m : M E B) (f : A → M E B)
      → Keeps P Q m
      → ((a : A) → o ≡ some a → Keeps P Q (f a))
      → Keeps P Q (on_option o m f)
  unfolding on_option
  Keeps-on_option none m f k l = k
  Keeps-on_option (some a) m f k l = l a refl

module _ {E : Env} {B : Type 0} {P : Query → Type 0} {Q : UploadRecord → Type 0} where
  -- What follows a read of the record may use that it meets `Q`.
  pub Keeps-get_tx :
      (f : UploadRecord → M E B)
      → ((r : UploadRecord) → Q r → Keeps P Q (f r))
      → Keeps P Q (get_tx >>= f)
  unfolding ◌>>=◌
  Keeps-get_tx f k = record {
    at = λ w h q. (k w.tx q).at w h q;
    grows = λ w q. (k w.tx q).grows w q;
  }

module _ {E : Env} {A B : Type 0} {P : Query → Type 0} {Q : UploadRecord → Type 0} where
  -- What follows a result may use that it was one.
  pub Keeps-bind_lift :
      (r : Result A) (f : A → M E B)
      → ((a : A) → r ≡ ok a → Keeps P Q (f a))
      → Keeps P Q (lift r >>= f)
  unfolding ◌>>=◌
  Keeps-bind_lift (ok a) f k = record {
    at = λ w h q. (k a refl).at w h q;
    grows = λ w q. (k a refl).grows w q;
  }
  Keeps-bind_lift (err e) f k = record { at = λ w h q. (h, q); grows = Grown-refl }

abbrev pub AnyRecord : UploadRecord → Type 0
AnyRecord r = Unit

module _ {E : Env} {A : Type 0} {P : Query → Type 0} {Q : UploadRecord → Type 0} where
  -- A transaction begins: from here on its record meets `Q`.
  pub Keeps-begin :
      (r : UploadRecord) (m : M E A) → Q r → Keeps P Q m → Keeps P AnyRecord (set_tx r >> m)
  unfolding ◌>>=◌
  Keeps-begin r m q k = record {
    at = λ w h _. ((k.at (record w { tx = r }) h q).0, tt);
    grows = λ w _.
        let out = k.grows (record w { tx = r }) q in
        record { events = out.events; journal = out.journal; tx = tt };
  }

module _ {E : Env} {P : Query → Type 0} {Q : UploadRecord → Type 0} where
  pub Keeps-when : (b : Bool) (m : M E (Unit {0})) → (b ≡ true → Keeps P Q m) → Keeps P Q (when b m)
  unfolding when
  Keeps-when true m k = k refl
  Keeps-when false m k = Keeps-pure tt

  pub Keeps-guard : (b : Bool) (e : Error) → Keeps {E = E} P Q (guard b e)
  unfolding guard
  Keeps-guard true e = Keeps-pure tt
  Keeps-guard false e = Keeps-raise e

pub ruleset keeps_rules = (
  Keeps-ask, Keeps-get_client, Keeps-get_journaling, Keeps-set_client, Keeps-set_tx, Keeps-pure,
  Keeps-raise, Keeps-lift, Keeps-attempt, Keeps-if, Keeps-bind, Keeps-on_result, Keeps-on_option,
  Keeps-when, Keeps-guard,
)
