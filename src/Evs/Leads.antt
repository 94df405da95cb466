-- ===== src/Evs/Leads.antt =====
-- Rules on what a question has to wait for: which questions may follow which events, and one rule
-- for each way to build an action that obeys.
use idrive_unlimited.Base.{Bool, List, [], false, if◌then◌else◌, refl, subst, true, ◌∙◌, ◌∷◌, ◌≡◌}
use idrive_unlimited.Evs.Errors.{Error, Result, err, ok}
use idrive_unlimited.Evs.Gives.{ok_injective}
use idrive_unlimited.Evs.Keeps.{AnyRecord, Extends, Keeps, no_more, one_more}
use idrive_unlimited.Evs.Monad.{
  Env, M, World, attempt, continue, guard, lift, pure, raise, set_tx, ◌>>=◌, ◌>>◌,
}
use idrive_unlimited.Evs.Types.{Event, Query, UploadRecord}

-- What has to hold of the events so far for a question to be asked.
abbrev pub Rule : Type 1
Rule = List Event → Query → Type 0

abbrev pub Obeyed : Rule → List Event → Type 0
Obeyed C [] = Unit
Obeyed C (e ∷ es) = C es e.question × Obeyed C es

-- A world whose events obey the rule, and whose journal is open or not.
pub record Sound {E : Env} (C : Rule) (open_journal : Bool) (Q : UploadRecord → Type 0)
    (w : World E) : Type 0 where
  pub journal : w.journaling ≡ open_journal
  pub ahead : Obeyed C w.events
  pub tx : Q w.tx

-- From a sound world in which the events meet `S`, an action leads to a sound world, whether or
-- not it fails, and where it succeeds the events meet `T`.
pub record Leads {E : Env} {A : Type 0} (C : Rule) (open_journal : Bool) (Q : UploadRecord → Type 0)
    (S : List Event → Type 0) (m : M E A) (T : A → List Event → Type 0) : Type 0 where
  pub at :
      (w : World E)
      → Sound C open_journal Q w
      → S w.events
      → Sound C open_journal Q (m w).1 × ((a : A) → (m w).0 ≡ ok a → T a (m w).1.events)

abbrev pub AnyEvents : List Event → Type 0
AnyEvents es = Unit

module _ (C : Rule) {P : Query → Type 0} {S : List Event → Type 0}
    (covers : (e : Event) (es : List Event)
      → P e.question
      → S es
      → C es e.question × S (e ∷ es)) where
  grown_ahead :
      {before after : List Event}
      → Extends P before after
      → Obeyed C before
      → S before
      → Obeyed C after × S after
  grown_ahead (no_more es) g s = (g, s)
  grown_ahead (one_more e p x) g s =
      let out = grown_ahead x g s in let new = covers e _ p out.1 in ((new.0, out.0), new.1)

module _ {C : Rule} {P : Query → Type 0} {S : List Event → Type 0}
    (covers : (e : Event) (es : List Event)
      → P e.question
      → S es
      → C es e.question × S (e ∷ es)) where
  -- An action whose questions may follow what was asked before them.
  pub Leads-Keeps :
      {E : Env} {A : Type 0} {open_journal : Bool} {Q : UploadRecord → Type 0} (m : M E A)
      → Keeps P Q m
      → Leads C open_journal Q S m λ _. S
  Leads-Keeps m k = record {
    at = λ w s h.
        let out = k.grows w s.tx in
        let now = grown_ahead C covers out.events s.ahead h in
        (record { journal = out.journal ∙ s.journal; ahead = now.0; tx = out.tx }, λ a _. now.1);
  }

module _ {E : Env} {A B : Type 0} {C : Rule} {open_journal : Bool} {Q : UploadRecord → Type 0}
    {T : A → List Event → Type 0} {U : B → List Event → Type 0} where
  continue-Leads :
      (r : Result A) (f : A → M E B)
      → ((a : A) → Leads C open_journal Q (T a) (f a) U)
      → (w : World E) → Sound C open_journal Q w
      → ((a : A) → r ≡ ok a → T a w.events)
      → Sound C open_journal Q (continue r f w).1
        × ((b : B) → (continue r f w).0 ≡ ok b → U b (continue r f w).1.events)
  continue-Leads (ok a) f l w s t = (l a).at w s (t a refl)
  continue-Leads (err e) f l w s t = (s, λ b h. cc)

  pub Leads-bind :
      {S : List Event → Type 0} (m : M E A) (f : A → M E B)
      → Leads C open_journal Q S m T
      → ((a : A) → Leads C open_journal Q (T a) (f a) U)
      → Leads C open_journal Q S (m >>= f) U
  unfolding ◌>>=◌
  Leads-bind m f k l = record {
    at = λ w s h. let out = k.at w s h in continue-Leads (m w).0 f l (m w).1 out.0 out.1;
  }

module _ {E : Env} {A : Type 0} {C : Rule} {open_journal : Bool} {Q : UploadRecord → Type 0}
    {S : List Event → Type 0} where
  pub Leads-pure : (a : A) → Leads {E = E} C open_journal Q S (pure a) λ _. AnyEvents
  unfolding pure
  Leads-pure a = record { at = λ w s h. (s, λ b e. tt) }

  pub Leads-return :
      {T : A → List Event → Type 0} (a : A)
      → ((es : List Event) → S es → T a es)
      → Leads {E = E} C open_journal Q S (pure a) T
  unfolding pure
  Leads-return {T} a f = record {
    at = λ w s h. (s, λ b e. subst (λ x. T x w.events) (ok_injective a b e) (f w.events h));
  }

  pub Leads-lift :
      (r : Result A) → Leads {E = E} C open_journal Q S (lift r) λ a es. (r ≡ ok a) × S es
  unfolding lift
  Leads-lift r = record { at = λ w s h. (s, λ a e. (e, h)) }

  pub Leads-if :
      {T : A → List Event → Type 0} (b : Bool) (m n : M E A)
      → Leads C open_journal Q S m T
      → Leads C open_journal Q S n T
      → Leads C open_journal Q S (if b then m else n) T
  Leads-if true m n k l = k
  Leads-if false m n k l = l

  pub Leads-post :
      {T U : A → List Event → Type 0} (m : M E A)
      → Leads C open_journal Q S m T
      → ((a : A) (es : List Event) → T a es → U a es)
      → Leads C open_journal Q S m U
  Leads-post m k f = record {
    at = λ w s h. let out = k.at w s h in (out.0, λ a e. f a _ (out.1 a e));
  }

  pub Leads-any :
      {T : A → List Event → Type 0} (m : M E A)
      → Leads C open_journal Q S m T
      → Leads C open_journal Q S m λ _. AnyEvents
  Leads-any m k = record { at = λ w s h. ((k.at w s h).0, λ a e. tt) }

  -- What an action that may fail leaves.
  pub Leads-attempt :
      {T : A → List Event → Type 0} (m : M E A)
      → Leads C open_journal Q S m T
      → Leads C open_journal Q S (attempt m) λ _. AnyEvents
  unfolding attempt
  Leads-attempt m k = record { at = λ w s h. ((k.at w s h).0, λ a e. tt) }

  -- A transaction begins: from here on its record meets `Q`.
  pub Leads-begin :
      {T : A → List Event → Type 0} (r : UploadRecord) (m : M E A)
      → Q r
      → Leads C open_journal Q S m T
      → Leads C open_journal AnyRecord S (set_tx r >> m) T
  unfolding ◌>>=◌
  Leads-begin r m q k = record {
    at = λ w s h.
        let out =
          k.at (record w { tx = r }) (record { journal = s.journal; ahead = s.ahead; tx = q }) h in
        (record { journal = out.0.journal; ahead = out.0.ahead; tx = tt }, out.1);
  }

module _ {E : Env} {A B : Type 0} {C : Rule} {open_journal : Bool} {Q : UploadRecord → Type 0}
    {T : List Event → Type 0} {U : B → List Event → Type 0} where
  continue-given :
      (r : Result A) (f : A → M E B)
      → ((a : A) → r ≡ ok a → Leads C open_journal Q T (f a) U)
      → (w : World E) → Sound C open_journal Q w
      → ((a : A) → r ≡ ok a → T w.events)
      → Sound C open_journal Q (continue r f w).1
        × ((b : B) → (continue r f w).0 ≡ ok b → U b (continue r f w).1.events)
  continue-given (ok a) f l w s t = (l a refl).at w s (t a refl)
  continue-given (err e) f l w s t = (s, λ b h. cc)

  -- A step whose results are known to meet `V`.
  pub Leads-bind_gives :
      {S : List Event → Type 0} (V : A → Type 0) (m : M E A) (f : A → M E B)
      → Leads C open_journal Q S m (λ _. T)
      → ((w : World E) (a : A) → (m w).0 ≡ ok a → V a)
      → ((a : A) → V a → Leads C open_journal Q T (f a) U)
      → Leads C open_journal Q S (m >>= f) U
  unfolding ◌>>=◌
  Leads-bind_gives V m f k v l = record {
    at = λ w s h.
        let out = k.at w s h in continue-given (m w).0 f (λ a e. l a (v w a e)) (m w).1 out.0 out.1;
  }

module _ {E : Env} {C : Rule} {open_journal : Bool} {Q : UploadRecord → Type 0}
    {S : List Event → Type 0} where
  pub Leads-guard :
      (b : Bool) (e : Error)
      → Leads {E = E} C open_journal Q S (guard b e) λ _ es. (b ≡ true) × S es
  unfolding guard pure raise
  Leads-guard true e = record { at = λ w s h. (s, λ a g. (refl, h)) }
  Leads-guard false e = record { at = λ w s h. (s, λ a g. cc) }
