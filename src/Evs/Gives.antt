-- ===== src/Evs/Gives.antt =====
-- Properties of every value that an action gives, with one rule for each way to build an action.
use idrive_unlimited.Base.{Bool, Option, ap, false, if◌then◌else◌, none, some, subst, true, ◌≡◌}
use idrive_unlimited.Evs.Errors.{Error, Result, err, ok}
use idrive_unlimited.Evs.Monad.{Env, M, World, on_option, on_result, pure, raise, ◌>>=◌}
use idrive_unlimited.Evs.Runs.{bind_ok}

abbrev value_or : {A : Type 0} → A → Result A → A
value_or a (ok b) = b
value_or a (err e) = a

pub ok_injective : {A : Type 0} (a b : A) → ok a ≡ ok b → a ≡ b
ok_injective a b h = ap (value_or a) h

module _ {E : Env} {A : Type 0} where
  -- Every value that an action gives has a property.
  pub record Gives (Q : A → Type 0) (m : M E A) : Type 0 where
    pub given : (w : World E) (a : A) → (m w).0 ≡ ok a → Q a

module _ {E : Env} {A : Type 0} {Q : A → Type 0} where
  pub Gives-pure : (a : A) → Q a → Gives {E = E} Q (pure a)
  unfolding pure
  Gives-pure a q = record { given = λ w b h. subst Q (ok_injective a b h) q }

  pub Gives-raise : (e : Error) → Gives {E = E} Q (raise e)
  unfolding raise
  Gives-raise e = record { given = λ w b h. cc }

  pub Gives-if : (b : Bool) (m n : M E A) → Gives Q m → Gives Q n → Gives Q (if b then m else n)
  Gives-if true m n k l = k
  Gives-if false m n k l = l

module _ {E : Env} {A B : Type 0} {Q : B → Type 0} where
  pub Gives-bind : (m : M E A) (f : A → M E B) → ((a : A) → Gives Q (f a)) → Gives Q (m >>= f)
  Gives-bind m f k = record {
    given = λ w b h. let r = bind_ok m f w b h in (k r.0).given (m w).1 b r.1.1;
  }

  pub Gives-on_result :
      (r : Result A) (f : A → M E B) (g : Error → M E B)
      → ((a : A) → Gives Q (f a))
      → ((e : Error) → Gives Q (g e))
      → Gives Q (on_result r f g)
  unfolding on_result
  Gives-on_result (ok a) f g k l = k a
  Gives-on_result (err e) f g k l = l e

  pub Gives-on_option :
      (o : Option A) (m : M E B) (f : A → M E B)
      → Gives Q m
      → ((a : A) → Gives Q (f a))
      → Gives Q (on_option o m f)
  unfolding on_option
  Gives-on_option none m f k l = k
  Gives-on_option (some a) m f k l = l a
