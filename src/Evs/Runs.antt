-- ===== src/Evs/Runs.antt =====
-- What the success of a composed action tells of its parts.
use idrive_unlimited.Base.{Bool, ap, arith, false, refl, true, ◌≡◌}
use idrive_unlimited.Evs.Errors.{Error, Result, err, ok}
use idrive_unlimited.Evs.Monad.{Env, M, World, continue, guard, lift, pure, raise, ◌>>=◌, ◌>>◌}

module _ {E : Env} {A B : Type 0} where
  continue_ok :
      (r : Result A) (f : A → M E B) (w : World E) (b : B)
      → (continue r f w).0 ≡ ok b
      → (a : A) × ((r ≡ ok a) × ((f a w).0 ≡ ok b))
  continue_ok (ok a) f w b h = (a, (refl, h))
  continue_ok (err e) f w b h = cc

  pub bind_ok :
      (m : M E A) (f : A → M E B) (w : World E) (b : B)
      → ((m >>= f) w).0 ≡ ok b
      → (a : A) × (((m w).0 ≡ ok a) × ((f a (m w).1).0 ≡ ok b))
  unfolding ◌>>=◌
  bind_ok m f w b h = continue_ok (m w).0 f (m w).1 b h

module _ {E : Env} {B : Type 0} where
  pub guard_ok :
      (c : Bool) (e : Error) (m : M E B) (w : World E) (b : B)
      → ((guard c e >> m) w).0 ≡ ok b
      → (c ≡ true) × ((m w).0 ≡ ok b)
  unfolding guard ◌>>=◌
  guard_ok true e m w b h = (refl, h)
  guard_ok false e m w b h = cc

  pub lift_ok :
      {A : Type 0} (r : Result A) (f : A → M E B) (w : World E) (b : B)
      → ((lift r >>= f) w).0 ≡ ok b
      → (a : A) × ((r ≡ ok a) × ((f a w).0 ≡ ok b))
  unfolding ◌>>=◌
  lift_ok r f w b h = continue_ok r f w b h

module _ {E : Env} where
  pub guard_holds : (c : Bool) (e : Error) (w : World E) → (guard c e w).0 ≡ ok tt → c ≡ true
  unfolding guard pure raise
  guard_holds true e w h = refl
  guard_holds false e w h = cc

module _ {E : Env} {A B : Type 0} where
  pub bind_runs :
      (m : M E A) (f : A → M E B) (w : World E) (a : A) → (m w).0 ≡ ok a → (m >>= f) w ≡ f a (m w).1
  unfolding ◌>>=◌
  bind_runs m f w a h = ap (λ r. continue r f (m w).1) h

module _ {E : Env} {B : Type 0} where
  pub guard_runs :
      (c : Bool) (e : Error) (m : M E B) (w : World E) → c ≡ true → (guard c e >> m) w ≡ m w
  unfolding guard ◌>>=◌
  guard_runs true e m w h = refl
  guard_runs false e m w h = ground arith

module _ {E : Env} where
  pub guard_passes : (c : Bool) (e : Error) (w : World E) → c ≡ true → (guard c e w).0 ≡ ok tt
  unfolding guard pure
  guard_passes true e w h = refl
  guard_passes false e w h = ground arith
