-- ===== src/Webdav/Discard.antt =====
-- Steps of internal/webdav/fs.go and cache.go whose failure removes a temporary file.
use idrive_unlimited.Base.{Bool, List, Str, false, if◌then◌else◌, refl, true, ◌∷◌, ◌≡◌}
use idrive_unlimited.Evs.Errors.{Error, Result, err, ok}
use idrive_unlimited.Evs.Files.{close_file, remove_file}
use idrive_unlimited.Evs.Monad.{
  Env, M, World, ask, attempt, continue, on_result, pure, raise, when, ◌>>=◌, ◌>>◌,
}
use idrive_unlimited.Evs.Types.{Query, on_disk}
use idrive_unlimited.Webdav.Maintenance.{ignoring}

module _ {E : Env} where
  -- A step whose failure closes the temporary file, where it is open, and removes it.
  unfoldable pub or_discard : {A : Type 0} → Bool → Str → M E A → M E A
  or_discard open_still temp m = do
    r ← attempt m
    on_result r pure
        λ e. do when open_still (ignoring (close_file temp)); ignoring (remove_file temp); raise e

-- The last question asked was the removal of a file.
abbrev pub EndsWith : Query → List Query → Type 0
EndsWith q trace = (before : List Query) × (trace ≡ q ∷ before)

module _ {E : Env} {A : Type 0} where
  -- An action that removes the temporary file last where it fails.
  pub record Discards (temp : Str) (m : M E A) : Type 0 where
    pub discards :
        (w : World E) (e : Error)
        → (m w).0 ≡ err e
        → EndsWith (on_disk (remove_file temp)) (m w).1.trace

module _ {E : Env} {A : Type 0} {temp : Str} where
  pub Discards-pure : (a : A) → Discards {E = E} temp (pure a)
  unfolding pure
  Discards-pure a = record { discards = λ w e h. cc }

  pub Discards-attempt : (m : M E A) → Discards {E = E} temp (attempt m)
  unfolding attempt
  Discards-attempt m = record { discards = λ w e h. cc }

  pub Discards-if :
      (b : Bool) (m n : M E A)
      → Discards temp m
      → Discards temp n
      → Discards temp (if b then m else n)
  Discards-if true m n k l = k
  Discards-if false m n k l = l

  discarded :
      (open_still : Bool) (r : Result A) (w : World E) (e : Error)
      → (on_result {E = E} r pure
          (λ e. do
            when open_still (ignoring (close_file temp))
            ignoring (remove_file temp)
            raise e)
          w).0
        ≡ err e
      → EndsWith
          (on_disk (remove_file temp))
          (on_result {E = E} r pure
            (λ e. do
              when open_still (ignoring (close_file temp))
              ignoring (remove_file temp)
              raise e)
            w).1.trace
  unfolding on_result ignoring when ◌>>=◌
  discarded b (ok a) w e h = cc
  discarded true (err f) w e h = (_, refl)
  discarded false (err f) w e h = (_, refl)

  pub Discards-or_discard : (b : Bool) (m : M E A) → Discards temp (or_discard b temp m)
  unfolding or_discard attempt ◌>>=◌
  Discards-or_discard b m = record { discards = λ w e h. discarded b (m w).0 (m w).1 e h }

module _ {E : Env} {A B : Type 0} {temp : Str} where
  pub Discards-bind :
      (m : M E A) (f : A → M E B)
      → Discards temp m
      → ((a : A) → Discards temp (f a))
      → Discards temp (m >>= f)
  unfolding ◌>>=◌
  Discards-bind m f k l = record { discards = λ w e h. goes_on (m w).0 (m w).1 (k.discards w) e h }
    where
      goes_on :
          (r : Result A) (w : World E)
          → ((e : Error) → r ≡ err e → EndsWith (on_disk (remove_file temp)) w.trace)
          → (e : Error) → (continue r f w).0 ≡ err e
          → EndsWith (on_disk (remove_file temp)) (continue r f w).1.trace
      goes_on (ok a) w k e h = (l a).discards w e h
      goes_on (err d) w k e h = k d refl

  pub Discards-on_result :
      (r : Result A) (f : A → M E B) (g : Error → M E B)
      → ((a : A) → Discards temp (f a))
      → ((e : Error) → Discards temp (g e))
      → Discards temp (on_result r f g)
  unfolding on_result
  Discards-on_result (ok a) f g k l = k a
  Discards-on_result (err e) f g k l = l e

module _ {E : Env} {temp : Str} where
  pub Discards-ask : (q : Query) → Discards {E = E} temp (ask q)
  unfolding ask
  Discards-ask q = record { discards = λ w e h. cc }
