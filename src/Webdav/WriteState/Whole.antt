-- ===== src/Webdav/WriteState/Whole.antt =====
-- When the body of a request counts as whole.
use idrive_unlimited.Base.{
  Bool, List, Option, [], ap, arith, false, negate, negsuc, none, pos, refl, some, true, ℕ, ℤ, ◌%◌,
  ◌&&◌, ◌+◌, ◌<◌, ◌==◌, ◌^◌, ◌||◌, ◌∙◌, ◌∷◌, ◌≡◌,
}
use idrive_unlimited.Evs.Api.{received}
use idrive_unlimited.Evs.Errors.{Error}
use idrive_unlimited.Evs.Journal.{is_ok}
use idrive_unlimited.Webdav.WriteState.{
  ReadOutcome, WriteState, complete, end_of_file, failure, new_state, no_error, read_all, read_body,
}

-- The number of bytes that the Reads gave.
abbrev pub total : List ReadOutcome → ℕ
total [] = 0
total ((n, e) ∷ reads) = n + total reads

abbrev pub reached_end : List ReadOutcome → Bool
reached_end [] = false
reached_end ((n, no_error) ∷ reads) = reached_end reads
reached_end ((n, end_of_file) ∷ reads) = true
reached_end ((n, failure e) ∷ reads) = reached_end reads

abbrev pub no_failure : List ReadOutcome → Bool
no_failure [] = true
no_failure ((n, no_error) ∷ reads) = no_failure reads
no_failure ((n, end_of_file) ∷ reads) = no_failure reads
no_failure ((n, failure e) ∷ reads) = false

-- Whether a body of the stated length has come whole.
abbrev pub fits : ℤ → ℕ → Bool
fits (pos n) received = received == n
fits (negsuc n) received = true

abbrev state : Bool → ℤ → ℕ → Bool → Option Error → WriteState
state p l r e f = record { put = p; body_length = l; received = r; eof = e; failed = f }

broken :
    (reads : List ReadOutcome) (p : Bool) (l : ℤ) (r : ℕ) (e : Bool) (f : Error)
    → is_ok (complete (read_all reads (some (state p l r e (some f))))) ≡ false
unfolding complete read_all read_body
broken [] p l r e f = refl
broken ((n, no_error) ∷ reads) p l r e f = broken reads p l _ _ f
broken ((n, end_of_file) ∷ reads) p l r e f = broken reads p l _ _ f
broken ((n, failure g) ∷ reads) p l r e f = broken reads p l _ _ _

-- When a body counts as whole, from a state without a failure on.
abbrev accepts : Bool → ℤ → ℕ → Bool → List ReadOutcome → Bool
accepts p l r e reads =
    no_failure reads && (negate p || ((e || reached_end reads) && fits l (r + total reads)))

no_more :
    (p : Bool) (l : ℤ) (r : ℕ) (e : Bool)
    → is_ok (complete (some (state p l r e none))) ≡ accepts p l r e []
unfolding complete
no_more false l r e = refl
no_more true l r false = refl
no_more true (pos n) r true = ground arith
no_more true (negsuc n) r true = refl

-- One Read that does not fail moves its bytes to those received.
next :
    (n r : ℕ) (p : Bool) (l : ℤ) (e : Bool) (reads : List ReadOutcome)
    → r + (n + total reads) < 2 ^ 64
    → accepts p l ((r + n) % 2 ^ 64) e reads ≡ (
        no_failure reads
        && (negate p || ((e || reached_end reads) && fits l (r + (n + total reads)))))
next n r p l e reads h =
    ap (λ t. no_failure reads && (negate p || ((e || reached_end reads) && fits l t))) (omega arith)

whole :
    (reads : List ReadOutcome) (p : Bool) (l : ℤ) (r : ℕ) (e : Bool)
    → r + total reads < 2 ^ 64
    → is_ok (complete (read_all reads (some (state p l r e none)))) ≡ accepts p l r e reads
unfolding read_all read_body
whole [] p l r e h = no_more p l r e
whole ((n, no_error) ∷ reads) p l r true h =
    whole reads p l ((r + n) % 2 ^ 64) true (omega arith) ∙ next n r p l true reads h
whole ((n, no_error) ∷ reads) p l r false h =
    whole reads p l ((r + n) % 2 ^ 64) false (omega arith) ∙ next n r p l false reads h
whole ((n, end_of_file) ∷ reads) p l r true h =
    whole reads p l ((r + n) % 2 ^ 64) true (omega arith) ∙ next n r p l true reads h
whole ((n, end_of_file) ∷ reads) p l r false h =
    whole reads p l ((r + n) % 2 ^ 64) true (omega arith) ∙ next n r p l true reads h
whole ((n, failure f) ∷ reads) p l r e h = broken reads p l _ _ f

-- After all Reads of a request, in order, of less than 2 ^ 64 bytes, the Close of the file may
-- commit if and only if no Read failed and, for a PUT, one of them reached the end of the body and
-- the bytes are as many as the request stated, if it did.
pub complete-read_all :
    (put : Bool) (body_length : ℤ) (reads : List ReadOutcome)
    → total reads < 2 ^ 64
    → is_ok (complete (read_all reads (some (new_state put body_length))))
      ≡ (no_failure reads && (negate put || (reached_end reads && fits body_length (total reads))))
unfolding new_state
complete-read_all put body_length reads h =
    whole reads put body_length 0 false (omega arith)
    ∙ ap (λ t. no_failure reads && (negate put || (reached_end reads && fits body_length t)))
        (omega arith)
