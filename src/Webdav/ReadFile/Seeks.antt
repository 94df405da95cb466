-- ===== src/Webdav/ReadFile/Seeks.antt =====
-- Seek of internal/webdav/fs.go against positions that are numbers without a bound.
use idrive_unlimited.Base.{
  All, Bool, Bool-cases, List, Option, [], ap, arith, false, if◌then◌else◌, inl, inr, leb, leb→le,
  ltb, ltb→lt, max_int64, negsuc, none, pos, refl, some, true, ℕ, ℤ, ◌%◌, ◌+◌, ◌-◌, ◌<◌, ◌^◌, ◌∙◌,
  ◌∷◌, ◌≡◌, ◌≤◌,
}
use idrive_unlimited.Evs.Errors.{err, invalid, ok, sentinel}
use idrive_unlimited.Webdav.ReadFile.{
  ReadFile, SeekResult, Whence, base_of, from_current, from_end, from_start, moved_to, other_whence,
  residue, seek, seek_based,
}

-- The exact sum, if it is a position of a file: neither negative nor above 2 ^ 63 - 1.
abbrev pub exact_sum : ℕ → ℤ → Option ℕ
exact_sum base (pos n) = if leb (base + n) max_int64 then some (base + n) else none
exact_sum base (negsuc n) = if ltb n base then some (base - (n + 1)) else none

abbrev pub FitsInt64 : ℤ → Type 0
FitsInt64 (pos n) = n ≤ max_int64
FitsInt64 (negsuc n) = n ≤ max_int64

wrapped_pos :
    (base n : ℕ) → base ≤ max_int64 → n ≤ max_int64 → (base + n % 2 ^ 64) % 2 ^ 64 ≡ base + n
wrapped_pos base n h k = omega (arith, h, k)

wrapped_above :
    (base n : ℕ)
    → base ≤ max_int64
    → n ≤ max_int64
    → n < base
    → (base + (2 ^ 64 - 1 - n % 2 ^ 64)) % 2 ^ 64 ≡ base - (n + 1)
wrapped_above base n h k l = omega (arith, h, k, l)

wrapped_below :
    (base n : ℕ)
    → base ≤ max_int64
    → n ≤ max_int64
    → base ≤ n
    → (base + (2 ^ 64 - 1 - n % 2 ^ 64)) % 2 ^ 64 ≡ base + (2 ^ 64 - 1 - n)
wrapped_below base n h k l = omega (arith, h, k, l)

-- What a seek to an exact position gives.
abbrev pub outcome : ReadFile → Option ℕ → SeekResult × ReadFile
outcome f none = (err (sentinel invalid), f)
outcome f (some q) = (ok q, record f { pending = q })

moved_pos :
    (f : ReadFile) (s : ℕ) → moved_to f s ≡ outcome f (if leb s max_int64 then some s else none)
moved_pos f s = elim (Bool-cases (leb s max_int64)) [
  | inl l ↦ let m : leb (2 ^ 63) s ≡ false = ground (arith, l) in rw (l) (rw (m) refl)
  | inr l ↦ let m : leb (2 ^ 63) s ≡ true = ground (arith, l) in rw (l) (rw (m) refl)
]

moved-exact_sum :
    (f : ReadFile) (base : ℕ) (off : ℤ)
    → base ≤ max_int64
    → FitsInt64 off
    → moved_to f ((base + residue off) % 2 ^ 64) ≡ outcome f (exact_sum base off)
moved-exact_sum f base (pos n) h k =
    ap (moved_to f) (wrapped_pos base n h k) ∙ moved_pos f (base + n)
moved-exact_sum f base (negsuc n) h k = elim (Bool-cases (ltb n base)) [
  | inl l ↦
      let m : leb (2 ^ 63) (base - (n + 1)) ≡ false = ground (arith, h) in
      ap (moved_to f) (wrapped_above base n h k (ltb→lt n base l)) ∙ rw (l) (rw (m) refl)
  | inr l ↦
      let m : leb (2 ^ 63) (base + (2 ^ 64 - 1 - n)) ≡ true = ground (arith, h, k) in
      ap (moved_to f) (wrapped_below base n h k (ground (arith, l))) ∙ rw (l) (rw (m) refl)
]

-- A file of a given size, whose position is a number: what each seek gives, and the position at
-- the end. A seek that is refused leaves the position.
abbrev pub exact_base : Whence → ℕ → ℕ → Option ℕ
exact_base from_start size p = some 0
exact_base from_current size p = some p
exact_base from_end size p = some size
exact_base other_whence size p = none

abbrev pub exact_target : Option ℕ → ℤ → Option ℕ
exact_target none off = none
exact_target (some base) off = exact_sum base off

abbrev pub position_after : Option ℕ → ℕ → ℕ
position_after none p = p
position_after (some q) p = q

abbrev pub with_first : Option ℕ → List (Option ℕ) × ℕ → List (Option ℕ) × ℕ
with_first q rest = (q ∷ rest.0, rest.1)

abbrev pub exact_seeks : List (ℤ × Whence) → ℕ → ℕ → List (Option ℕ) × ℕ
exact_seeks [] size p = ([], p)
exact_seeks ((off, whence) ∷ moves) size p =
    let q = exact_target (exact_base whence size p) off in
    with_first q (exact_seeks moves size (position_after q p))

abbrev pub position_of : SeekResult → Option ℕ
position_of (ok q) = some q
position_of (err e) = none

-- The same for a run of Seek.
unfoldable pub seek_all : List (ℤ × Whence) → ReadFile → List (Option ℕ) × ℕ
seek_all [] f = ([], f.pending)
seek_all ((off, whence) ∷ moves) f =
    let moved = seek f off whence in with_first (position_of moved.0) (seek_all moves moved.1)

if_false : {A : Type 0} (b : Bool) (x y : A) → b ≡ false → (if b then x else y) ≡ y
if_false true x y h = ground arith
if_false false x y h = refl

base_fits :
    (whence : Whence) (f : ReadFile)
    → f.size ≤ max_int64
    → f.pending ≤ max_int64
    → (off : ℤ) → FitsInt64 off
    → seek_based f off (base_of whence f)
      ≡ outcome f (exact_target (exact_base whence f.size f.pending) off)
base_fits from_start f h k off o = moved-exact_sum f 0 off (omega arith) o
base_fits from_current f h k off o = moved-exact_sum f f.pending off k o
base_fits from_end f h k off o = moved-exact_sum f f.size off h o
base_fits other_whence f h k off o = refl

seek-outcome :
    (f : ReadFile) (off : ℤ) (whence : Whence)
    → f.closed ≡ false
    → f.size ≤ max_int64
    → f.pending ≤ max_int64
    → FitsInt64 off
    → seek f off whence ≡ outcome f (exact_target (exact_base whence f.size f.pending) off)
unfolding seek
seek-outcome f off whence c h k o = if_false f.closed _ _ c ∙ base_fits whence f h k off o

exact_sum_fits :
    (base : ℕ) (off : ℤ) (p : ℕ)
    → base ≤ max_int64
    → p ≤ max_int64
    → position_after (exact_sum base off) p ≤ max_int64
exact_sum_fits base (pos n) p h k = elim (Bool-cases (leb (base + n) max_int64)) [
  | inl l ↦ rw (l) (leb→le _ _ l)
  | inr l ↦ rw (l) k
]
exact_sum_fits base (negsuc n) p h k = elim (Bool-cases (ltb n base)) [
  | inl l ↦ rw (l) (omega (arith, h))
  | inr l ↦ rw (l) k
]

target_fits :
    (whence : Whence) (size p : ℕ) (off : ℤ)
    → size ≤ max_int64
    → p ≤ max_int64
    → position_after (exact_target (exact_base whence size p) off) p ≤ max_int64
target_fits from_start size p off h k = exact_sum_fits 0 off p (omega arith) k
target_fits from_current size p off h k = exact_sum_fits p off p k k
target_fits from_end size p off h k = exact_sum_fits size off p h k
target_fits other_whence size p off h k = k

-- Before its local copy is opened, a file that is read answers every sequence of seeks as a file of
-- its size whose position is an exact number does, and comes to the same position, for sizes,
-- positions and offsets that are int64 values.
pub seek_all-exact_seeks :
    (moves : List (ℤ × Whence)) (f : ReadFile)
    → f.closed ≡ false
    → f.size ≤ max_int64
    → f.pending ≤ max_int64
    → All (λ m. FitsInt64 m.0) moves
    → seek_all moves f ≡ exact_seeks moves f.size f.pending
unfolding seek_all
seek_all-exact_seeks [] f c h k o = refl
seek_all-exact_seeks ((off, whence) ∷ moves) f c h k o =
    go (exact_target (exact_base whence f.size f.pending) off) (seek f off whence)
      (seek-outcome f off whence c h k o.0)
      (seek_all-exact_seeks moves
        (record f {
          pending =
              position_after (exact_target (exact_base whence f.size f.pending) off) f.pending;
        })
        c h (target_fits whence f.size f.pending off h k) o.1)
  where
    go :
        (q : Option ℕ) (moved : SeekResult × ReadFile)
        → moved ≡ outcome f q
        → seek_all moves (record f { pending = position_after q f.pending })
          ≡ exact_seeks moves f.size (position_after q f.pending)
        → with_first (position_of moved.0) (seek_all moves moved.1)
          ≡ with_first q (exact_seeks moves f.size (position_after q f.pending))
    go none moved e l =
        ap (λ m. with_first (position_of m.0) (seek_all moves m.1)) e ∙ ap (with_first none) l
    go (some q) moved e l =
        ap (λ m. with_first (position_of m.0) (seek_all moves m.1)) e ∙ ap (with_first (some q)) l
