-- ===== src/Gateway/Password/Line.antt =====
-- Which files localPassword accepts, and what password it takes from them.
use mathlib.Core.List.{reverse-reverse, reverse-append}
use idrive_unlimited.Base.{
  ==_iff, Bool, Bool-cases, Str, [], ap, arith, contains_any, contains_byte, false, has_prefix,
  if◌then◌else◌, inl, inr, is_empty, length, length-take, ltb, refl, reverse, subst, suc, sym, take,
  trim_prefix, trim_suffix, true, zero, ℕ, ◌++◌, ◌+◌, ◌==◌, ◌||◌, ◌↔◌, ◌∙◌, ◌∷◌, ◌≡◌, ◌≤◌, ◌⊎◌,
}
use idrive_unlimited.Evs.Errors.{Error, err, ok}
use idrive_unlimited.Evs.Gives.{ok_injective}
use idrive_unlimited.Gateway.Password.{
  carriage_return, line_of, line_refused, newline, password_limit, password_line,
}

-- The bytes are the password, at most 4096 bytes in all, and perhaps the end of its line.
pub record IsPasswordLine (bytes p : Str) : Type 0 where
  pub not_empty : is_empty p ≡ false
  pub one_line : contains_any p (carriage_return ++ newline) ≡ false
  pub short : length bytes ≤ password_limit
  pub ending :
      (bytes ≡ p)
      ⊎ ((bytes ≡ p ++ newline)
          ⊎ ((bytes ≡ p ++ carriage_return) ⊎ (bytes ≡ (p ++ carriage_return) ++ newline)))

trim_prefix_one :
    (r : Str) (c : ℕ) → (trim_prefix r (c ∷ []) ≡ r) ⊎ (r ≡ c ∷ trim_prefix r (c ∷ []))
unfolding trim_prefix has_prefix
trim_prefix_one [] c = inl refl
trim_prefix_one (x ∷ xs) c = elim (Bool-cases (x == c)) [
  | inl e ↦ inr (rw e (ap (λ y. y ∷ xs) ((==_iff x c).0 e)))
  | inr e ↦ inl (rw e refl)
]

trim_prefix_head : (r : Str) (c : ℕ) → trim_prefix (c ∷ r) (c ∷ []) ≡ r
unfolding trim_prefix has_prefix
trim_prefix_head r c = rw ((==_iff c c).1 refl) refl

trim_prefix_other : (r : Str) (x c : ℕ) → (x == c) ≡ false → trim_prefix (x ∷ r) (c ∷ []) ≡ x ∷ r
unfolding trim_prefix has_prefix
trim_prefix_other r x c h = rw h refl

trim_suffix_one :
    (s : Str) (c : ℕ) → (trim_suffix s (c ∷ []) ≡ s) ⊎ (s ≡ trim_suffix s (c ∷ []) ++ c ∷ [])
unfolding trim_suffix
trim_suffix_one s c = elim (trim_prefix_one (reverse s) c) [
  | inl e ↦ inl (ap reverse e ∙ reverse-reverse s)
  | inr e ↦ inr (
      sym (reverse-reverse s)
      ∙ ap reverse e
      ∙ reverse-append (c ∷ []) (trim_prefix (reverse s) (c ∷ [])))
]

trim_suffix-append : (p : Str) (c : ℕ) → trim_suffix (p ++ c ∷ []) (c ∷ []) ≡ p
unfolding trim_suffix
trim_suffix-append p c =
    ap (λ r. reverse (trim_prefix r (c ∷ []))) (reverse-append p (c ∷ []))
    ∙ ap reverse (trim_prefix_head (reverse p) c)
    ∙ reverse-reverse p

trim_suffix_other :
    (p : Str) (x c : ℕ) → (x == c) ≡ false → trim_suffix (p ++ x ∷ []) (c ∷ []) ≡ p ++ x ∷ []
unfolding trim_suffix
trim_suffix_other p x c h =
    ap (λ r. reverse (trim_prefix r (c ∷ []))) (reverse-append p (x ∷ []))
    ∙ ap reverse (trim_prefix_other (reverse p) x c h)
    ∙ ap reverse (sym (reverse-append p (x ∷ [])))
    ∙ reverse-reverse (p ++ x ∷ [])

contains_byte-last : (p : Str) (c : ℕ) → contains_byte c (p ++ c ∷ []) ≡ true
unfolding contains_byte
contains_byte-last [] c = ground arith
contains_byte-last (x ∷ p) c = ground (arith, contains_byte-last p c)

trim_suffix_absent : (p : Str) (c : ℕ) → contains_byte c p ≡ false → trim_suffix p (c ∷ []) ≡ p
trim_suffix_absent p c h = elim (trim_suffix_one p c) [
  | inl e ↦ e
  | inr e ↦
      let there = ap (contains_byte c) e ∙ contains_byte-last (trim_suffix p (c ∷ [])) c in
      ground (arith, h, there)
]

no_line_end :
    (p : Str)
    → contains_any p (carriage_return ++ newline) ≡ false
    → (contains_byte 13 p ≡ false) × (contains_byte 10 p ≡ false)
unfolding contains_any contains_byte
no_line_end [] h = (refl, refl)
no_line_end (x ∷ p) h = ground (arith, no_line_end p)

take_whole : (n : ℕ) (s : Str) → length s ≤ n → take n s ≡ s
take_whole zero [] h = refl
take_whole zero (x ∷ s) h = ground arith
take_whole (suc n) [] h = refl
take_whole (suc n) (x ∷ s) h = ap (λ t. x ∷ t) (take_whole n s (omega arith))

if_ok :
    {A : Type 0} (b : Bool) (e : Error) (a p : A)
    → (if b then err e else ok a) ≡ ok p
    → (b ≡ false) × (a ≡ p)
if_ok true e a p h = cc
if_ok false e a p h = (refl, ok_injective a p h)

none_holds : (a b c : Bool) → (a || b || c) ≡ false → (a ≡ false) × (b ≡ false) × (c ≡ false)
none_holds false false false h = (refl, refl, refl)
none_holds true b c h = ground arith
none_holds false true c h = ground arith
none_holds false false true h = ground arith

-- What is taken off the end of a line.
line_of-ending :
    (s : Str)
    → (s ≡ line_of s)
      ⊎ ((s ≡ line_of s ++ newline)
          ⊎ ((s ≡ line_of s ++ carriage_return) ⊎ (s ≡ (line_of s ++ carriage_return) ++ newline)))
unfolding line_of
line_of-ending s = elim (trim_suffix_one s 10) [
  | inl e ↦ elim (trim_suffix_one (trim_suffix s newline) 13) [
    | inl f ↦ inl (sym (f ∙ e))
    | inr f ↦ inr (inr (inl (sym e ∙ f)))
  ]
  | inr e ↦ elim (trim_suffix_one (trim_suffix s newline) 13) [
    | inl f ↦ inr (inl (e ∙ ap (λ t. t ++ newline) (sym f)))
    | inr f ↦ inr (inr (inr (e ∙ ap (λ t. t ++ newline) f)))
  ]
]

accepted-IsPasswordLine : (bytes p : Str) → password_line bytes ≡ ok p → IsPasswordLine bytes p
unfolding password_line line_refused
accepted-IsPasswordLine bytes p h =
    let raw = take (password_limit + 1) bytes in
    let (passes, line) = if_ok (line_refused raw) _ (line_of raw) p h in
    let (fits, full, one) = none_holds _ _ _ passes in
    let few : length bytes ≤ password_limit =
      omega (
        arith,
        length-take (password_limit + 1) bytes,
        ltb_false password_limit (length raw) fits,
      ) in
    let whole : raw ≡ bytes = take_whole (password_limit + 1) bytes (omega (arith, few)) in
    record {
      not_empty = subst (λ q. is_empty q ≡ false) line full;
      one_line = subst (λ q. contains_any q (carriage_return ++ newline) ≡ false) line one;
      short = few;
      ending =
          subst
            (λ q.
              (bytes ≡ q)
              ⊎ ((bytes ≡ q ++ newline)
                  ⊎ ((bytes ≡ q ++ carriage_return) ⊎ (bytes ≡ (q ++ carriage_return) ++ newline))))
            (ap line_of (sym whole) ∙ line) (line_of-ending bytes);
    }
  where
    ltb_false : (a b : ℕ) → ltb a b ≡ false → b ≤ a
    ltb_false a b h = ground arith

line_of-line : (bytes p : Str) → IsPasswordLine bytes p → line_of bytes ≡ p
unfolding line_of
line_of-line bytes p l =
    let (no_return, no_newline) = no_line_end p l.one_line in
    elim l.ending [
      | inl e ↦
          ap (λ s. trim_suffix (trim_suffix s newline) carriage_return) e
          ∙ ap (λ s. trim_suffix s carriage_return) (trim_suffix_absent p 10 no_newline)
          ∙ trim_suffix_absent p 13 no_return
      | inr (inl e) ↦
          ap (λ s. trim_suffix (trim_suffix s newline) carriage_return) e
          ∙ ap (λ s. trim_suffix s carriage_return) (trim_suffix-append p 10)
          ∙ trim_suffix_absent p 13 no_return
      | inr (inr (inl e)) ↦
          ap (λ s. trim_suffix (trim_suffix s newline) carriage_return) e
          ∙ ap (λ s. trim_suffix s carriage_return) (trim_suffix_other p 13 10 refl)
          ∙ trim_suffix-append p 13
      | inr (inr (inr e)) ↦
          ap (λ s. trim_suffix (trim_suffix s newline) carriage_return) e
          ∙ ap (λ s. trim_suffix s carriage_return) (trim_suffix-append (p ++ carriage_return) 10)
          ∙ trim_suffix-append p 13
    ]

IsPasswordLine-accepted : (bytes p : Str) → IsPasswordLine bytes p → password_line bytes ≡ ok p
unfolding password_line line_refused
IsPasswordLine-accepted bytes p l =
    let whole : take (password_limit + 1) bytes ≡ bytes =
      take_whole (password_limit + 1) bytes (omega (arith, l.short)) in
    let line = line_of-line bytes p l in
    let fits : ltb password_limit (length bytes) ≡ false =
      ltb_small password_limit (length bytes) l.short in
    rw (whole, line, fits, l.not_empty, l.one_line) refl
  where
    ltb_small : (a b : ℕ) → b ≤ a → ltb a b ≡ false
    ltb_small a b h = ground arith

-- The bytes of a password file give a password if and only if they are at most 4096, and are that
-- password, which is not empty and has no line feed or carriage return, followed by nothing, a
-- line feed, a carriage return, or a carriage return and a line feed.
pub password_line_lem : (bytes p : Str) → (password_line bytes ≡ ok p) ↔ IsPasswordLine bytes p
password_line_lem bytes p = (accepted-IsPasswordLine bytes p, IsPasswordLine-accepted bytes p)
