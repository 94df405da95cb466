-- ===== src/Auth/Token/Trusted.antt =====
-- A token goes to an IDrive host over HTTPS alone.
use mathlib.Core.List.{reverse-reverse, reverse-append}
use idrive_unlimited.Base.{
  =s_eq, Bool, Bool-cases, Option, Str, [], ap, arith, codes, false, has_prefix_split, has_suffix,
  if◌then◌else◌, inl, inr, is_empty, negate, none, refl, reverse, some, subst, sym, to_lower, true,
  ◌&&◌, ◌++◌, ◌||◌, ◌∙◌, ◌∷◌, ◌≡◌, ◌⊎◌,
}
use idrive_unlimited.Auth.Token.{
  TokenPayload, Url, check_server, idrive_domain, idrive_suffix, is_token_url, parsed, raw_endpoint,
  token_endpoint, validate_token_url,
}
use idrive_unlimited.Evs.Errors.{Error, Result, and_then, err, ok, required}
use idrive_unlimited.Evs.Gives.{ok_injective}

-- HTTPS on idrive.com or on a name below it, on the usual port and without a user.
pub record OnIdrive (u : Url) : Type 0 where
  pub secure : u.scheme ≡ codes "https"
  pub no_user : u.has_user ≡ false
  pub usual_port : (u.port ≡ []) ⊎ (u.port ≡ codes "443")
  pub domain :
      (to_lower u.hostname ≡ idrive_domain)
      ⊎ ((prefix : Str) × (to_lower u.hostname ≡ prefix ++ idrive_suffix))

-- The server of a payload is named by its host alone, and is one of IDrive, if there is one.
abbrev pub ServerTrusted : (Str → Option Url) → Str → Type 0
ServerTrusted parse_url server =
    (server ≡ [])
    ⊎ ((u : Url) × (parse_url (codes "https://" ++ server) ≡ some u)
        × (u.url_authority ≡ server)
        × (u.escaped_path ≡ [])
        × OnIdrive u)

both_true : (a b : Bool) → (a && b) ≡ true → (a ≡ true) × (b ≡ true)
both_true true b h = (refl, h)
both_true false b h = cc

one_true : (a b : Bool) → (a || b) ≡ true → (a ≡ true) ⊎ (b ≡ true)
one_true true b h = inl refl
one_true false b h = inr h

negated : (b : Bool) → negate b ≡ true → b ≡ false
negated true h = cc
negated false h = refl

nothing_in : (s : Str) → is_empty s ≡ true → s ≡ []
unfolding is_empty
nothing_in [] h = refl
nothing_in (x ∷ s) h = cc

has_suffix_split : (s p : Str) → has_suffix s p ≡ true → (prefix : Str) × (s ≡ prefix ++ p)
unfolding has_suffix
has_suffix_split s p h =
    let (rest, e) = has_prefix_split (reverse s) (reverse p) h in
    (
      reverse rest,
      sym (reverse-reverse s)
          ∙ ap reverse e
          ∙ reverse-append (reverse p) rest
          ∙ ap (λ t. reverse rest ++ t) (reverse-reverse p),
    )

is_token_url-OnIdrive : (u : Url) → is_token_url u ≡ true → OnIdrive u
unfolding is_token_url
is_token_url-OnIdrive u h =
    let (first, host) = both_true _ _ h in
    let (second, port) = both_true _ _ first in
    let (https, user) = both_true _ _ second in
    record {
      secure = =s_eq u.scheme (codes "https") https;
      no_user = negated u.has_user user;
      usual_port = elim (one_true _ _ port) [
        | inl e ↦ inl (nothing_in u.port e)
        | inr e ↦ inr (=s_eq u.port (codes "443") e)
      ];
      domain = elim (one_true _ _ host) [
        | inl e ↦ inl (=s_eq (to_lower u.hostname) idrive_domain e)
        | inr e ↦ inr (has_suffix_split (to_lower u.hostname) idrive_suffix e)
      ];
    }

and_then_ok :
    {A B : Type 0} (r : Result A) (f : A → Result B) (b : B)
    → and_then r f ≡ ok b
    → (a : A) × ((r ≡ ok a) × (f a ≡ ok b))
unfolding and_then
and_then_ok (ok a) f b h = (a, (refl, h))
and_then_ok (err e) f b h = cc

required_ok : (b : Bool) (e : Error) (u : Unit {0}) → required b e ≡ ok u → b ≡ true
required_ok true e u h = refl
required_ok false e u h = cc

parsed_ok : (o : Option Url) (e : Error) (u : Url) → parsed o e ≡ ok u → o ≡ some u
parsed_ok none e u h = cc
parsed_ok (some v) e u h = ap some (ok_injective v u h)

validate_token_url-OnIdrive : (u : Url) (x : Unit {0}) → validate_token_url u ≡ ok x → OnIdrive u
unfolding validate_token_url
validate_token_url-OnIdrive u x h = is_token_url-OnIdrive u (required_ok _ _ x h)

if_nonempty :
    {A : Type 0} (b : Bool) (x y : A) (z : A) → b ≡ false → (if b then x else y) ≡ z → y ≡ z
if_nonempty true x y z e h = ground arith
if_nonempty false x y z e h = h

check_server-ServerTrusted :
    (parse_url : Str → Option Url) (server : Str) (x : Unit {0})
    → check_server parse_url server ≡ ok x
    → ServerTrusted parse_url server
unfolding check_server
check_server-ServerTrusted parse_url server x h = elim (Bool-cases (is_empty server)) [
  | inl e ↦ inl (nothing_in server e)
  | inr e ↦
      let step = and_then_ok _ _ x (if_nonempty (is_empty server) _ _ _ e h) in
      let named = and_then_ok _ _ x step.1.1 in
      let (same, bare) = both_true _ _ (required_ok _ _ named.0 named.1.0) in
      inr (
        step.0,
        parsed_ok _ _ step.0 step.1.0,
        =s_eq _ server same,
        nothing_in _ bare,
        validate_token_url-OnIdrive step.0 x named.1.1,
      )
]

-- Whatever url.Parse gives, a URL that tokenEndpoint accepts is the payload's URL or, where that is
-- empty, its redirect URL, uses HTTPS on idrive.com or a name that ends in .idrive.com, without a
-- user and on port 443 or none; and the server that the payload names, if it names one, is such a
-- host and nothing else.
pub token_endpoint-OnIdrive :
    (parse_url : Str → Option Url) (p : TokenPayload) (u : Url)
    → token_endpoint parse_url p ≡ ok u
    → (parse_url (raw_endpoint p) ≡ some u) × OnIdrive u × ServerTrusted parse_url p.server_address
unfolding token_endpoint
token_endpoint-OnIdrive parse_url p u h =
    let present = and_then_ok _ _ u h in
    let read = and_then_ok _ _ u present.1.1 in
    let valid = and_then_ok _ _ u read.1.1 in
    let served = and_then_ok _ _ u valid.1.1 in
    let same : read.0 ≡ u = ok_injective read.0 u served.1.1 in
    (
      parsed_ok _ _ read.0 read.1.0 ∙ ap some same,
      subst OnIdrive same (validate_token_url-OnIdrive read.0 valid.0 valid.1.0),
      check_server-ServerTrusted parse_url p.server_address served.0 served.1.0,
    )
