-- ===== src/Webdav/Serve/PassedOn.antt =====
-- What holds of every copy and move that NewHandler passes on.
use idrive_unlimited.Base.{
  =s_eq, Bool, Bool-cases, Option, Option-cases, Str, [], ap, arith, codes, exceeds, false,
  if◌then◌else◌, inl, inr, is_empty, negate, none, refl, some, subst, sym, true, ℕ, ◌&&◌, ◌=s◌,
  ◌||◌, ◌∙◌, ◌∷◌, ◌≡◌, ◌⊎◌,
}
use idrive_unlimited.Evs.Errors.{Result, err, ok}
use idrive_unlimited.Evs.Gives.{ok_injective}
use idrive_unlimited.Evs.Journal.{recover_pending}
use idrive_unlimited.Evs.Monad.{Env, M, World, attempt, on_option, pure, ◌>>=◌}
use idrive_unlimited.Evs.Runs.{bind_ok}
use idrive_unlimited.Evs.Transfer.Chunks.{asked}
use idrive_unlimited.Evs.Types.{Node}
use idrive_unlimited.Path.{clean_path, root}
use idrive_unlimited.Webdav.Admission.{read_only_method}
use idrive_unlimited.Webdav.FileSystem.{FileSystem}
use idrive_unlimited.Webdav.Paths.{remote_path, rooted_remote}
use idrive_unlimited.Webdav.Serve.{
  ParsedUrl, Passed, Request, Served, after_recovery, answered, body_limit, check_conditions,
  check_destination, check_itself, check_length, check_recovery, is_copy, is_move, lies_below,
  on_this_host, or_check, overwrite_passed, passed_on, passed_request, recover_before, refusal,
  refuse_if, refused, safe_destination, safe_move_version, serve,
}

-- The request is a MOVE, the client asked for the safe protocol, and the destination is a path on this host.
pub record Negotiated (parse_url : Str → Option ParsedUrl) (r : Request) (p : Passed) : Type 0 where
  is_a_move : r.method ≡ codes "MOVE"
  agreed : r.safe_move ≡ safe_move_version
  target : ParsedUrl
  parsed : parse_url r.destination ≡ some target
  here : (target.url_host ≡ []) ⊎ (target.url_host ≡ r.host)
  moves : p.move_destination ≡ some (clean_path target.decoded_path)

-- The destination lies below the source, for a root that is not "/".
abbrev pub inside_itself : Str → Request → Option ParsedUrl → Bool
inside_itself top r none = false
inside_itself top r (some u) =
    negate (is_empty u.decoded_path)
    && lies_below (rooted_remote top u.decoded_path) (rooted_remote top r.url_path)

is_empty_nil : (s : Str) → is_empty s ≡ true → s ≡ []
unfolding is_empty
is_empty_nil [] h = refl
is_empty_nil (x ∷ xs) h = cc

module _ {E : Env} where
  second_check :
      (status : Option ℕ) (n : M E (Option ℕ)) (w : World E)
      → (on_option status n (λ code. pure (some code)) w).0 ≡ ok none
      → (status ≡ none) × ((n w).0 ≡ ok none)
  unfolding on_option pure
  second_check none n w h = (refl, h)
  second_check (some code) n w h = cc

  or_check-none :
      (m n : M E (Option ℕ)) (w : World E)
      → (or_check m n w).0 ≡ ok none
      → ((m w).0 ≡ ok none) × ((n (m w).1).0 ≡ ok none)
  unfolding or_check
  or_check-none m n w h =
      let out = bind_ok m _ w none h in
      let (nothing, passed) = second_check out.0 n (m w).1 out.1.1 in
      (out.1.0 ∙ ap ok nothing, passed)

  rooted :
      (top name : Str)
      → (top =s root) ≡ false
      → remote_path {E = E} top name ≡ pure (rooted_remote top name)
  unfolding remote_path
  rooted top name h = rw h refl

refuses_inside :
    (nowhere below : Bool)
    → (if nowhere then none else refuse_if below 403) ≡ none
    → (negate nowhere && below) ≡ false
refuses_inside true below h = refl
refuses_inside false true h = cc
refuses_inside false false h = refl

recovered_from : (outcome : Result (Unit {0})) → after_recovery outcome ≡ none → outcome ≡ ok tt
recovered_from (ok _) h = refl
recovered_from (err e) h = cc

if_false : {A : Type 0} (b : Bool) (x y : A) → b ≡ false → (if b then x else y) ≡ y
if_false true x y h = ground arith
if_false false x y h = refl

if_true : {A : Type 0} (b : Bool) (x y : A) → b ≡ true → (if b then x else y) ≡ x
if_true true x y h = refl
if_true false x y h = ground arith

and_right : (a b : Bool) → (a && b) ≡ true → b ≡ true
and_right true b h = h
and_right false b h = cc

and_left : (a b : Bool) → (a && b) ≡ true → a ≡ true
and_left true b h = refl
and_left false b h = cc

or_move : (a b : Bool) → (a || b) ≡ true → (a || (b && true)) ≡ true
or_move true b h = refl
or_move false true h = refl
or_move false false h = h

module _ {E : Env} (f : FileSystem) (r : Request) where
  check_destination-runs :
      (u : ParsedUrl) (w : World E)
      → (f.top =s root) ≡ false
      → (check_destination f r (some u) w).0
        ≡ ok (
            if is_empty u.decoded_path
            then none
            else refuse_if
                (lies_below (rooted_remote f.top u.decoded_path) (rooted_remote f.top r.url_path))
                403)
  unfolding check_destination pure ◌>>=◌
  check_destination-runs u w h = elim (Bool-cases (is_empty u.decoded_path)) [
    | inl e ↦ rw e refl
    | inr e ↦ rw (e, rooted {E = E} f.top r.url_path h, rooted {E = E} f.top u.decoded_path h) refl
  ]

  check_destination-inside :
      (u : Option ParsedUrl) (w : World E)
      → (f.top =s root) ≡ false
      → (check_destination f r u w).0 ≡ ok none
      → inside_itself f.top r u ≡ false
  check_destination-inside none w h e = refl
  check_destination-inside (some u) w h e =
      refuses_inside _ _ (ok_injective _ _ (sym (check_destination-runs u w h) ∙ e))

  check_recovery-recovers :
      (w : World E)
      → read_only_method r.method ≡ false
      → (check_recovery f r w).0 ≡ ok none
      → (n : ℕ) × ((recover_pending w).0 ≡ ok n)
  unfolding check_recovery attempt recover_before pure
  check_recovery-recovers w h e =
      let changing = if_false {A = M E (Option ℕ)} (read_only_method r.method) _ _ h in
      let out =
        bind_ok (attempt (recover_before f)) _ w none (ap (λ m. (m w).0) (sym changing) ∙ e) in
      let went = ok_injective _ _ out.1.0 ∙ recovered_from out.0 (ok_injective _ _ out.1.1) in
      let recovery = bind_ok recover_pending _ w tt went in (recovery.0, recovery.1.0)

if_some :
    {A : Type 0} (b : Bool) (o : Option A) (a : A)
    → (if b then o else none) ≡ some a
    → (b ≡ true) × (o ≡ some a)
if_some true o a h = (refl, h)
if_some false o a h = cc

module _ (parse_url : Str → Option ParsedUrl) (r : Request) (p : Passed) where
  host_of :
      (here : Bool) (u : ParsedUrl)
      → is_empty u.url_host ≡ here
      → (here || u.url_host =s r.host) ≡ true
      → (u.url_host ≡ []) ⊎ (u.url_host ≡ r.host)
  host_of true u e h = inl (is_empty_nil u.url_host e)
  host_of false u e h = inr (=s_eq u.url_host r.host h)

  on_this_host-Negotiated :
      (o : Option ParsedUrl) (d : Str)
      → parse_url r.destination ≡ o
      → r.method ≡ codes "MOVE"
      → r.safe_move ≡ safe_move_version
      → on_this_host r o ≡ some d
      → p.move_destination ≡ some d
      → Negotiated parse_url r p
  on_this_host-Negotiated none d e k a h m = cc
  on_this_host-Negotiated (some u) d e k a h m =
      let (here, moved) = if_some _ _ d h in
      record {
        is_a_move = k;
        agreed = a;
        target = u;
        parsed = e;
        here = host_of (is_empty u.url_host) u refl (and_right _ _ here);
        moves = m ∙ sym moved;
      }

  safe_destination-Negotiated :
      (d : Str)
      → safe_destination parse_url r ≡ some d
      → p.move_destination ≡ some d
      → Negotiated parse_url r p
  unfolding safe_destination is_move
  safe_destination-Negotiated d h m =
      let (asked, there) = if_some _ _ d h in
      on_this_host-Negotiated (parse_url r.destination) d refl
        (=s_eq _ _ (and_left _ _ (and_left _ _ asked)))
        (=s_eq _ _ (and_right _ _ (and_left _ _ asked))) there m

  safe_or_refusing :
      (is_copy r || is_move r) ≡ true
      → p.move_destination ≡ safe_destination parse_url r
      → p.overwrite ≡ overwrite_passed r (safe_destination parse_url r)
      → (p.overwrite ≡ codes "F") ⊎ Negotiated parse_url r p
  unfolding overwrite_passed
  safe_or_refusing k m o = elim (Option-cases (safe_destination parse_url r)) [
    | inl e ↦ inl (o ∙ refuses e)
    | inr (d, e) ↦ inr (safe_destination-Negotiated d e (m ∙ e))
  ]
    where
      refuses :
          safe_destination parse_url r ≡ none
          → overwrite_passed r (safe_destination parse_url r) ≡ codes "F"
      refuses e = rw e (if_true _ _ _ (or_move (is_copy r) (is_move r) k))

-- A copy or a move as NewHandler passes it on.
pub record Careful {E : Env} (parse_url : Str → Option ParsedUrl) (f : FileSystem) (r : Request)
    (w : World E) (p : Passed) : Type 0 where
  short : exceeds r.content_length (body_limit r) ≡ false
  recovered : (n : ℕ) × ((recover_pending w).0 ≡ ok n)
  outside : inside_itself f.top r (parse_url r.destination) ≡ false
  keeps_target : (p.overwrite ≡ codes "F") ⊎ Negotiated parse_url r p

abbrev passed_or : Passed → Served → Passed
passed_or q (refused code) = q
passed_or q (passed_on p) = p

answered_passed :
    (q p : Passed) (status : Option ℕ) → answered q status ≡ passed_on p → (status ≡ none) × (q ≡ p)
answered_passed q p none h = (refl, ap (passed_or q) h)
answered_passed q p (some code) h = cc

refuse_if-none : (b : Bool) (code : ℕ) → refuse_if b code ≡ none → b ≡ false
refuse_if-none true code h = cc
refuse_if-none false code h = refl

writes : (m : Str) → (m =s codes "COPY" || m =s codes "MOVE") ≡ true → read_only_method m ≡ false
unfolding read_only_method ◌=s◌
writes m h = elim (Bool-cases (m =s codes "COPY")) [
  | inl e ↦ subst (λ x. read_only_method x ≡ false) (sym (=s_eq m (codes "COPY") e)) refl
  | inr e ↦
      subst (λ x. read_only_method x ≡ false) (sym (=s_eq m (codes "MOVE") (or_second _ _ e h)))
        refl
]
  where
    or_second : (a b : Bool) → a ≡ false → (a || b) ≡ true → b ≡ true
    or_second true b k l = ground arith
    or_second false b k l = l

module _ {E : Env} (parse_url : Str → Option ParsedUrl) (parse_date : Str → Option ℕ)
    (tag_of : Node → Str) (f : FileSystem) (r : Request) where
  -- Whatever the service, the disk and the clock answer, and whatever url.Parse gives, a COPY or
  -- MOVE that NewHandler passes on comes after a RecoverPending that succeeded, states no body
  -- longer than the limit, and has no destination below its own source; and either it is passed
  -- on with Overwrite F, so that an existing target stops it, or it is a MOVE that negotiated the
  -- safe protocol, to a path on this host. This is for a FileSystem whose root is not "/".
  pub serve-Careful :
      (w : World E) (p : Passed)
      → (f.top =s root) ≡ false
      → (is_copy r || is_move r) ≡ true
      → (serve parse_url parse_date tag_of f r w).0 ≡ ok (passed_on p)
      → Careful parse_url f r w p
  unfolding serve refusal check_length check_itself pure passed_request
  serve-Careful w p inner changes h =
      let out = bind_ok (refusal parse_url parse_date tag_of f r) _ w (passed_on p) h in
      let (nothing, same_request) =
        answered_passed (passed_request parse_url r) p out.0 (ok_injective _ _ out.1.1) in
      let short = or_check-none (check_length r) _ w (out.1.0 ∙ ap ok nothing) in
      let recovery = or_check-none (check_recovery f r) _ w short.1 in
      let w1 : World E = (check_recovery f r w).1 in
      let conditions = or_check-none (check_conditions parse_date tag_of f r) _ w1 recovery.1 in
      let w2 : World E = (check_conditions parse_date tag_of f r w1).1 in
      let itself = or_check-none (check_itself parse_url f r) _ w2 conditions.1 in
      let checked =
        if_true {A = M E (Option ℕ)} (is_copy r || is_move r)
          (check_destination f r (parse_url r.destination)) (pure none) changes in
      record {
        short = refuse_if-none _ 413 (ok_injective _ _ short.0);
        recovered = check_recovery-recovers f r w (writes r.method changes) recovery.0;
        outside =
            check_destination-inside f r (parse_url r.destination) w2 inner
              (ap (λ m. (m w2).0) (sym checked) ∙ itself.0);
        keeps_target =
            safe_or_refusing parse_url r p changes (ap (λ q. q.move_destination) (sym same_request))
              (ap (λ q. q.overwrite) (sym same_request));
      }
