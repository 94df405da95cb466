-- ===== src/Webdav/Handler/Drain.antt =====
-- Drain waits for the requests in progress, and for no others.
use idrive_unlimited.Base.{
  All, Bool, List, [], arith, false, if◌then◌else◌, inl, inr, none, refl, some, subst, suc, true,
  zero, ℕ, ◌+◌, ◌-◌, ◌<◌, ◌==◌, ◌||◌, ◌∙◌, ◌∷◌, ◌≡◌, ◌≤◌, ◌⊎◌,
}
use idrive_unlimited.Path.{last}
use idrive_unlimited.Webdav.Handler.{
  Handler, Step, Steps, begin_request, drain_starts, drained, end_request, is_closed, new_handler,
  no_step, request_begins, request_ends, start_drain, then_step,
}

-- Every closed channel was made; while requests are active the last channel is open, and else
-- it is closed, if there is one.
record WellFormed (h : Handler) : Type 0 where
  made : All (λ c. c ≤ h.idle) h.closed
  busy : 0 < h.active → (0 < h.idle) × (is_closed h.idle h.closed ≡ false)
  free : h.active ≡ 0 → (h.idle ≡ 0) ⊎ (is_closed h.idle h.closed ≡ true)

fresh : (n : ℕ) (closed : List ℕ) → All (λ c. c ≤ n) closed → is_closed (n + 1) closed ≡ false
fresh n [] a = refl
fresh n (c ∷ closed) a = ground (arith, fresh n closed a.1, a.0)

weaken : (n : ℕ) (closed : List ℕ) → All (λ c. c ≤ n) closed → All (λ c. c ≤ n + 1) closed
weaken n [] a = tt
weaken n (c ∷ closed) a = (omega (arith, a.0), weaken n closed a.1)

new_handler-WellFormed : WellFormed new_handler
new_handler-WellFormed = record { made = tt; busy = λ b. ground arith; free = λ e. inl refl }

begins :
    (idle_now : Bool) (h : Handler)
    → (h.active == 0) ≡ idle_now
    → WellFormed h
    → WellFormed
        (record h { active = h.active + 1; idle = if idle_now then h.idle + 1 else h.idle })
begins true h e w = record {
  made = weaken h.idle h.closed w.made;
  busy = λ b. (omega arith, fresh h.idle h.closed w.made);
  free = λ z. ground arith;
}
begins false h e w = record {
  made = w.made;
  busy = λ b. w.busy (ground arith);
  free = λ z. ground arith;
}

ends_last :
    (last : Bool) (h : Handler)
    → ((h.active - 1) == 0) ≡ last
    → 0 < h.active
    → WellFormed h
    → WellFormed
        (record h { active = h.active - 1; closed = if last then h.idle ∷ h.closed else h.closed })
ends_last true h e b w = record {
  made = (omega arith, w.made);
  busy = λ k. ground arith;
  free = λ z. inr (ground arith);
}
ends_last false h e b w = record { made = w.made; busy = λ k. w.busy b; free = λ z. ground arith }

if_some {ℓ} :
    {A : Type ℓ} (b : Bool) {x y : A}
    → (if b then none else some x) ≡ some y
    → (b ≡ false) × (x ≡ y)
if_some true e = cc
if_some false e = (refl, cc)

Step-WellFormed : {h k : Handler} → Step h k → WellFormed h → WellFormed k
unfolding begin_request end_request start_drain
Step-WellFormed (request_begins h k e) w =
    subst WellFormed (if_some h.closing e).1 (begins _ h refl w)
Step-WellFormed (request_ends h b) w = ends_last _ h refl b w
Step-WellFormed (drain_starts h) w = record { made = w.made; busy = w.busy; free = w.free }

Steps-WellFormed : {h k : Handler} → Steps h k → WellFormed h → WellFormed k
Steps-WellFormed (no_step h) w = w
Steps-WellFormed (then_step before last) w = Step-WellFormed last (Steps-WellFormed before w)

-- What a handler that is closing has in common with a later one.
record Later (h k : Handler) : Type 0 where
  closing : k.closing ≡ true
  same_idle : k.idle ≡ h.idle
  no_more : k.active ≤ h.active

Step-Later : {h k : Handler} → Step h k → h.closing ≡ true → Later h k
unfolding begin_request end_request start_drain
Step-Later (request_begins h k e) c = let still_open = (if_some h.closing e).0 in cc
Step-Later (request_ends h b) c = record { closing = c; same_idle = refl; no_more = omega arith }
Step-Later (drain_starts h) c = record { closing = refl; same_idle = refl; no_more = omega arith }

Steps-Later : {h k : Handler} → Steps h k → h.closing ≡ true → Later h k
Steps-Later (no_step h) c = record { closing = c; same_idle = refl; no_more = omega arith }
Steps-Later (then_step before last) c =
    let early = Steps-Later before c in
    let late = Step-Later last early.closing in
    record {
      closing = late.closing;
      same_idle = late.same_idle ∙ early.same_idle;
      no_more = omega (arith, early.no_more, late.no_more);
    }

settled :
    (now : ℕ) (idle : ℕ) (closed : List ℕ)
    → (0 < now → (0 < idle) × (is_closed idle closed ≡ false))
    → (now ≡ 0 → (idle ≡ 0) ⊎ (is_closed idle closed ≡ true))
    → 0 < idle
    → is_closed idle closed ≡ (now == 0)
settled zero idle closed busy free p = elim (free refl) [
  | inl none_made ↦ ground arith
  | inr shut ↦ shut
]
settled (suc now) idle closed busy free p = let still_open = (busy (omega arith)).1 in ground arith

waits :
    (free : Bool) (before now : Handler)
    → (before.active == 0) ≡ free
    → WellFormed before
    → WellFormed now
    → now.idle ≡ before.idle
    → now.active ≤ before.active
    → (free || is_closed before.idle now.closed) ≡ (now.active == 0)
waits true before now e w v i n = ground arith
waits false before now e w v i n =
    let made = (w.busy (ground arith)).0 in
    subst (λ c. is_closed c now.closed ≡ (now.active == 0)) i
      (settled now.active now.idle now.closed v.busy v.free (omega arith))

-- From the start of the handler on, whatever requests begin and end: a Drain can return without
-- its context ending if and only if no request is in progress, from the moment it starts to wait
-- and through every later step.
pub drained_lem :
    {before now : Handler}
    → Steps new_handler before
    → Steps (start_drain before) now
    → drained before now ≡ (now.active == 0)
unfolding drained start_drain
drained_lem {before} {now} past later =
    let w = Steps-WellFormed past new_handler-WellFormed in
    let l = Steps-Later later refl in
    let v = Steps-WellFormed later (Step-WellFormed (drain_starts before) w) in
    waits _ before now refl w v l.same_idle l.no_more
