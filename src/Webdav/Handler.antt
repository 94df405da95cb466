-- ===== src/Webdav/Handler.antt =====
-- Handler of internal/webdav/handler.go: the count of the requests in progress, and Drain.
pub mod Drain
use idrive_unlimited.Base.{
  Bool, List, Option, [], false, if◌then◌else◌, none, some, true, ℕ, ◌+◌, ◌-◌, ◌<◌, ◌==◌, ◌||◌, ◌∷◌,
  ◌≡◌,
}

-- `idle` is the channel that was made last, by its number, or 0 for nil; `closed` lists the
-- channels that are closed. The mutex makes each operation below one step.
pub record Handler : Type 0 where
  pub active : ℕ
  pub closing : Bool
  pub idle : ℕ
  pub closed : List ℕ

abbrev pub new_handler : Handler
new_handler = record { active = 0; closing = false; idle = 0; closed = [] }

abbrev pub is_closed : ℕ → List ℕ → Bool
is_closed c [] = false
is_closed c (d ∷ ds) = c == d || is_closed c ds

-- ServeHTTP up to the handler behind it; none where the request is refused.
unfoldable pub begin_request : Handler → Option Handler
begin_request h =
    if h.closing
    then none
    else some
        (record h { active = h.active + 1; idle = if h.active == 0 then h.idle + 1 else h.idle })

-- The deferred end of ServeHTTP, which runs for a request that was not refused.
unfoldable pub end_request : Handler → Handler
end_request h = record h {
  active = h.active - 1;
  closed = if (h.active - 1) == 0 then h.idle ∷ h.closed else h.closed;
}

-- Drain under the mutex; it keeps the handler as it found it.
unfoldable pub start_drain : Handler → Handler
start_drain h = record h { closing = true }

-- Whether the select of a Drain that found `before` can take the channel in the state `now`, or
-- the Drain has returned without it.
unfoldable pub drained : Handler → Handler → Bool
drained before now = before.active == 0 || is_closed before.idle now.closed

-- A step of one of the goroutines.
pub data Step : Handler → Handler → Type 0 where
  request_begins : (h k : Handler) → begin_request h ≡ some k → Step h k
  request_ends : (h : Handler) → 0 < h.active → Step h (end_request h)
  drain_starts : (h : Handler) → Step h (start_drain h)

pub data Steps : Handler → Handler → Type 0 where
  no_step : (h : Handler) → Steps h h
  then_step : {h k l : Handler} → Steps h k → Step k l → Steps h l
