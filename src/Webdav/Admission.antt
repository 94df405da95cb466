-- ===== src/Webdav/Admission.antt =====
-- The semaphore of NewHandler in internal/webdav/handler.go: a request that only reads takes one
-- unit of it, and every other request takes all of them.
pub mod Alone
use idrive_unlimited.Base.{
  Bool, List, Option, Str, [], codes, if◌then◌else◌, none, some, ℕ, ◌++◌, ◌+◌, ◌-◌, ◌=s◌, ◌^◌, ◌||◌,
  ◌∷◌, ◌≡◌, ◌≤◌,
}

-- golang.org/x/sync/semaphore: `acquire` gives the state that a successful Acquire leaves, where
-- one can succeed.
pub record Weighted : Type 1 where
  pub Sem : Type 0
  pub new_weighted : ℕ → Sem
  pub acquire : ℕ → Sem → Option Sem
  pub release : ℕ → Sem → Sem

-- What the package documents: the units held never exceed the size, an Acquire takes the units
-- that it asks for and a Release gives them back.
pub record Documented (S : Weighted) : Type 0 where
  pub held : S.Sem → ℕ
  pub size : S.Sem → ℕ
  pub held-new : (n : ℕ) → held (S.new_weighted n) ≡ 0
  pub size-new : (n : ℕ) → size (S.new_weighted n) ≡ n
  pub held-acquire : (n : ℕ) (s t : S.Sem) → S.acquire n s ≡ some t → held t ≡ held s + n
  pub size-acquire : (n : ℕ) (s t : S.Sem) → S.acquire n s ≡ some t → size t ≡ size s
  pub fits_acquire : (n : ℕ) (s t : S.Sem) → S.acquire n s ≡ some t → held t ≤ size t
  pub held-release : (n : ℕ) (s : S.Sem) → n ≤ held s → held (S.release n s) ≡ held s - n
  pub size-release : (n : ℕ) (s : S.Sem) → n ≤ held s → size (S.release n s) ≡ size s

-- 1 << 20
abbrev pub exclusive : ℕ
exclusive = 2 ^ 20

unfoldable pub read_only_method : Str → Bool
read_only_method method =
    method =s codes "GET"
    || method =s codes "HEAD"
    || method =s codes "PROPFIND"
    || method =s codes "OPTIONS"

unfoldable pub weight : Str → ℕ
weight method = if read_only_method method then 1 else exclusive

module _ (S : Weighted) where
  -- The semaphore, with the methods of the requests behind it.
  pub record Gate : Type 0 where
    pub sem : S.Sem
    pub inside : List Str

  abbrev pub open_gate : Gate
  open_gate = record { sem = S.new_weighted exclusive; inside = [] }

  abbrev pub entered : Str → Gate → Option S.Sem → Option Gate
  entered method g none = none
  entered method g (some s) = some (record { sem = s; inside = method ∷ g.inside })

  -- A request waits until this gives a gate, or its context ends.
  unfoldable pub enter : Str → Gate → Option Gate
  enter method g = entered method g (S.acquire (weight method) g.sem)

  -- The deferred Release of a request that stands among the others.
  unfoldable pub leave : List Str → Str → List Str → Gate → Gate
  leave before method after g = record {
    sem = S.release (weight method) g.sem;
    inside = before ++ after;
  }

  pub data Passage : Gate → Gate → Type 0 where
    enters : (method : Str) (g h : Gate) → enter method g ≡ some h → Passage g h
    leaves :
        (before : List Str) (method : Str) (after : List Str) (g : Gate)
        → g.inside ≡ before ++ method ∷ after
        → Passage g (leave before method after g)

  pub data Passages : Gate → Gate → Type 0 where
    no_passage : (g : Gate) → Passages g g
    then_passage : {g h i : Gate} → Passages g h → Passage h i → Passages g i
