-- ===== src/Evs/Cache/Room.antt =====
-- The size of the browse cache, and what storeBrowse leaves in it.
use idrive_unlimited.Base.{
  Bool, Str, [], ap, arith, false, if◌then◌else◌, length, ltb, ltb→lt, refl, suc, true, zero, ℕ,
  ◌%◌, ◌+◌, ◌<◌, ◌∙◌, ◌∷◌, ◌≡◌, ◌≤◌,
}
use idrive_unlimited.Evs.Cache.{Entries, drop_expired, drop_one, make_room, max_entries, remove_at}
use idrive_unlimited.Evs.Errors.{ok}
use idrive_unlimited.Evs.Monad.{Env, M, World, ask, pure, ◌>>=◌}
use idrive_unlimited.Evs.Runs.{bind_runs}
use idrive_unlimited.Evs.Types.{CacheEntry, clock, pick}

-- What an action on the cache gives: a cache with a property, and the client as it was.
pub record Gives {E : Env} (P : Entries → Type 0) (m : M E Entries) (w : World E) : Type 0 where
  pub cache : Entries
  pub gives : (m w).0 ≡ ok cache
  pub has : P cache
  pub same_client : (m w).1.client ≡ w.client

abbrev pub NoLarger : Entries → Entries → Type 0
NoLarger cache kept = length kept ≤ length cache

kept_or :
    (b : Bool) (entry : Str × CacheEntry) (cache kept : Entries)
    → NoLarger cache kept
    → NoLarger (entry ∷ cache) (if b then kept else entry ∷ kept)
kept_or true entry cache kept h = omega arith
kept_or false entry cache kept h = omega arith

length-remove_at :
    (n : ℕ) (cache : Entries) → n < length cache → length (remove_at n cache) + 1 ≡ length cache
unfolding remove_at
length-remove_at n [] h = ground arith
length-remove_at zero (entry ∷ cache) h = omega arith
length-remove_at (suc n) (entry ∷ cache) h = omega (arith, length-remove_at n cache)

module _ {E : Env} where
  drop_expired-shrinks :
      (cache : Entries) (w : World E) → Gives (NoLarger cache) (drop_expired cache) w
  unfolding drop_expired ask pure
  drop_expired-shrinks [] w = record {
    cache = [];
    gives = refl;
    has = omega arith;
    same_client = refl;
  }
  drop_expired-shrinks ((k, e) ∷ rest) w =
      let (now, s) = E.respond clock w.env in
      let w1 : World E = (ask clock w).1 in
      let inner = drop_expired-shrinks rest w1 in
      let here =
        bind_runs (ask clock) _ w now refl
        ∙ bind_runs (drop_expired rest) _ w1 inner.cache inner.gives in
      record {
        cache = if ltb e.expires_at now then inner.cache else (k, e) ∷ inner.cache;
        gives = ap (λ r. r.0) here;
        has = kept_or (ltb e.expires_at now) (k, e) rest inner.cache inner.has;
        same_client = ap (λ r. r.1.client) here ∙ inner.same_client;
      }

-- Room for one more entry.
abbrev pub HasRoom : Entries → Type 0
HasRoom cache = length cache < max_entries

module _ {E : Env} where
  drop_chosen :
      (b : Bool) (cache : Entries) (w : World E)
      → ltb (length cache) max_entries ≡ b
      → length cache ≤ max_entries
      → Gives HasRoom
          (if b
            then pure cache
            else (do n ← ask (pick (length cache)); pure (remove_at (n % length cache) cache)))
          w
  unfolding pure ask ◌>>=◌
  drop_chosen true cache w small bound = record {
    cache = cache;
    gives = refl;
    has = ltb→lt _ _ small;
    same_client = refl;
  }
  drop_chosen false cache w large bound =
      let n = (E.respond (pick (length cache)) w.env).0 in
      record {
        cache = remove_at (n % length cache) cache;
        gives = refl;
        has = omega (arith, length-remove_at (n % length cache) cache (ground arith));
        same_client = refl;
      }

  drop_one-HasRoom :
      (cache : Entries) (w : World E)
      → length cache ≤ max_entries
      → Gives HasRoom (drop_one cache) w
  unfolding drop_one
  drop_one-HasRoom cache w bound = drop_chosen _ cache w refl bound

  shrink :
      (b : Bool) (cache : Entries) (w : World E)
      → ltb (length cache) max_entries ≡ b
      → length cache ≤ max_entries
      → Gives HasRoom (if b then pure cache else (do kept ← drop_expired cache; drop_one kept)) w
  unfolding pure
  shrink true cache w small bound = record {
    cache = cache;
    gives = refl;
    has = ltb→lt _ _ small;
    same_client = refl;
  }
  shrink false cache w large bound =
      let kept = drop_expired-shrinks cache w in
      let w1 = (drop_expired cache w).1 in
      let chosen = drop_one-HasRoom kept.cache w1 (omega (arith, kept.has)) in
      let here = bind_runs (drop_expired cache) drop_one w kept.cache kept.gives in
      record {
        cache = chosen.cache;
        gives = ap (λ r. r.0) here ∙ chosen.gives;
        has = chosen.has;
        same_client = ap (λ r. r.1.client) here ∙ chosen.same_client ∙ kept.same_client;
      }

  pub make_room-HasRoom :
      (cache : Entries) (w : World E)
      → length cache ≤ max_entries
      → Gives HasRoom (make_room cache) w
  unfolding make_room
  make_room-HasRoom cache w bound = shrink _ cache w refl bound
