-- ===== src/Evs/Cache.antt =====
-- The browse cache: cachedBrowse, storeBrowse, invalidatePaths and lookupCachedNode of
-- internal/evs/client.go. The map is an association list with each key once. (cloneNodes copies
-- values, which are shared by nothing here.)
pub mod Room
pub mod Invalidate
pub mod Store
use idrive_unlimited.Base.{
  Bool, List, Option, Str, [], has_prefix, if◌then◌else◌, length, ltb, negate, none, some, suc,
  zero, ℕ, ◌%◌, ◌++◌, ◌+◌, ◌==◌, ◌=s◌, ◌^◌, ◌||◌, ◌∷◌,
}
use idrive_unlimited.Evs.Monad.{Client, Env, M, ask, get_client, pure, set_client, ◌>>=◌, ◌>>◌}
use idrive_unlimited.Evs.Types.{CacheEntry, Devices, Node, clock, pick}
use idrive_unlimited.Path.{clean_path, root}

-- uint64
abbrev pub next_generation : ℕ → ℕ
next_generation g = (g + 1) % 2 ^ 64

abbrev pub Entries : Type 0
Entries = List (Str × CacheEntry)

unfoldable pub lookup_entry : Str → Entries → Option CacheEntry
unfolding ◌=s◌
lookup_entry key [] = none
lookup_entry key ((k, e) ∷ rest) = if k =s key then some e else lookup_entry key rest

unfoldable pub put_entry : Str → CacheEntry → Entries → Entries
unfolding ◌=s◌
put_entry key e [] = (key, e) ∷ []
put_entry key e ((k, f) ∷ rest) =
    let others = put_entry key e rest in if k =s key then (key, e) ∷ rest else (k, f) ∷ others

-- The test of invalidatePaths at one cached path.
unfoldable pub is_stale : Str → Str → Bool
unfolding ◌=s◌ has_prefix
is_stale clean cached = clean =s root || cached =s clean || has_prefix cached (clean ++ root)

unfoldable pub drop_stale : Str → Entries → Entries
unfolding is_stale
drop_stale clean [] = []
drop_stale clean ((k, e) ∷ rest) =
    let others = drop_stale clean rest in if is_stale clean k then others else (k, e) ∷ others

unfoldable pub drop_all_stale : List Str → Entries → Entries
unfolding drop_stale
drop_all_stale [] cache = cache
drop_all_stale (item ∷ items) cache = drop_all_stale items (drop_stale (clean_path item) cache)

unfoldable pub remove_at : ℕ → Entries → Entries
remove_at n [] = []
remove_at zero (entry ∷ rest) = rest
remove_at (suc n) (entry ∷ rest) = entry ∷ remove_at n rest

abbrev pub max_entries : ℕ
max_entries = 1024

-- 5 minutes, in nanoseconds.
abbrev pub browse_cache_ttl : ℕ
browse_cache_ttl = 300000000000

abbrev new_devices : Str → Option Devices → Devices → Devices
new_devices remote none old = old
new_devices remote (some given) old = if remote =s root then given else old

module _ {E : Env} where
  unfoldable pub invalidate_paths : List Str → M E (Unit {0})
  invalidate_paths paths = do
    c ← get_client
    set_client (record c {
      generation = next_generation c.generation;
      browse_cache = drop_all_stale paths c.browse_cache;
    })

  -- An entry that is present and has not expired; an expired one is invalidated.
  unfoldable pub fresh_entry : Str → Option CacheEntry → M E (Option CacheEntry)
  fresh_entry remote none = pure none
  fresh_entry remote (some e) = do
    now ← ask clock
    if ltb e.expires_at now then (do invalidate_paths (remote ∷ []); pure none) else pure (some e)

  unfoldable pub cached_entry : Str → M E (Option CacheEntry)
  cached_entry remote = do c ← get_client; fresh_entry remote (lookup_entry remote c.browse_cache)

  -- The loop over the cache that keeps what has not expired.
  unfoldable pub drop_expired : Entries → M E Entries
  drop_expired [] = pure []
  drop_expired ((k, e) ∷ rest) = do
    now ← ask clock
    others ← drop_expired rest
    pure (if ltb e.expires_at now then others else (k, e) ∷ others)

  -- The order in which Go walks a map is chosen by the surroundings.
  unfoldable pub drop_one : Entries → M E Entries
  drop_one cache =
      if ltb (length cache) max_entries
      then pure cache
      else (do n ← ask (pick (length cache)); pure (remove_at (n % length cache) cache))

  unfoldable pub make_room : Entries → M E Entries
  make_room cache =
      if ltb (length cache) max_entries
      then pure cache
      else (do kept ← drop_expired cache; drop_one kept)

  -- storeBrowse behind its test of the generation.
  unfoldable pub store_current : Str → List Node → Option Devices → Client → M E (Unit {0})
  store_current remote nodes devices c = do
    room ← make_room c.browse_cache
    now ← ask clock
    set_client (record c {
      devices = new_devices remote devices c.devices;
      browse_cache =
          put_entry remote (record { nodes = nodes; expires_at = now + browse_cache_ttl }) room;
    })

  unfoldable pub store_browse : Str → List Node → Option Devices → ℕ → M E (Unit {0})
  store_browse remote nodes devices generation = do
    c ← get_client
    if negate (c.generation == generation) then pure tt else store_current remote nodes devices c
