-- ===== src/Evs/Cache/Store.antt =====
-- What storeBrowse leaves in the cache, and what an invalidation takes from it.
use idrive_unlimited.Base.{
  =s_refl, Bool, List, Option, Str, [], arith, false, if◌then◌else◌, length, negate, refl, some,
  subst, sym, true, ◌+◌, ◌<◌, ◌==◌, ◌=s◌, ◌^◌, ◌∙◌, ◌∷◌, ◌≡◌, ◌≤◌,
}
use idrive_unlimited.Evs.Cache.{
  Entries, browse_cache_ttl, invalidate_paths, lookup_entry, make_room, max_entries, put_entry,
  store_browse, store_current,
}
use idrive_unlimited.Evs.Cache.Room.{make_room-HasRoom}
use idrive_unlimited.Evs.Errors.{ok}
use idrive_unlimited.Evs.Monad.{Env, M, World, ask, get_client, pure, set_client, ◌>>=◌}
use idrive_unlimited.Evs.Runs.{bind_runs}
use idrive_unlimited.Evs.Types.{CacheEntry, Devices, Node, clock}

length-put_entry :
    (key : Str) (e : CacheEntry) (cache : Entries)
    → length (put_entry key e cache) ≤ length cache + 1
unfolding put_entry
length-put_entry key e [] = omega arith
length-put_entry key e ((k, f) ∷ cache) = ground (arith, length-put_entry key e cache)

found_first :
    (b : Bool) (key : Str) (e : CacheEntry) (cache : Entries)
    → b ≡ true
    → (if b then some e else lookup_entry key cache) ≡ some e
found_first true key e cache h = refl
found_first false key e cache h = ground arith

put_found :
    (b : Bool) (key k : Str) (e f : CacheEntry) (cache : Entries)
    → (k =s key) ≡ b
    → lookup_entry key (put_entry key e cache) ≡ some e
    → lookup_entry key (if b then (key, e) ∷ cache else (k, f) ∷ put_entry key e cache) ≡ some e
unfolding lookup_entry
put_found true key k e f cache same h = found_first _ key e cache (=s_refl key)
put_found false key k e f cache same h = rw same h

pub lookup_entry-put_entry :
    (key : Str) (e : CacheEntry) (cache : Entries)
    → lookup_entry key (put_entry key e cache) ≡ some e
unfolding put_entry
lookup_entry-put_entry key e [] = unfold lookup_entry in found_first _ key e [] (=s_refl key)
lookup_entry-put_entry key e ((k, f) ∷ cache) =
    put_found _ key k e f cache refl (lookup_entry-put_entry key e cache)

module _ {E : Env} where
  -- The cache after storeBrowse with the current generation.
  pub record Stored (remote : Str) (nodes : List Node) (w : World E) : Type 0 where
    pub entry : CacheEntry
    pub holds : entry.nodes ≡ nodes
    pub found : lookup_entry remote w.client.browse_cache ≡ some entry
    pub bounded : length w.client.browse_cache ≤ max_entries

  store :
      (remote : Str) (nodes : List Node) (devices : Option Devices) (w : World E)
      → length w.client.browse_cache ≤ max_entries
      → Stored remote nodes (store_current remote nodes devices w.client w).1
  unfolding store_current ask set_client
  store remote nodes devices w bound =
      let room = make_room-HasRoom w.client.browse_cache w bound in
      let w1 = (make_room w.client.browse_cache w).1 in
      let (now, s) = E.respond clock w1.env in
      let entry : CacheEntry = record { nodes = nodes; expires_at = now + browse_cache_ttl } in
      let here =
        bind_runs (make_room w.client.browse_cache) _ w room.cache room.gives
        ∙ bind_runs (ask clock) _ w1 now refl in
      subst (λ r. Stored remote nodes r.1) (sym here)
        (record {
          entry = entry;
          holds = refl;
          found = lookup_entry-put_entry remote entry room.cache;
          bounded = omega (arith, room.has, length-put_entry remote entry room.cache);
        })

  current :
      (b : Bool) (remote : Str) (nodes : List Node) (devices : Option Devices) (w : World E)
      → b ≡ true
      → length w.client.browse_cache ≤ max_entries
      → Stored remote nodes
          ((if negate b then pure tt else store_current remote nodes devices w.client) w).1
  current true remote nodes devices w t bound = store remote nodes devices w bound
  current false remote nodes devices w t bound = ground arith

  -- A listing that is stored under the generation of the client can be looked up under its path
  -- with its nodes, and the cache then holds at most 1024 entries, if it did before.
  pub store_browse-Stored :
      (remote : Str) (nodes : List Node) (devices : Option Devices) (w : World E)
      → length w.client.browse_cache ≤ max_entries
      → Stored remote nodes (store_browse remote nodes devices w.client.generation w).1
  unfolding store_browse get_client ◌>>=◌
  store_browse-Stored remote nodes devices w bound =
      current _ remote nodes devices w (ground arith) bound

  stale :
      (b : Bool) (m : M E (Unit {0})) (w : World E)
      → b ≡ false
      → (if negate b then pure tt else m) w ≡ (ok tt, w)
  unfolding pure
  stale true m w h = ground arith
  stale false m w h = refl

  -- A listing that was asked for before an invalidation is not stored after it: the client and
  -- the service are left as the invalidation left them.
  pub store_browse-stale :
      (remote : Str) (nodes : List Node) (devices : Option Devices) (paths : List Str) (w : World E)
      → w.client.generation < 2 ^ 64
      → store_browse remote nodes devices w.client.generation (invalidate_paths paths w).1
        ≡ (ok tt, (invalidate_paths paths w).1)
  unfolding store_browse get_client invalidate_paths set_client ◌>>=◌
  store_browse-stale remote nodes devices paths w small =
      stale ((invalidate_paths paths w).1.client.generation == w.client.generation)
        (store_current remote nodes devices (invalidate_paths paths w).1.client) _ (ground arith)
