-- ===== src/Evs/Cache/Invalidate.antt =====
-- What an invalidation takes from the browse cache.
use mathlib.Core.List.{Memᴰ, append_assoc}
use idrive_unlimited.Base.{
  =s_eq, =s_iff, All, Bool, List, Option, Str, [], ap, false, has_prefix, has_prefix-append,
  has_prefix_split, if◌then◌else◌, inl, inr, none, refl, some, subst, sym, true, ◌++◌, ◌=s◌, ◌||◌,
  ◌∙◌, ◌∷◌, ◌≡◌, ◌⊎◌,
}
use idrive_unlimited.Evs.Cache.{
  Entries, drop_all_stale, drop_stale, invalidate_paths, is_stale, lookup_entry,
}
use idrive_unlimited.Evs.Monad.{Env, World, get_client, set_client, ◌>>=◌}
use idrive_unlimited.Evs.Types.{CacheEntry}
use idrive_unlimited.Path.{clean_path, root, slash}

-- Whether one of the paths covers a cached path.
abbrev any_stale : List Str → Str → Bool
any_stale [] key = false
any_stale (item ∷ items) key = is_stale (clean_path item) key || any_stale items key

abbrev unless : Bool → Option CacheEntry → Option CacheEntry
unless true o = none
unless false o = o

unless-none : (b : Bool) → unless b none ≡ none
unless-none true = refl
unless-none false = refl

unless-unless : (a b : Bool) (o : Option CacheEntry) → unless b (unless a o) ≡ unless (a || b) o
unless-unless true true o = refl
unless-unless true false o = refl
unless-unless false b o = refl

step :
    (same stale : Bool) (clean key k : Str) (e : CacheEntry) (rest : Entries)
    → (k =s key) ≡ same
    → is_stale clean k ≡ stale
    → lookup_entry key (drop_stale clean rest) ≡ unless (is_stale clean key) (lookup_entry key rest)
    → lookup_entry key (if stale then drop_stale clean rest else (k, e) ∷ drop_stale clean rest)
      ≡ unless (is_stale clean key) (if same then some e else lookup_entry key rest)
unfolding lookup_entry
step true true clean key k e rest s t ih =
    let covered : is_stale clean key ≡ true =
      subst (λ x. is_stale clean x ≡ true) ((=s_iff k key).0 s) t in
    let gone =
      subst (λ x. lookup_entry key (drop_stale clean rest) ≡ unless x (lookup_entry key rest))
        covered ih in
    rw covered gone
step true false clean key k e rest s t ih =
    let covered : is_stale clean key ≡ false =
      subst (λ x. is_stale clean x ≡ false) ((=s_iff k key).0 s) t in
    rw (s, covered) refl
step false true clean key k e rest s t ih = ih
step false false clean key k e rest s t ih = rw s ih

lookup_entry-drop_stale :
    (clean key : Str) (cache : Entries)
    → lookup_entry key (drop_stale clean cache)
      ≡ unless (is_stale clean key) (lookup_entry key cache)
unfolding lookup_entry drop_stale
lookup_entry-drop_stale clean key [] = sym (unless-none (is_stale clean key))
lookup_entry-drop_stale clean key ((k, e) ∷ rest) =
    step _ _ clean key k e rest refl refl (lookup_entry-drop_stale clean key rest)

lookup_entry-drop_all_stale :
    (items : List Str) (key : Str) (cache : Entries)
    → lookup_entry key (drop_all_stale items cache)
      ≡ unless (any_stale items key) (lookup_entry key cache)
unfolding drop_all_stale
lookup_entry-drop_all_stale [] key cache = refl
lookup_entry-drop_all_stale (item ∷ items) key cache =
    lookup_entry-drop_all_stale items key (drop_stale (clean_path item) cache)
    ∙ ap (unless (any_stale items key)) (lookup_entry-drop_stale (clean_path item) key cache)
    ∙ unless-unless (is_stale (clean_path item) key) (any_stale items key) _

-- A path that is invalidated reaches a cached one: it is the root, or the cached path itself, or
-- a folder above it.
abbrev pub Covers : Str → Str → Type 0
Covers path key =
    (clean_path path ≡ root)
    ⊎ ((key ≡ clean_path path) ⊎ ((rest : Str) × (key ≡ clean_path path ++ slash ∷ rest)))

is_stale_split :
    (same exact below : Bool)
    → (same || exact || below) ≡ true
    → (same ≡ true) ⊎ ((exact ≡ true) ⊎ (below ≡ true))
is_stale_split true exact below h = inl refl
is_stale_split false true below h = inr (inl refl)
is_stale_split false false below h = inr (inr h)

below_split :
    (clean key : Str)
    → has_prefix key (clean ++ root) ≡ true
    → (rest : Str) × (key ≡ clean ++ slash ∷ rest)
below_split clean key h =
    let (rest, e) = has_prefix_split key (clean ++ root) h in
    (rest, e ∙ append_assoc clean root rest)

is_stale-Covers : (path key : Str) → is_stale (clean_path path) key ≡ true → Covers path key
unfolding is_stale
is_stale-Covers path key h =
    elim (is_stale_split _ _ (has_prefix key (clean_path path ++ root)) h) [
      | inl e ↦ inl (=s_eq _ _ e)
      | inr (inl e) ↦ inr (inl (=s_eq _ _ e))
      | inr (inr e) ↦ inr (inr (below_split (clean_path path) key e))
    ]

or_true : (a b c : Bool) → (b ≡ true) ⊎ (c ≡ true) → (a || b || c) ≡ true
or_true true b c h = refl
or_true false true c h = refl
or_true false false c (inl h) = cc
or_true false false c (inr h) = h

Covers-is_stale : (path key : Str) → Covers path key → is_stale (clean_path path) key ≡ true
unfolding is_stale
Covers-is_stale path key (inl e) = rw ((=s_iff _ _).1 e) refl
Covers-is_stale path key (inr (inl e)) = or_true _ _ _ (inl ((=s_iff _ _).1 e))
Covers-is_stale path key (inr (inr (rest, e))) =
    or_true (clean_path path =s root) (key =s clean_path path) _ (
      inr (
        subst (λ k. has_prefix k (clean_path path ++ root) ≡ true)
          (append_assoc (clean_path path) root rest ∙ sym e)
          (has_prefix-append (clean_path path ++ root) rest)))

-- Some of the paths reaches the cached one, or none does.
data Reached (key : Str) : List Str → Bool → Type 0 where
  by_one :
      {paths : List Str} → (path : Str) → Memᴰ path paths → Covers path key → Reached key paths true
  by_none : {paths : List Str} → All (λ path. ¬ Covers path key) paths → Reached key paths false

any_stale-Reached : (paths : List Str) (key : Str) → Reached key paths (any_stale paths key)
any_stale-Reached [] key = by_none tt
any_stale-Reached (path ∷ paths) key = reached _ _ refl (any_stale-Reached paths key)
  where
    reached :
        (here later : Bool)
        → is_stale (clean_path path) key ≡ here
        → Reached key paths later
        → Reached key (path ∷ paths) (here || later)
    reached true later e r = by_one path (Memᴰ.head refl) (is_stale-Covers path key e)
    reached false true e (by_one p m c) = by_one p (Memᴰ.tail m) c
    reached false false e (by_none n) = by_none (λ c. cc (Covers-is_stale path key c), n)

module _ {E : Env} (paths : List Str) (key : Str) (w : World E) where
  -- What an invalidation does to one path of the cache.
  abbrev pub after_invalidation : Option CacheEntry
  after_invalidation = lookup_entry key (invalidate_paths paths w).1.client.browse_cache

  abbrev pub before_invalidation : Option CacheEntry
  before_invalidation = lookup_entry key w.client.browse_cache

  decided :
      (b : Bool)
      → Reached key paths b
      → after_invalidation ≡ unless b before_invalidation
      → (((path : Str) × Memᴰ path paths × Covers path key × (after_invalidation ≡ none))
          ⊎ (All (λ path. ¬ Covers path key) paths × (after_invalidation ≡ before_invalidation)))
  decided true (by_one path m c) e = inl (path, m, c, e)
  decided false (by_none n) e = inr (n, e)

  -- Either one of the given paths, cleaned, is the root, or the key, or a folder above the key, and
  -- after invalidatePaths the cache has no entry for the key, or none of them is, and the cache has
  -- for the key what it had before.
  pub invalidate_paths-lookup :
      ((path : Str) × Memᴰ path paths × Covers path key × (after_invalidation ≡ none))
      ⊎ (All (λ path. ¬ Covers path key) paths × (after_invalidation ≡ before_invalidation))
  unfolding invalidate_paths get_client set_client ◌>>=◌
  invalidate_paths-lookup =
      decided _ (any_stale-Reached paths key)
        (lookup_entry-drop_all_stale paths key w.client.browse_cache)
