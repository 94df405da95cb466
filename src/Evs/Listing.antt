-- ===== src/Evs/Listing.antt =====
-- Browse, BrowseFresh, Stat, StatFresh and requireWritable of internal/evs/client.go.
-- BrowseFresh classifies its entries by requireWritable, which may list the root through Browse:
-- the depth of that recursion is the number that `browse_fresh_at` counts down, and two levels
-- are enough (Evs/Listing/Depth).
pub mod Depth
use idrive_unlimited.Base.{
  Bool, List, Option, Str, [], contains_any, false, if◌then◌else◌, is_empty, is_negative, is_some,
  negate, none, parse_int, pos, some, split, suc, trim_prefix, true, zero, ℕ, ◌&&◌, ◌=s◌, ◌||◌, ◌∷◌,
}
use idrive_unlimited.Evs.Api.{api_error, is_success, parse_mod_time, parse_size, post_form}
use idrive_unlimited.Evs.Cache.{cached_entry, store_browse}
use idrive_unlimited.Evs.Errors.{Result, err, is, message, not_found, ok, read_only, sentinel}
use idrive_unlimited.Evs.Monad.{
  Env, M, ask, attempt, get_client, guard, lift, on_option, pure, raise, ◌>>=◌, ◌>>◌,
}
use idrive_unlimited.Evs.Types.{
  BrowseContent, CacheEntry, DeviceMeta, Devices, Node, browse, context_error,
}
use idrive_unlimited.Path.{
  clean_path, dot, dotdot, is_read_only_path, join_clean, parent_dir, path_base, root, slash,
}

abbrev pub valid_name : Str → Bool
valid_name n = negate (is_empty n || n =s dot || n =s dotdot || contains_any n (slash ∷ 0 ∷ []))

abbrev pub seen_before : Str → List Str → Bool
seen_before n [] = false
seen_before n (m ∷ ms) = m =s n || seen_before n ms

abbrev pub valid_size : Str → Bool
valid_size raw = elim (parse_int raw) [ none ↦ false | some n ↦ negate (is_negative n) ]

abbrev lookup_device : Str → Devices → Option DeviceMeta
lookup_device n [] = none
lookup_device n ((m, d) ∷ rest) = if m =s n then some d else lookup_device n rest

abbrev device_of : Str → Str → Option Devices → Option DeviceMeta
device_of clean n none = none
device_of clean n (some devices) = if clean =s root then lookup_device n devices else none

abbrev find_node : Str → List Node → Option Node
find_node n [] = none
find_node n (node ∷ nodes) = if node.name =s n then some node else find_node n nodes

abbrev pub found : Option Node → Result Node
found none = err (sentinel not_found)
found (some node) = ok node

-- A device, or a directory of the root whose class the listing did not tell.
abbrev pub is_device_like : Node → Bool
is_device_like node = is_some node.device || (node.is_dir && negate node.root_class_known)

abbrev pub any_device : Str → List Node → Bool
any_device head [] = false
any_device head (node ∷ nodes) = (node.name =s head && is_device_like node) || any_device head nodes

abbrev first : List Str → Str
first [] = []
first (c ∷ cs) = c

-- The first component of a path.
unfoldable pub head_of : Str → Str
unfolding split trim_prefix
head_of name = first (split slash (trim_prefix (clean_path name) root))

abbrev empty_entry : BrowseContent
empty_entry = record {
  is_dir = false;
  name = [];
  size = [];
  version = [];
  lmd = [];
  save_time = [];
}

abbrev pub root_node : Node
root_node = record {
  read_only = false;
  root_class_known = false;
  path = root;
  name = root;
  is_dir = true;
  size = pos 0;
  mod_time = none;
  version = [];
  device = none;
  raw_entry = empty_entry;
}

-- requireWritable's answer as the ReadOnly field.
abbrev pub read_only_flag : Result (Unit {0}) → Result Bool
read_only_flag (ok _) = ok false
read_only_flag (err e) = if is e read_only then ok true else err e

module _ {E : Env} where
  unfoldable pub node_of : Str → Option Devices → BrowseContent → M E Node
  node_of clean devices e w = (
    ok (record {
      read_only = false;
      root_class_known = negate (clean =s root) || is_some devices;
      path = join_clean clean e.name;
      name = e.name;
      is_dir = e.is_dir;
      size = parse_size e.size;
      mod_time = parse_mod_time E.parse_time (e.lmd ∷ e.save_time ∷ []);
      version = e.version;
      device = device_of clean e.name devices;
      raw_entry = e;
    }),
    w,
  )

  -- One entry, with the test that classifies it, and the entries behind it.
  unfoldable pub browse_entry :
      Str → Option Devices → BrowseContent → M E (Unit {0}) → M E (List Node) → M E (List Node)
  browse_entry clean devices e check rest = do
    guard (e.is_dir || valid_size e.size) (message "invalid file size in browse response")
    node ← node_of clean devices e
    writable ← attempt check
    flag ← lift (read_only_flag writable)
    nodes ← rest
    pure (record node { read_only = flag } ∷ nodes)

  -- The loop over the entries of a listing.
  unfoldable pub browse_entries :
      (Str → M E (Unit {0}))
      → Str
      → Option Devices
      → List Str
      → List BrowseContent
      → M E (List Node)
  browse_entries check clean devices seen [] = pure []
  browse_entries check clean devices seen (e ∷ rest) =
      let more = browse_entries check clean devices (e.name ∷ seen) rest in
      guard (valid_name e.name && negate (seen_before e.name seen))
        (message "invalid or duplicate name in browse response")
      >> browse_entry clean devices e (check (join_clean clean e.name)) more

  -- BrowseFresh, over the loop that reads the entries.
  unfoldable pub browse_fresh_from :
      (Option Devices → List BrowseContent → M E (List Node)) → Str → M E (List Node)
  browse_fresh_from entries remote = do
    let clean = clean_path remote
    c ← get_client
    r ← ask (browse clean)
    resp ← lift (post_form r)
    guard (is_success resp.message) (api_error 200 resp.message resp.desc)
    guard (is_empty resp.path || clean_path resp.path =s clean)
        (message "browse response path differs from requested directory")
    nodes ← entries resp.devices resp.contents
    store_browse clean nodes resp.devices c.generation
    pure nodes

  -- BrowseFresh, over the test that classifies an entry.
  unfoldable pub browse_fresh_with : (Str → M E (Unit {0})) → Str → M E (List Node)
  browse_fresh_with check remote =
      let clean = clean_path remote in
      browse_fresh_from (λ devices es. browse_entries check clean devices [] es) remote

  unfoldable pub cached_or : Option CacheEntry → M E (List Node) → M E (List Node)
  cached_or none m = m
  cached_or (some entry) m = pure entry.nodes

  -- A context that has ended gives its error.
  unfoldable pub check_context : M E (Unit {0})
  check_context = do e ← ask context_error; on_option e (pure tt) raise

  -- The call that singleflight makes; the context may end while it runs.
  unfoldable pub flight : (Str → M E (List Node)) → Str → M E (List Node)
  flight fresh clean = do
    result ← attempt (do entry ← cached_entry clean; cached_or entry (fresh clean))
    check_context
    lift result

  -- Browse, over BrowseFresh.
  unfoldable pub browse_with : (Str → M E (List Node)) → Str → M E (List Node)
  browse_with fresh remote = do
    let clean = clean_path remote
    check_context
    entry ← cached_entry clean
    cached_or entry (flight fresh clean)

  -- requireWritable, over the listing it reads.
  unfoldable pub require_writable_with : (Str → M E (List Node)) → Str → M E (Unit {0})
  require_writable_with list name =
      if is_read_only_path name
      then (do
        roots ← list root
        guard (negate (any_device (head_of name) roots)) (sentinel read_only))
      else pure tt

  unfoldable pub browse_fresh_at : ℕ → Str → M E (List Node)
  browse_fresh_at zero remote = raise (message "listing depth")
  browse_fresh_at (suc depth) remote =
      browse_fresh_with (require_writable_with (browse_with (browse_fresh_at depth))) remote

  unfoldable pub browse_fresh : Str → M E (List Node)
  browse_fresh = browse_fresh_at 2

  -- Browse
  unfoldable pub browse_cached : Str → M E (List Node)
  browse_cached = browse_with browse_fresh

  -- requireWritable with fresh = true.
  unfoldable pub require_writable : Str → M E (Unit {0})
  require_writable = require_writable_with browse_fresh

  unfoldable pub stat_fresh : Str → M E Node
  stat_fresh remote =
      let clean = clean_path remote in
      if clean =s root then pure root_node else do
        nodes ← browse_fresh (parent_dir clean)
        lift (found (find_node (path_base clean) nodes))

  unfoldable pub listed_or : Option CacheEntry → Str → M E Node → M E Node
  listed_or none base m = m
  listed_or (some entry) base m = on_option (find_node base entry.nodes) m pure

  unfoldable pub stat : Str → M E Node
  stat remote =
      let clean = clean_path remote in
      if clean =s root then pure root_node else do
        entry ← cached_entry (parent_dir clean)
        listed_or entry (path_base clean) (do
          nodes ← browse_cached (parent_dir clean)
          lift (found (find_node (path_base clean) nodes)))

  -- protectDeviceRoot
  unfoldable pub protect_device_root : Str → M E (Unit {0})
  protect_device_root name =
      if name =s root
      then raise (sentinel read_only)
      else if negate (parent_dir name =s root)
      then pure tt
      else do node ← stat_fresh name; guard (negate (is_device_like node)) (sentinel read_only)
