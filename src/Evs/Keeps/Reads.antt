-- ===== src/Evs/Keeps/Reads.antt =====
-- Actions that only read: they ask harmless questions alone, and so keep every invariant that
-- admits those.
use idrive_unlimited.Base.{
  Bool, List, Option, Str, [], false, none, refl, some, suc, true, zero, ℕ, ℤ, ◌∷◌, ◌≡◌,
}
use idrive_unlimited.Evs.Cache.{
  Entries, cached_entry, drop_expired, drop_one, fresh_entry, invalidate_paths, make_room,
  store_browse, store_current,
}
use idrive_unlimited.Evs.Keeps.{
  Grown-refl, Keeps, Keeps-ask, Keeps-bind, Keeps-guard, Keeps-pure, keeps_rules,
}
use idrive_unlimited.Evs.Listing.{
  browse_cached, browse_entries, browse_entry, browse_fresh, browse_fresh_at, browse_fresh_from,
  browse_fresh_with, browse_with, cached_or, check_context, flight, node_of, protect_device_root,
  require_writable, require_writable_with, stat_fresh,
}
use idrive_unlimited.Evs.Monad.{Env, M, ask}
use idrive_unlimited.Evs.Transfer.{download_remote, remote_sha256, verify_upload}
use idrive_unlimited.Evs.Types.{
  BrowseContent, CacheEntry, Devices, Node, Query, UploadRecord, browse, clock, context_error,
  download, journal_info, local_read, local_stat, on_disk, pick, random_bytes, read_journal, sleep,
  sync_journal,
}

-- Questions whose answering changes neither a remote file nor the journal.
abbrev pub is_harmless : Query → Bool
is_harmless (browse p) = true
is_harmless (download p) = true
is_harmless clock = true
is_harmless (pick n) = true
is_harmless context_error = true
is_harmless sleep = true
is_harmless random_bytes = true
is_harmless (local_stat p) = true
is_harmless (local_read p) = true
is_harmless sync_journal = true
is_harmless read_journal = true
is_harmless (journal_info name) = true
is_harmless (on_disk op) = true
is_harmless _ = false

module _ {E : Env} {P : Query → Type 0} {Q : UploadRecord → Type 0}
    (harmless : (q : Query) → is_harmless q ≡ true → P q) where
  pub Keeps-ask_harmless : (q : Query) → is_harmless q ≡ true → Keeps {E = E} P Q (ask q)
  Keeps-ask_harmless q e = Keeps-ask q (harmless q e)

  asks_clock : Keeps {E = E} P Q (ask clock)
  asks_clock = Keeps-ask_harmless clock refl

  asks_pick : (n : ℕ) → Keeps {E = E} P Q (ask (pick n))
  asks_pick n = Keeps-ask_harmless (pick n) refl

  asks_browse : (p : Str) → Keeps {E = E} P Q (ask (browse p))
  asks_browse p = Keeps-ask_harmless (browse p) refl

  asks_download : (p : Str) → Keeps {E = E} P Q (ask (download p))
  asks_download p = Keeps-ask_harmless (download p) refl

  asks_context_error : Keeps {E = E} P Q (ask context_error)
  asks_context_error = Keeps-ask_harmless context_error refl

  pub Keeps-invalidate_paths : (paths : List Str) → Keeps {E = E} P Q (invalidate_paths paths)
  unfolding invalidate_paths
  Keeps-invalidate_paths paths = search keeps_rules

  Keeps-fresh_entry : (k : Str) (o : Option CacheEntry) → Keeps {E = E} P Q (fresh_entry k o)
  unfolding fresh_entry
  Keeps-fresh_entry k none = search keeps_rules
  Keeps-fresh_entry k (some e) = search (keeps_rules, asks_clock, Keeps-invalidate_paths) depth 7

  Keeps-cached_entry : (k : Str) → Keeps {E = E} P Q (cached_entry k)
  unfolding cached_entry
  Keeps-cached_entry k = search (keeps_rules, Keeps-fresh_entry)

  Keeps-drop_expired : (cache : Entries) → Keeps {E = E} P Q (drop_expired cache)
  unfolding drop_expired
  Keeps-drop_expired [] = search keeps_rules
  Keeps-drop_expired ((k, e) ∷ rest) =
      Keeps-bind _ _ asks_clock λ now. search (keeps_rules, Keeps-drop_expired rest)

  Keeps-make_room : (cache : Entries) → Keeps {E = E} P Q (make_room cache)
  unfolding make_room drop_one
  Keeps-make_room cache = search (keeps_rules, Keeps-drop_expired, asks_pick) depth 8

  Keeps-store_browse :
      (p : Str) (nodes : List Node) (devices : Option Devices) (g : ℕ)
      → Keeps {E = E} P Q (store_browse p nodes devices g)
  unfolding store_browse store_current
  Keeps-store_browse p nodes devices g = search (keeps_rules, asks_clock, Keeps-make_room) depth 8

  Keeps-node_of :
      (clean : Str) (devices : Option Devices) (e : BrowseContent)
      → Keeps {E = E} P Q (node_of clean devices e)
  unfolding node_of
  Keeps-node_of clean devices e = record { at = λ w h k. (h, k); grows = Grown-refl }

  Keeps-browse_entry :
      (clean : Str) (devices : Option Devices) (e : BrowseContent) (check : M E (Unit {0}))
      (rest : M E (List Node))
      → Keeps P Q check
      → Keeps P Q rest
      → Keeps P Q (browse_entry clean devices e check rest)
  unfolding browse_entry
  Keeps-browse_entry clean devices e check rest k l = search (keeps_rules, Keeps-node_of) depth 12

  Keeps-browse_entries :
      (check : Str → M E (Unit {0})) (clean : Str) (devices : Option Devices) (seen : List Str)
      (es : List BrowseContent)
      → ((p : Str) → Keeps P Q (check p))
      → Keeps P Q (browse_entries check clean devices seen es)
  unfolding browse_entries
  Keeps-browse_entries check clean devices seen [] k = Keeps-pure []
  Keeps-browse_entries check clean devices seen (e ∷ es) k = Keeps-bind _ _ (Keeps-guard _ _) λ _.
      Keeps-browse_entry clean devices e _ _ (k _)
        (Keeps-browse_entries check clean devices (e.name ∷ seen) es k)

  Keeps-browse_fresh_with :
      (check : Str → M E (Unit {0})) (p : Str)
      → ((p : Str) → Keeps P Q (check p))
      → Keeps P Q (browse_fresh_with check p)
  unfolding browse_fresh_with browse_fresh_from
  Keeps-browse_fresh_with check p k =
      search (keeps_rules, asks_browse, Keeps-browse_entries, k, Keeps-store_browse) depth 14

  pub Keeps-check_context : Keeps {E = E} P Q check_context
  unfolding check_context
  Keeps-check_context = search (keeps_rules, asks_context_error)

  Keeps-cached_or :
      (o : Option CacheEntry) (m : M E (List Node)) → Keeps P Q m → Keeps P Q (cached_or o m)
  unfolding cached_or
  Keeps-cached_or none m k = k
  Keeps-cached_or (some e) m k = search keeps_rules

  Keeps-browse_with :
      (fresh : Str → M E (List Node)) (p : Str)
      → ((p : Str) → Keeps P Q (fresh p))
      → Keeps P Q (browse_with fresh p)
  unfolding browse_with flight
  Keeps-browse_with fresh p k =
      search (keeps_rules, Keeps-check_context, Keeps-cached_entry, Keeps-cached_or, k) depth 12

  Keeps-require_writable_with :
      (list : Str → M E (List Node)) (p : Str)
      → ((p : Str) → Keeps P Q (list p))
      → Keeps P Q (require_writable_with list p)
  unfolding require_writable_with
  Keeps-require_writable_with list p k = search (keeps_rules, k) depth 7

  Keeps-browse_fresh_at : (n : ℕ) (p : Str) → Keeps {E = E} P Q (browse_fresh_at n p)
  unfolding browse_fresh_at
  Keeps-browse_fresh_at zero p = search keeps_rules
  Keeps-browse_fresh_at (suc n) p =
      Keeps-browse_fresh_with _ p
        λ q. Keeps-require_writable_with _ q λ r. Keeps-browse_with _ r (Keeps-browse_fresh_at n)

  pub Keeps-browse_cached : (p : Str) → Keeps {E = E} P Q (browse_cached p)
  unfolding browse_cached browse_fresh
  Keeps-browse_cached p = Keeps-browse_with _ p (Keeps-browse_fresh_at 2)

  pub Keeps-browse_fresh : (p : Str) → Keeps {E = E} P Q (browse_fresh p)
  unfolding browse_fresh
  Keeps-browse_fresh = Keeps-browse_fresh_at 2

  pub Keeps-require_writable : (p : Str) → Keeps {E = E} P Q (require_writable p)
  unfolding require_writable
  Keeps-require_writable p = Keeps-require_writable_with browse_fresh p Keeps-browse_fresh

  pub Keeps-stat_fresh : (p : Str) → Keeps {E = E} P Q (stat_fresh p)
  unfolding stat_fresh
  Keeps-stat_fresh p = search (keeps_rules, Keeps-browse_fresh) depth 7

  pub Keeps-protect_device_root : (p : Str) → Keeps {E = E} P Q (protect_device_root p)
  unfolding protect_device_root
  Keeps-protect_device_root p = search (keeps_rules, Keeps-stat_fresh) depth 7

  pub Keeps-download_remote : (p : Str) → Keeps {E = E} P Q (download_remote p)
  unfolding download_remote
  Keeps-download_remote p = search (keeps_rules, asks_download)

  pub Keeps-verify_upload :
      (p : Str) (size : ℤ) (hash : Str) → Keeps {E = E} P Q (verify_upload p size hash)
  unfolding verify_upload
  Keeps-verify_upload p size hash =
      search (keeps_rules, Keeps-stat_fresh, Keeps-download_remote) depth 10

  pub Keeps-remote_sha256 : (p : Str) (size : ℤ) → Keeps {E = E} P Q (remote_sha256 p size)
  unfolding remote_sha256
  Keeps-remote_sha256 p size = search (keeps_rules, Keeps-download_remote) depth 8
