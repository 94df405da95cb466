-- ===== src/Evs/Listing/Depth.antt =====
-- Two levels of the recursion between BrowseFresh and requireWritable are enough: the entries of
-- the root are never in a read-only folder, so their classification lists nothing.
use idrive_unlimited.Base.{
  Bool, Bool-cases, List, Option, Str, [], ap, arith, contains_any, contains_byte, false, fun_ext,
  if◌then◌else◌, inl, inr, join, negate, refl, suc, true, ℕ, ◌&&◌, ◌∙◌, ◌∷◌, ◌≡◌,
}
use idrive_unlimited.Evs.Cache.{cached_entry, fresh_entry, lookup_entry}
use idrive_unlimited.Evs.Errors.{Error, message, read_only, sentinel}
use idrive_unlimited.Evs.Listing.{
  any_device, browse_entries, browse_fresh, browse_fresh_at, browse_fresh_from, browse_fresh_with,
  browse_with, cached_or, check_context, flight, head_of, require_writable_with, seen_before,
  valid_name,
}
use idrive_unlimited.Evs.Monad.{Env, M, guard, on_option, pure, ◌>>=◌, ◌>>◌}
use idrive_unlimited.Evs.Types.{BrowseContent, Devices, Node}
use idrive_unlimited.Path.{clean_path, is_read_only_path, join_clean, root, rooted_path, slash}
use idrive_unlimited.Path.Clean.{IsName}
use idrive_unlimited.Path.Parent.{join_clean-append}
use idrive_unlimited.Path.Rejoin.{is_read_only_path_single}

no_slash : (n : Str) → contains_any n (slash ∷ 0 ∷ []) ≡ false → contains_byte slash n ≡ false
unfolding contains_any contains_byte
no_slash [] h = refl
no_slash (c ∷ n) h = ground (arith, no_slash n)

pub valid_name-IsName : (n : Str) → valid_name n ≡ true → IsName n
valid_name-IsName n h = ground (arith, no_slash n)

join_clean-root : (n : Str) → IsName n → join_clean root n ≡ rooted_path (n ∷ [])
unfolding join
join_clean-root n good = join_clean-append [] n tt good

root_entry : (n : Str) → valid_name n ≡ true → is_read_only_path (join_clean root n) ≡ false
root_entry n h =
    ap is_read_only_path (join_clean-root n (valid_name-IsName n h))
    ∙ is_read_only_path_single n (valid_name-IsName n h)

module _ {E : Env} where
  unchecked :
      (list : Str → M E (List Node)) (n : Str)
      → valid_name n ≡ true
      → require_writable_with list (join_clean root n) ≡ pure tt
  unfolding require_writable_with
  unchecked list n h = rw (root_entry n h)

  refused :
      (b : Bool) (e : Error) (m n : M E (List Node))
      → b ≡ false
      → (guard b e >> m) ≡ (guard b e >> n)
  unfolding guard ◌>>=◌
  refused true e m n bad = ground arith
  refused false e m n bad = refl

  -- At the root the listing that requireWritable would read plays no part.
  entries_alike :
      (list other : Str → M E (List Node)) (devices : Option Devices) (seen : List Str)
      (es : List BrowseContent)
      → browse_entries (require_writable_with list) root devices seen es
        ≡ browse_entries (require_writable_with other) root devices seen es
  unfolding browse_entries
  entries_alike list other devices seen [] = refl
  entries_alike list other devices seen (e ∷ es) =
      elim (Bool-cases (valid_name e.name && negate (seen_before e.name seen))) [
        | inl good ↦ rw (
          unchecked list e.name (ground arith),
          unchecked other e.name (ground arith),
          entries_alike list other devices (e.name ∷ seen) es,
        )
        | inr bad ↦ refused _ (message "invalid or duplicate name in browse response") _ _ bad
      ]

  root_alike :
      (list other : Str → M E (List Node)) (remote : Str)
      → clean_path remote ≡ root
      → browse_fresh_with (require_writable_with list) remote
        ≡ browse_fresh_with (require_writable_with other) remote
  unfolding browse_fresh_with
  root_alike list other remote at_root =
      ap (λ entries. browse_fresh_from entries remote)
        (fun_ext (λ devices. fun_ext (λ es. rw at_root (entries_alike list other devices [] es))))

  -- One level of the recursion is enough for the root.
  root_depth : (m n : ℕ) → browse_fresh_at {E = E} (suc m) root ≡ browse_fresh_at (suc n) root
  unfolding browse_fresh_at clean_path
  root_depth m n = root_alike _ _ root refl

  browse_with_alike :
      (fresh other : Str → M E (List Node))
      → fresh root ≡ other root
      → browse_with fresh root ≡ browse_with other root
  unfolding browse_with flight ◌>>=◌ check_context on_option cached_entry fresh_entry lookup_entry
      cached_or clean_path
  browse_with_alike fresh other h = rw h

  writable_alike :
      (m n : ℕ) (name : Str)
      → require_writable_with (browse_with (browse_fresh_at {E = E} (suc m))) name
        ≡ require_writable_with (browse_with (browse_fresh_at (suc n))) name
  unfolding require_writable_with
  writable_alike m n name =
      ap
        (λ roots.
          if is_read_only_path name
          then (roots >>= λ nodes.
              guard (negate (any_device (head_of name) nodes)) (sentinel read_only))
          else pure tt)
        (browse_with_alike _ _ (root_depth m n))

  -- The recursion between BrowseFresh and requireWritable ends: two levels of it give what any
  -- larger number of levels gives, for every path and every state of the client and the service.
  pub browse_fresh_at-depth :
      (n : ℕ) (remote : Str) → browse_fresh_at {E = E} (suc (suc n)) remote ≡ browse_fresh remote
  unfolding browse_fresh browse_fresh_at
  browse_fresh_at-depth n remote =
      ap (λ check. browse_fresh_with check remote) (fun_ext (writable_alike n 0))
