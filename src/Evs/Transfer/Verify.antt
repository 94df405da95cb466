-- ===== src/Evs/Transfer/Verify.antt =====
-- What verifyUpload has seen when it accepts a file.
use idrive_unlimited.Base.{
  =ℤ_eq, =ℤ_refl, Bool, Option, Str, [], ap, arith, false, if◌then◌else◌, leb, leb→le, length,
  length-take, limit_after, max_int64, negate, negsuc, none, pos, refl, some, subst, sym, take,
  true, ℕ, ℤ, ◌&&◌, ◌<◌, ◌=ℤ◌, ◌∙◌, ◌∷◌, ◌≡◌, ◌≢◌,
}
use idrive_unlimited.Evs.Errors.{Error, Result, ok}
use idrive_unlimited.Evs.Listing.{stat_fresh}
use idrive_unlimited.Evs.Monad.{Env, World, lift}
use idrive_unlimited.Evs.Runs.{
  bind_ok, bind_runs, guard_holds, guard_ok, guard_passes, guard_runs, lift_ok,
}
use idrive_unlimited.Evs.Transfer.{
  all_equal, download_remote, equal_hash, read_limited, verify_upload,
}
use idrive_unlimited.Evs.Types.{Node}

all_equal_eq : (a b : Str) → length a ≡ length b → all_equal a b ≡ true → a ≡ b
all_equal_eq [] [] l h = refl
all_equal_eq [] (y ∷ b) l h = ground arith
all_equal_eq (x ∷ a) [] l h = ground arith
all_equal_eq (x ∷ a) (y ∷ b) l h = ground (arith, all_equal_eq a b)

-- Two hashes that the comparison accepts are the same bytes.
pub equal_hash_eq : (a b : Str) → equal_hash a b ≡ true → a ≡ b
unfolding equal_hash
equal_hash_eq a b h = all_equal_eq a b (ground arith) (ground arith)

ok_eq {ℓ} : {A : Type ℓ} {a b : A} → ok a ≡ ok b → a ≡ b
ok_eq h = cc

limited :
    (reached : Bool) (limit : ℕ) (sent bytes : Str) (r : Result Str)
    → leb limit (length sent) ≡ reached
    → (if reached then ok (take limit sent) else r) ≡ ok bytes
    → limit ≢ length bytes
    → r ≡ ok bytes
limited true limit sent bytes r l h n =
    let exact = ap length (ok_eq h) in
    absurd (n (omega (arith, length-take limit sent, leb→le limit (length sent) l)))
limited false limit sent bytes r l h n = h

pos_eq : {m n : ℕ} → pos m ≡ pos n → m ≡ n
pos_eq h = cc

limit_after-ne : (n m : ℕ) → pos m ≡ pos n → limit_after (pos n) ≢ m
unfolding limit_after
limit_after-ne n m l h = let same = pos_eq l in ground arith

-- The limit is one byte behind the size, so what has the wanted size is all that was sent.
pub read_limited-whole :
    (size : ℤ) (body : Str × Option Error) (bytes : Str)
    → read_limited (limit_after size) body ≡ ok bytes
    → pos (length bytes) ≡ size
    → body ≡ (bytes, none)
unfolding read_limited
read_limited-whole (pos n) (sent, none) bytes h l =
    let same = limited _ (limit_after (pos n)) sent bytes _ refl h (limit_after-ne n _ l) in
    ap (λ s. (s, none)) (ok_eq same)
read_limited-whole (pos n) (sent, some e) bytes h l =
    let wrong = limited _ (limit_after (pos n)) sent bytes _ refl h (limit_after-ne n _ l) in cc
read_limited-whole (negsuc n) body bytes h l = cc

pub read_limited-all :
    (n : ℕ) (bytes : Str)
    → length bytes ≡ n
    → n < max_int64
    → read_limited (limit_after (pos n)) (bytes, none) ≡ ok bytes
unfolding read_limited limit_after
read_limited-all n bytes l h = ground arith

all_equal_refl : (a : Str) → all_equal a a ≡ true
all_equal_refl [] = refl
all_equal_refl (x ∷ a) = ground (arith, all_equal_refl a)

pub equal_hash_refl : (a : Str) → equal_hash a a ≡ true
unfolding equal_hash
equal_hash_refl a = ground (arith, all_equal_refl a)

both_true : {a b : Bool} → a ≡ true → b ≡ true → (a && b) ≡ true
both_true h k = rw (h, k) refl

same_int : {a b : ℤ} → a ≡ b → (a =ℤ b) ≡ true
same_int {b = b} h = subst (λ a. (a =ℤ b) ≡ true) (sym h) (=ℤ_refl b)

same_bytes : {a b : Str} → a ≡ b → equal_hash a b ≡ true
same_bytes {b = b} h = subst (λ a. equal_hash a b ≡ true) (sym h) (equal_hash_refl b)

module _ {E : Env} where
  -- What has to hold of a file on the service, from a given world on.
  pub record Verified (remote : Str) (size : ℤ) (expected : Str) (w : World E) : Type 0 where
    node : Node
    listed : (stat_fresh remote w).0 ≡ ok node
    is_file : node.is_dir ≡ false
    same_size : node.size ≡ size
    bytes : Str
    sent : (download_remote remote (stat_fresh remote w).1).0 ≡ ok (bytes, none)
    all_sent : pos (length bytes) ≡ size
    same_hash : E.sha256 bytes ≡ expected

  -- verifyUpload accepts a file only if a fresh listing shows a file of the wanted size and the
  -- bytes that the service then sends have that size and the wanted SHA-256 hash.
  pub verify_upload_sound :
      (remote : Str) (size : ℤ) (expected : Str) (w : World E)
      → (verify_upload remote size expected w).0 ≡ ok tt
      → Verified remote size expected w
  unfolding verify_upload
  verify_upload_sound remote size expected w h =
      let (node, (listed, h1)) = bind_ok (stat_fresh remote) _ w tt h in
      let (fits, h2) = guard_ok (negate node.is_dir && node.size =ℤ size) _ _ _ tt h1 in
      let (body, (sent, h3)) = bind_ok (download_remote remote) _ _ tt h2 in
      let (bytes, (limited, h4)) = lift_ok (read_limited (limit_after size) body) _ _ tt h3 in
      let good =
        guard_holds (pos (length bytes) =ℤ size && equal_hash (E.sha256 bytes) expected) _ _ h4 in
      let sized : pos (length bytes) ≡ size = =ℤ_eq _ _ (ground arith) in
      let whole : body ≡ (bytes, none) = read_limited-whole size body bytes limited sized in
      record {
        node = node;
        listed = listed;
        is_file = ground arith;
        same_size = =ℤ_eq _ _ (ground arith);
        bytes = bytes;
        sent = sent ∙ ap ok whole;
        all_sent = sized;
        same_hash = equal_hash_eq _ _ (ground arith);
      }

  -- A file that a fresh listing shows with the wanted size, and of which the service sends that
  -- many bytes with the wanted hash and then the end of the file, is accepted, if its size is less
  -- than the largest int64.
  pub verify_upload_complete :
      (remote : Str) (n : ℕ) (expected : Str) (w : World E)
      → n < max_int64
      → Verified remote (pos n) expected w
      → (verify_upload remote (pos n) expected w).0 ≡ ok tt
  unfolding verify_upload lift
  verify_upload_complete remote n expected w small v =
      let fits : (negate v.node.is_dir && v.node.size =ℤ pos n) ≡ true =
        rw v.is_file (same_int v.same_size) in
      let read : read_limited (limit_after (pos n)) (v.bytes, none) ≡ ok v.bytes =
        read_limited-all n v.bytes (pos_eq v.all_sent) small in
      ap (λ r. r.0)
        (bind_runs (stat_fresh remote) _ w v.node v.listed
          ∙ guard_runs _ _ _ _ fits
          ∙ bind_runs (download_remote remote) _ _ _ v.sent
          ∙ bind_runs (lift (read_limited (limit_after (pos n)) (v.bytes, none))) _ _ _ read)
      ∙ guard_passes _ _ _ (both_true (same_int v.all_sent) (same_bytes v.same_hash))
