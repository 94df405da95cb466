-- ===== src/Evs/Footprint/Names.antt =====
-- The names beside a destination under which an upload or a move keeps bytes, with an id of
-- randomUploadID.
use mathlib.Core.List.{append_assoc}
use idrive_unlimited.Base.{
  All, List, Str, [], ap, arith, codes, contains_byte, drop, false, hex_digit, hex_encode, is_empty,
  join, refl, split, subst, sym, take, ℕ, ◌%◌, ◌++◌, ◌/◌, ◌==◌, ◌=s◌, ◌∙◌, ◌∷◌, ◌≡◌,
}
use idrive_unlimited.Evs.Errors.{ok}
use idrive_unlimited.Evs.Gives.{ok_injective}
use idrive_unlimited.Evs.Journal.{backup_name, backup_prefix, stage_name, stage_prefix}
use idrive_unlimited.Evs.Monad.{Env, World, pure}
use idrive_unlimited.Evs.Runs.{bind_ok}
use idrive_unlimited.Evs.Transfer.{filled, random_upload_id, upload_id}
use idrive_unlimited.Path.{
  clean_path, ext_of, init, join_clean, last, parent_dir, path_base, path_ext, rooted_path, slash,
}
use idrive_unlimited.Path.Clean.{
  IsName, NoSlash, clean_path_lem, names_of, names_of-IsName, split-NoSlash,
}
use idrive_unlimited.Path.Parent.{join_clean-append, parent_dir-append, path_base-append}
use idrive_unlimited.Path.Rejoin.{All-init, IsName-last, init-last-append}

-- The text of 16 bytes that randomUploadID gives.
abbrev pub IsUploadId : Str → Type 0
IsUploadId id = (bytes : Str) × (id ≡ upload_id (filled 16 bytes))

module _ {E : Env} where
  pub random_upload_id-IsUploadId :
      (w : World E) (id : Str) → (random_upload_id w).0 ≡ ok id → IsUploadId id
  unfolding random_upload_id pure
  random_upload_id-IsUploadId w id h =
      let out = bind_ok _ _ w id h in (out.0, sym (ok_injective _ _ out.1.1))

hex_digit_no_slash : (n : ℕ) → (hex_digit n == slash) ≡ false
hex_digit_no_slash n = ground arith

hex_encode-NoSlash : (s : Str) → NoSlash (hex_encode s)
unfolding hex_encode contains_byte
hex_encode-NoSlash [] = refl
hex_encode-NoSlash (b ∷ bs) =
    rw (hex_digit_no_slash (b / 16), hex_digit_no_slash (b % 16)) (hex_encode-NoSlash bs)

pub NoSlash-append : (a b : Str) → NoSlash a → NoSlash b → NoSlash (a ++ b)
unfolding contains_byte
NoSlash-append [] b h k = k
NoSlash-append (x ∷ a) b h k = ground (arith, NoSlash-append a b)

dashed : (a b : Str) → NoSlash b → NoSlash (hex_encode a ++ b'-' ∷ b)
unfolding contains_byte
dashed a b h = NoSlash-append (hex_encode a) (b'-' ∷ b) (hex_encode-NoSlash a) h

upload_id-NoSlash : (buf : Str) → NoSlash (upload_id buf)
unfolding upload_id
upload_id-NoSlash buf =
    let fourth = dashed (take 2 (drop 8 buf)) _ (hex_encode-NoSlash (drop 10 buf)) in
    let third = dashed (take 2 (drop 6 buf)) _ fourth in
    let second = dashed (take 2 (drop 4 buf)) _ third in dashed (take 4 buf) _ second

IsUploadId-NoSlash : (id : Str) → IsUploadId id → NoSlash id
IsUploadId-NoSlash id (bytes, e) = subst NoSlash (sym e) (upload_id-NoSlash (filled 16 bytes))

ext_of-NoSlash : (s : Str) → NoSlash s → NoSlash (ext_of s)
unfolding contains_byte ext_of is_empty
ext_of-NoSlash [] h = h
ext_of-NoSlash (c ∷ cs) h = ground (arith, ext_of-NoSlash cs)

last-NoSlash : (cs : List Str) → All NoSlash cs → NoSlash (last cs)
last-NoSlash [] h = unfold contains_byte in refl
last-NoSlash (c ∷ []) h = h.0
last-NoSlash (c ∷ d ∷ cs) h = last-NoSlash (d ∷ cs) h.1

path_ext-NoSlash : (s : Str) → NoSlash (path_ext s)
unfolding path_ext
path_ext-NoSlash s =
    ext_of-NoSlash (last (split slash s)) (last-NoSlash (split slash s) (split-NoSlash s))

dotted-IsName : (s : Str) → NoSlash s → IsName (b'.' ∷ b'i' ∷ s)
unfolding is_empty ◌=s◌ contains_byte
dotted-IsName s h = rw h refl

-- A name in the folder of the destination, made of a prefix, an id and the extension of the
-- destination.
pub record IsBeside (prefix dest id p : Str) : Type 0 where
  pub folder : parent_dir p ≡ parent_dir dest
  pub base : path_base p ≡ prefix ++ id ++ path_ext dest

parent_names :
    (cs : List Str)
    → All IsName cs
    → (ds : List Str) × All IsName ds × (parent_dir (rooted_path cs) ≡ rooted_path ds)
parent_names [] h = ([], tt, unfold parent_dir join clean_path in refl)
parent_names (c ∷ cs) h = (
  init (c ∷ cs),
  All-init (c ∷ cs) h,
  subst (λ l. parent_dir (rooted_path l) ≡ rooted_path (init (c ∷ cs))) (init-last-append c cs)
      (parent_dir-append (init (c ∷ cs)) (last (c ∷ cs)) (All-init (c ∷ cs) h)
        (IsName-last c cs h)),
)

beside_names :
    (dest p c : Str)
    → clean_path dest ≡ dest
    → IsName c
    → p ≡ join_clean (parent_dir dest) c
    → (parent_dir p ≡ parent_dir dest) × (path_base p ≡ c)
beside_names dest p c clean k e =
    let whole : dest ≡ rooted_path (names_of dest) = sym clean ∙ clean_path_lem dest in
    let (ds, h, parent) = parent_names (names_of dest) (names_of-IsName dest) in
    let above : parent_dir dest ≡ rooted_path ds = ap parent_dir whole ∙ parent in
    let at : p ≡ rooted_path (ds ++ c ∷ []) =
      e ∙ ap (λ q. join_clean q c) above ∙ join_clean-append ds c h k in
    (
      ap parent_dir at ∙ parent_dir-append ds c h k ∙ sym above,
      ap path_base at ∙ path_base-append ds c h k,
    )

named_NoSlash :
    (prefix dest id : Str)
    → NoSlash prefix
    → IsUploadId id
    → NoSlash (prefix ++ id ++ path_ext dest)
named_NoSlash prefix dest id h n = subst NoSlash (sym (append_assoc prefix id (path_ext dest))) (
    NoSlash-append prefix (id ++ path_ext dest) h
      (NoSlash-append id (path_ext dest) (IsUploadId-NoSlash id n) (path_ext-NoSlash dest)))

pub stage_name-IsBeside :
    (dest id p : Str)
    → clean_path dest ≡ dest
    → IsUploadId id
    → p ≡ stage_name dest id
    → IsBeside stage_prefix dest id p
unfolding stage_name
stage_name-IsBeside dest id p clean n e =
    let out =
      beside_names dest p (stage_prefix ++ id ++ path_ext dest) clean
        (dotted-IsName _
          (named_NoSlash (codes "drive-gateway-upload-") dest id (unfold contains_byte in refl) n))
        e in
    record { folder = out.0; base = out.1 }

pub backup_name-IsBeside :
    (dest id p : Str)
    → clean_path dest ≡ dest
    → IsUploadId id
    → p ≡ backup_name dest id
    → IsBeside backup_prefix dest id p
unfolding backup_name
backup_name-IsBeside dest id p clean n e =
    let out =
      beside_names dest p (backup_prefix ++ id ++ path_ext dest) clean
        (dotted-IsName _
          (named_NoSlash (codes "drive-gateway-backup-") dest id (unfold contains_byte in refl) n))
        e in
    record { folder = out.0; base = out.1 }
