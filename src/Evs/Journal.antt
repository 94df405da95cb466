-- ===== src/Evs/Journal.antt =====
-- The recovery journal: internal/evs/journal.go. A record names one transaction; recovery brings
-- it to an end, forwards if its destination holds the new bytes and backwards if not.
use idrive_unlimited.Base.{
  Bool, List, Option, Str, String, [], codes, exceeds, false, has_suffix, hex_decode, if◌then◌else◌,
  is_empty, is_negative, leb, length, negate, none, pos, some, true, ℕ, ℤ, ◌&&◌, ◌++◌, ◌+◌, ◌==◌,
  ◌=s◌, ◌=ℤ◌, ◌||◌, ◌∷◌,
}
use idrive_unlimited.Evs.Errors.{Result, err, is, message, not_exist, not_found, ok, wrap}
use idrive_unlimited.Evs.Listing.{stat_fresh}
use idrive_unlimited.Evs.Monad.{
  Env, M, ask, attempt, get_journaling, guard, lift, pure, raise, set_tx, when, ◌>>=◌, ◌>>◌,
}
use idrive_unlimited.Evs.Mutations.{delete, rename}
use idrive_unlimited.Evs.Transfer.{ask_result, verify_upload}
use idrive_unlimited.Evs.Types.{
  Node, UploadRecord, journal_info, journal_read, read_journal, remove_record, save_record,
  sync_journal,
}
use idrive_unlimited.Path.{clean_path, join_clean, mutable_path, parent_dir, path_ext, root}

abbrev pub is_ok : {A : Type 0} → Result A → Bool
is_ok (ok a) = true
is_ok (err e) = false

abbrev pub dash : ℕ
dash = b'-'

-- strings.ReplaceAll(id, "-", "")
unfoldable pub without_dashes : Str → Str
without_dashes [] = []
without_dashes (c ∷ cs) = let rest = without_dashes cs in if c == dash then rest else c ∷ rest

abbrev pub stage_prefix : Str
stage_prefix = codes ".idrive-gateway-upload-"

abbrev pub backup_prefix : Str
backup_prefix = codes ".idrive-gateway-backup-"

-- The names beside a destination under which new and old bytes are kept.
unfoldable pub stage_name : Str → Str → Str
stage_name dest id = join_clean (parent_dir dest) (stage_prefix ++ id ++ path_ext dest)

unfoldable pub backup_name : Str → Str → Str
backup_name dest id = join_clean (parent_dir dest) (backup_prefix ++ id ++ path_ext dest)

-- 2_000_000_000
abbrev pub max_upload_size : ℕ
max_upload_size = 2000000000

abbrev pub has_length : ℕ → Option Str → Bool
has_length n none = false
has_length n (some bytes) = length bytes == n

unfoldable pub valid_identity : UploadRecord → Str → Bool
unfolding without_dashes hex_decode ◌=s◌
valid_identity r file =
    has_length 16 (hex_decode (without_dashes r.id))
    && (length r.id == 36)
    && (file =s r.id ++ codes ".json")
    && (r.version =ℤ pos 1)

unfoldable pub valid_paths : UploadRecord → Bool
valid_paths r =
    (r.dest =s clean_path r.dest)
    && negate (r.dest =s root)
    && (negate (is_empty r.source) || r.stage =s stage_name r.dest r.id)
    && (r.backup =s backup_name r.dest r.id)

unfoldable pub valid_source : UploadRecord → Bool
valid_source r =
    is_empty r.source
    || ((r.source =s clean_path r.source)
        && negate (r.source =s root)
        && negate (r.source =s r.dest)
        && negate (r.source =s r.backup)
        && (r.stage =s r.source)
        && r.ready
        && mutable_path r.source)

unfoldable pub valid_payload : UploadRecord → Bool
unfolding hex_decode is_empty
valid_payload r =
    has_length 32 (hex_decode r.hash)
    && negate (is_negative r.size)
    && negate (is_empty r.source && exceeds r.size max_upload_size)

unfoldable pub valid_original : UploadRecord → Bool
unfolding hex_decode
valid_original r =
    negate (r.ready && r.had_original)
    || (has_length 32 (hex_decode r.original_hash) && negate (is_negative r.original_size))

unfoldable pub validate_upload_record : UploadRecord → Str → Result (Unit {0})
unfolding valid_identity valid_paths valid_source valid_payload valid_original
validate_upload_record r file =
    if negate (valid_identity r file)
    then err (message "unknown record identity or version")
    else if negate (valid_paths r)
    then err (message "invalid transaction paths")
    else if negate (valid_source r)
    then err (message "invalid move source")
    else if negate (valid_payload r)
    then err (message "invalid payload fingerprint")
    else if negate (valid_original r)
    then err (message "invalid original fingerprint")
    else ok tt

-- The bytes of a recorded hash; validated records hold well-formed ones.
unfoldable pub known_hash : Str → Str
known_hash text = elim (hex_decode text) [ none ↦ [] | some bytes ↦ bytes ]

-- A wrapped error in place of the error.
unfoldable pub wrapped : {A : Type 0} → String → Result A → Result A
wrapped text (ok a) = ok a
wrapped text (err e) = err (wrap text e)

-- A recorded hash that does not decode is an error here.
unfoldable pub decode_hash : Str → Result Str
decode_hash text = elim (hex_decode text) [
  | none ↦ err (message "encoding/hex: invalid byte")
  | some bytes ↦ ok bytes
]

unfoldable pub tolerate_missing : Result (Unit {0}) → Result (Unit {0})
tolerate_missing (ok _) = ok tt
tolerate_missing (err e) = if is e not_exist then ok tt else err e

unfoldable pub known_target : Result Node → Result (Unit {0})
known_target (ok node) = ok tt
known_target (err e) = if is e not_found then ok tt else err e

unfoldable pub decoded_record : Option UploadRecord → Result UploadRecord
decoded_record none = err (message "decode recovery journal")
decoded_record (some r) = ok r

module _ {E : Env} where
  unfoldable pub save_upload : UploadRecord → M E (Unit {0})
  save_upload r = do journaling ← get_journaling; when journaling (ask_result (ask (save_record r)))

  unfoldable pub forget_upload : UploadRecord → M E (Unit {0})
  forget_upload r = do
    journaling ← get_journaling
    when journaling (do
      removed ← ask (remove_record r.id)
      lift (tolerate_missing removed)
      ask_result (ask sync_journal))

  -- A result with the error wrapped.
  unfoldable pub wrapping : String → M E (Unit {0}) → M E (Unit {0})
  wrapping text m = do r ← attempt m; lift (wrapped text r)

  -- removeKnown from the lookup on.
  unfoldable pub remove_found : Str → ℤ → Str → Result Node → M E (Unit {0})
  remove_found name size hash (err e) = if is e not_found then pure tt else raise e
  remove_found name size hash (ok node) = do
    expected ← lift (decode_hash hash)
    wrapping "recovery file changed; retained" (verify_upload name size expected)
    delete name

  unfoldable pub remove_known : Str → ℤ → Str → M E (Unit {0})
  remove_known name size hash = do
    target ← attempt (stat_fresh name)
    remove_found name size hash target

  unfoldable pub delete_found : Str → Result Node → M E (Unit {0})
  delete_found name (ok node) = delete name
  delete_found name (err e) = if is e not_found then pure tt else raise e

  -- A record that is not ready: the upload under its stage name may be incomplete.
  unfoldable pub recover_staged : UploadRecord → M E Bool
  recover_staged r = do
    staged ← attempt (stat_fresh r.stage)
    delete_found r.stage staged
    forget_upload r
    pure false

  unfoldable pub recover_committed : UploadRecord → M E Bool
  recover_committed r = do
    save_upload r
    when r.had_original (remove_known r.backup r.original_size r.original_hash)
    when (is_empty r.source) (remove_known r.stage r.size r.hash)
    forget_upload r
    pure true

  -- The original back under the destination's name, if it is not there.
  unfoldable pub restore_original : UploadRecord → Result Node → M E (Unit {0})
  restore_original r (ok node) = pure tt
  restore_original r (err e) = do
    verify_upload r.backup r.original_size (known_hash r.original_hash)
    rename r.backup r.dest

  unfoldable pub settle_destination : UploadRecord → Result Node → M E (Unit {0})
  settle_destination r target =
      if r.had_original
      then (do
        restore_original r target
        wrapping "destination differs from both recorded versions; all files retained"
            (verify_upload r.dest r.original_size (known_hash r.original_hash)))
      else guard (negate (is_ok target)) (message "unexpected destination bytes")

  unfoldable pub roll_back : UploadRecord → M E Bool
  roll_back r = do
    when (negate (is_empty r.source))
        (wrapping "move outcome is uncertain" (verify_upload r.source r.size (known_hash r.hash)))
    target ← attempt (stat_fresh r.dest)
    lift (known_target target)
    settle_destination r target
    when (is_empty r.source) (remove_known r.stage r.size r.hash)
    when r.had_original (remove_known r.backup r.original_size r.original_hash)
    forget_upload r
    pure false

  unfoldable pub recover_uncommitted : UploadRecord → M E Bool
  recover_uncommitted r = do
    arrived ← attempt (verify_upload r.dest r.size (known_hash r.hash))
    if is_ok arrived && (is_empty r.source || r.move_started)
        then (do let done = record r { committed = true }; save_upload done; recover_committed done)
        else roll_back r

  -- recoverUpload: whether the transaction ended committed.
  unfoldable pub recover_upload : UploadRecord → M E Bool
  recover_upload r =
      if negate r.ready
      then recover_staged r
      else if r.committed
      then recover_committed r
      else recover_uncommitted r

  -- One file of the journal.
  unfoldable pub recover_file : Str → M E (Unit {0})
  recover_file name = do
    info ← ask_result (ask (journal_info name))
    guard (info.regular && leb info.size 16384) (message "invalid recovery journal")
    contents ← ask_result (ask (journal_read name))
    r ← lift (decoded_record contents)
    lift (wrapped "invalid recovery journal" (validate_upload_record r name))
    set_tx r
    outcome ← attempt (recover_upload r)
    done ← lift (wrapped "recovery needs attention" outcome)
    pure tt

  unfoldable pub recover_files : List Str → ℕ → M E ℕ
  recover_files [] count = pure count
  recover_files (name ∷ names) count =
      if has_suffix name (codes ".json")
      then (do recover_file name; recover_files names (count + 1))
      else recover_files names count

  unfoldable pub recover_pending : M E ℕ
  recover_pending = do
    journaling ← get_journaling
    if journaling then (do names ← ask_result (ask read_journal); recover_files names 0) else pure 0
