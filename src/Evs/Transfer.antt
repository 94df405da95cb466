-- ===== src/Evs/Transfer.antt =====
-- Download, uploadSmall, uploadChunked, getChunkSize of internal/evs/client.go, and verifyUpload,
-- equalHash and fileSHA256 of upload.go, remoteSHA256 of journal.go.
pub mod Verify
pub mod Chunks
use idrive_unlimited.Base.{
  Bool, Option, Str, [], drop, false, hex_encode, if◌then◌else◌, is_empty, leb, length, limit_after,
  ltb, negate, none, pos, some, suc, take, true, zero, ℕ, ℤ, ◌%◌, ◌&&◌, ◌*◌, ◌++◌, ◌+◌, ◌-◌, ◌/◌,
  ◌==◌, ◌=ℤ◌, ◌^◌, ◌||◌, ◌∷◌,
}
use idrive_unlimited.Evs.Api.{check_session_reply, post_form, post_form_raw}
use idrive_unlimited.Evs.Errors.{Error, Result, err, message, not_found, ok, sentinel, unauthorized}
use idrive_unlimited.Evs.Files.{close_file, create_file, write_file}
use idrive_unlimited.Evs.Listing.{stat_fresh}
use idrive_unlimited.Evs.Monad.{Env, M, ask, guard, lift, on_option, pure, raise, ◌>>=◌, ◌>>◌}
use idrive_unlimited.Evs.Types.{
  Download, UploadPart, download, local_read, local_stat, on_disk, random_bytes, streamed,
  unreachable, upload_close, upload_part, upload_session,
}
use idrive_unlimited.Path.{clean_path, parent_dir, path_base, written}

-- getChunkSize; the sizes are int64 values that are not negative.
unfoldable pub get_chunk_size : ℕ → ℕ
get_chunk_size size =
    if ltb 16 (size / 6291456)
    then 16777216
    else if ltb 4 (size / 4194304)
    then 4194304
    else 1048576

unfoldable pub min64 : ℕ → ℕ → ℕ
min64 a b = if ltb a b then a else b

-- int((info.Size() + chunkSize - 1) / chunkSize)
unfoldable pub total_chunks_of : ℕ → ℕ → ℕ
total_chunks_of size chunk = (size + chunk - 1) / chunk

abbrev pub chunk_enable_file_size : ℕ
chunk_enable_file_size = 1048576

abbrev pub dropzone_chunk_size : ℕ
dropzone_chunk_size = 2000000

-- Download's tests of the status.
unfoldable pub opened : Download → Result (Str × Option Error)
opened (unreachable e) = err e
opened (streamed status bytes failure) =
    if status == 404
    then err (sentinel not_found)
    else if status == 401 || status == 403
    then err (sentinel unauthorized)
    else if ltb status 200 || leb 300 status
    then err (message "download: unexpected status")
    else ok (bytes, failure)

-- io.Copy from io.LimitReader: an error behind the limit is not met.
unfoldable pub read_limited : ℕ → Str × Option Error → Result Str
read_limited limit (bytes, failure) =
    if leb limit (length bytes)
    then ok (take limit bytes)
    else elim failure [ none ↦ ok bytes | some e ↦ err e ]

abbrev pub all_equal : Str → Str → Bool
all_equal [] b = true
all_equal (x ∷ a) [] = false
all_equal (x ∷ a) (y ∷ b) = x == y && all_equal a b

unfoldable pub equal_hash : Str → Str → Bool
equal_hash a b = length a == length b && all_equal a b

-- The request for one chunk.
unfoldable pub chunk_part : Str → ℕ → ℕ → ℕ → Str → Str → ℕ → Str → UploadPart
chunk_part remote mod_time size total session uuid index payload =
    let chunk = get_chunk_size size in
    record {
      parent = parent_dir remote;
      file_name = path_base remote;
      lmd = mod_time;
      file_size = size;
      session_id = some session;
      uuid = uuid;
      chunk_index = index;
      chunk_size = chunk;
      chunk_offset = index * chunk;
      total_chunks = total;
      payload = payload;
      total_checksum = none;
    }

-- A buffer of n bytes that is zero where it was not filled.
abbrev pub filled : ℕ → Str → Str
filled zero bytes = []
filled (suc n) [] = 0 ∷ filled n []
filled (suc n) (b ∷ bs) = b % 2 ^ 8 ∷ filled n bs

-- "%x-%x-%x-%x-%x" of the 16 random bytes.
unfoldable pub upload_id : Str → Str
unfolding hex_encode
upload_id buf =
    hex_encode (take 4 buf)
    ++ (b'-'
        ∷ (hex_encode (take 2 (drop 4 buf))
            ++ (b'-'
                ∷ (hex_encode (take 2 (drop 6 buf))
                    ++ (b'-'
                        ∷ (hex_encode (take 2 (drop 8 buf))
                            ++ (b'-' ∷ hex_encode (drop 10 buf))))))))

module _ {E : Env} where
  unfoldable pub download_remote : Str → M E (Str × Option Error)
  download_remote remote = do d ← ask (download (clean_path remote)); lift (opened d)

  unfoldable pub verify_upload : Str → ℤ → Str → M E (Unit {0})
  verify_upload remote size expected = do
    node ← stat_fresh remote
    guard (negate node.is_dir && node.size =ℤ size) (message "uploaded file size mismatch")
    body ← download_remote remote
    bytes ← lift (read_limited (limit_after size) body)
    guard (pos (length bytes) =ℤ size && equal_hash (E.sha256 bytes) expected)
        (message "uploaded file checksum mismatch")

  unfoldable pub remote_sha256 : Str → ℤ → M E Str
  remote_sha256 name size = do
    body ← download_remote name
    bytes ← lift (read_limited (limit_after size) body)
    guard (pos (length bytes) =ℤ size) (message "remote size changed while preserving original")
    pure (hex_encode (E.sha256 bytes))

  unfoldable pub ask_result : {A : Type 0} → M E (Result A) → M E A
  ask_result m = do r ← m; lift r

  unfoldable pub file_sha256 : Str → M E Str
  file_sha256 local = do bytes ← ask_result (ask (local_read local)); pure (E.sha256 bytes)

  unfoldable pub random_upload_id : M E Str
  random_upload_id = do bytes ← ask_result (ask random_bytes); pure (upload_id (filled 16 bytes))

  unfoldable pub upload_small : Str → Str → ℕ → M E (Unit {0})
  upload_small local remote mod_time = do
    info ← ask_result (ask (local_stat local))
    payload ← ask_result (ask (local_read local))
    uuid ← random_upload_id
    r ← ask (
        upload_part (record {
          parent = parent_dir remote;
          file_name = path_base remote;
          lmd = mod_time;
          file_size = info.size;
          session_id = none;
          uuid = uuid;
          chunk_index = 0;
          chunk_size = dropzone_chunk_size;
          chunk_offset = 0;
          total_chunks = 1;
          payload = payload;
          total_checksum = some (hex_encode (E.md5 payload));
        }))
    lift (post_form_raw r)

  -- The loop over the chunks that are left: `left` is what the open file still holds, and the
  -- result is all that was read, which is what the running checksum has seen.
  unfoldable pub upload_chunks : (ℕ → Str → UploadPart) → ℕ → ℕ → ℕ → ℕ → Str → Str → M E Str
  upload_chunks part size chunk zero index left sent = pure sent
  upload_chunks part size chunk (suc n) index left sent = do
    let amount = min64 chunk (size - index * chunk)
    guard (leb amount (length left)) (message "unexpected EOF")
    r ← ask (upload_part (part index (take amount left)))
    lift (post_form_raw r)
    upload_chunks part size chunk n (index + 1) (drop amount left) (sent ++ take amount left)

  unfoldable pub upload_chunked : Str → Str → ℕ → M E (Unit {0})
  upload_chunked local remote mod_time = do
    info ← ask_result (ask (local_stat local))
    contents ← ask_result (ask (local_read local))
    r ← ask (upload_session (path_base remote) info.size)
    session ← lift (post_form r)
    lift (check_session_reply session)
    guard (negate (is_empty session.upload_session_id))
        (message "upload session did not return upload_session_id")
    let chunk = get_chunk_size info.size
    let total = total_chunks_of info.size chunk
    uuid ← random_upload_id
    sent ←
        upload_chunks (chunk_part remote mod_time info.size total session.upload_session_id uuid)
          info.size chunk total 0 contents []
    closed ← ask (
        upload_close (record {
          parent = parent_dir remote;
          file_name = path_base remote;
          session_id = session.upload_session_id;
          lmd = mod_time;
          file_size = info.size;
          total_chunks = total;
          total_checksum = hex_encode (E.md5 sent);
        }))
    lift (post_form_raw closed)

  -- DownloadToFile: io.Copy writes what it read before it meets a read error.
  unfoldable pub download_to_file : Str → Str → M E (Unit {0})
  download_to_file remote local = do
    body ← download_remote remote
    ask_result (ask (on_disk (create_file local)))
    written ← ask (on_disk (write_file local body.0))
    closed ← ask (on_disk (close_file local))
    on_option written.1 (on_option body.1 (lift closed) raise) raise
