-- ===== src/Evs/Transfer/Chunks.antt =====
-- How uploadChunked cuts a file, and what it sends.
use mathlib.Core.List.{append-nil, append_assoc}
use idrive_unlimited.Base.{
  All, Bool-cases, List, Str, [], ap, arith, drop, inl, inr, leb, length, length-drop, length-take,
  ltb, refl, suc, sym, take, take-append-drop, true, zero, ℕ, ◌*◌, ◌++◌, ◌+◌, ◌-◌, ◌<◌, ◌∙◌, ◌∷◌,
  ◌≡◌, ◌≤◌,
}
use idrive_unlimited.Evs.Api.{post_form_raw}
use idrive_unlimited.Evs.Errors.{ok}
use idrive_unlimited.Evs.Monad.{Env, M, World, ask, lift, pure}
use idrive_unlimited.Evs.Runs.{bind_runs, guard_runs}
use idrive_unlimited.Evs.Transfer.{get_chunk_size, min64, total_chunks_of, upload_chunks}
use idrive_unlimited.Evs.Types.{Query, UploadPart, upload_part}

-- The consecutive pieces of the given size, as many as wanted.
abbrev pub pieces : ℕ → ℕ → Str → List Str
pieces chunk zero bytes = []
pieces chunk (suc n) bytes = take chunk bytes ∷ pieces chunk n (drop chunk bytes)

abbrev pub concat : List Str → Str
concat [] = []
concat (p ∷ ps) = p ++ concat ps

-- The questions after one request for each piece, with consecutive indices, the last one first.
abbrev pub asked : (ℕ → Str → UploadPart) → ℕ → List Str → List Query → List Query
asked part index [] old = old
asked part index (p ∷ ps) old = asked part (index + 1) ps (upload_part (part index p) ∷ old)

drop_all : (n : ℕ) (bytes : Str) → length bytes ≤ n → drop n bytes ≡ []
drop_all zero [] h = refl
drop_all zero (c ∷ bytes) h = ground arith
drop_all (suc n) [] h = refl
drop_all (suc n) (c ∷ bytes) h = drop_all n bytes (omega (arith, h))

concat-pieces :
    (chunk n : ℕ) (bytes : Str) → length bytes ≤ n * chunk → concat (pieces chunk n bytes) ≡ bytes
concat-pieces chunk zero [] h = refl
concat-pieces chunk zero (c ∷ bytes) h = ground arith
concat-pieces chunk (suc n) bytes h =
    rw (concat-pieces chunk n (drop chunk bytes) (omega (arith, h, length-drop chunk bytes)))
      (take-append-drop chunk bytes)

-- A piece that is sent: not empty, and no longer than a chunk.
abbrev pub IsPiece : ℕ → Str → Type 0
IsPiece chunk p = (0 < length p) × (length p ≤ chunk)

pieces-IsPiece :
    (chunk n : ℕ) (bytes : Str)
    → 0 < chunk
    → n * chunk < length bytes + chunk
    → All (IsPiece chunk) (pieces chunk n bytes)
pieces-IsPiece chunk zero bytes c h = tt
pieces-IsPiece chunk (suc n) bytes c h = (
  (omega (arith, length-take chunk bytes), omega (arith, length-take chunk bytes)),
  pieces-IsPiece chunk n (drop chunk bytes) c (omega (arith, length-drop chunk bytes)),
)

length-pieces : (chunk n : ℕ) (bytes : Str) → length (pieces chunk n bytes) ≡ n
length-pieces chunk zero bytes = refl
length-pieces chunk (suc n) bytes = ap suc (length-pieces chunk n (drop chunk bytes))

take_all : (n : ℕ) (bytes : Str) → length bytes ≤ n → take n bytes ≡ bytes
take_all zero [] h = refl
take_all zero (c ∷ bytes) h = ground arith
take_all (suc n) [] h = refl
take_all (suc n) (c ∷ bytes) h = ap (λ s. c ∷ s) (take_all n bytes (omega (arith, h)))

take_amount :
    (size chunk index : ℕ) (left : Str)
    → length left ≡ size - index * chunk
    → take (min64 chunk (size - index * chunk)) left ≡ take chunk left
unfolding min64
take_amount size chunk index left l = elim (Bool-cases (ltb chunk (size - index * chunk))) [
  | inl full ↦ rw full refl
  | inr short ↦
      rw (short, sym l) (take_all _ left (omega arith) ∙ sym (take_all chunk left (ground arith)))
]

drop_amount :
    (size chunk index : ℕ) (left : Str)
    → length left ≡ size - index * chunk
    → drop (min64 chunk (size - index * chunk)) left ≡ drop chunk left
unfolding min64
drop_amount size chunk index left l = elim (Bool-cases (ltb chunk (size - index * chunk))) [
  | inl full ↦ rw full refl
  | inr short ↦
      rw (short, sym l) (drop_all _ left (omega arith) ∙ sym (drop_all chunk left (ground arith)))
]

amount_fits :
    (size chunk index : ℕ) (left : Str)
    → length left ≡ size - index * chunk
    → leb (min64 chunk (size - index * chunk)) (length left) ≡ true
unfolding min64
amount_fits size chunk index left l = ground arith

length-left :
    (size chunk index : ℕ) (left : Str)
    → length left ≡ size - index * chunk
    → length (drop chunk left) ≡ size - (index + 1) * chunk
length-left size chunk index left l = omega (arith, length-drop chunk left)

-- The service answers every request for a chunk with success.
abbrev pub Accepts : Env → Type 0
Accepts E = (p : UploadPart) (s : E.State) → post_form_raw (E.respond (upload_part p) s).0 ≡ ok tt

module _ {E : Env} where
  upload_chunks-runs :
      (part : ℕ → Str → UploadPart) (size chunk n index : ℕ) (left sent : Str) (w : World E)
      → Accepts E
      → length left ≡ size - index * chunk
      → length left ≤ n * chunk
      → ((upload_chunks part size chunk n index left sent w).0 ≡ ok (sent ++ left))
        × ((upload_chunks part size chunk n index left sent w).1.trace
            ≡ asked part index (pieces chunk n left) w.trace)
  unfolding upload_chunks ask lift pure
  upload_chunks-runs part size chunk zero index [] sent w a l h =
      (ap ok (sym (append-nil sent)), refl)
  upload_chunks-runs part size chunk zero index (c ∷ left) sent w a l h = ground arith
  upload_chunks-runs part size chunk (suc n) index left sent w a l h =
      let amount = min64 chunk (size - index * chunk) in
      let q = upload_part (part index (take amount left)) in
      let w1 : World E = (ask q w).1 in
      let here =
        guard_runs (leb amount (length left)) _ _ w (amount_fits size chunk index left l)
        ∙ bind_runs (ask q) _ w _ refl
        ∙ bind_runs (lift _) _ w1 tt (a _ w.env) in
      let sent_here = take_amount size chunk index left l in
      let left_here = drop_amount size chunk index left l in
      let rest =
        upload_chunks-runs part size chunk n (index + 1) (drop amount left)
          (sent ++ take amount left) w1 a (rw left_here (length-left size chunk index left l))
          (rw left_here (omega (arith, length-drop chunk left))) in
      (
        ap (λ r. r.0) here
            ∙ rest.0
            ∙ ap ok (append_assoc sent _ _ ∙ ap (λ s. sent ++ s) (take-append-drop amount left)),
        ap (λ r. r.1.trace) here ∙ rest.1 ∙ rw (sent_here, left_here) refl,
      )

total_chunks_of-bounds :
    (size : ℕ)
    → (size ≤ total_chunks_of size (get_chunk_size size) * get_chunk_size size)
      × (total_chunks_of size (get_chunk_size size) * get_chunk_size size
          < size + get_chunk_size size)
unfolding total_chunks_of get_chunk_size
total_chunks_of-bounds size = (ground arith, ground arith)

get_chunk_size-positive : (size : ℕ) → 0 < get_chunk_size size
unfolding get_chunk_size
get_chunk_size-positive size = ground arith

-- The pieces into which a file is cut.
abbrev pub file_pieces : Str → List Str
file_pieces contents =
    let size = length contents in
    pieces (get_chunk_size size) (total_chunks_of size (get_chunk_size size)) contents

module _ {E : Env} where
  -- The loop over a whole file, as uploadChunked starts it.
  abbrev pub file_chunks : (ℕ → Str → UploadPart) → Str → M E Str
  file_chunks part contents =
      let size = length contents in
      let chunk = get_chunk_size size in
      upload_chunks part size chunk (total_chunks_of size chunk) 0 contents []

  pub record SendsFile (part : ℕ → Str → UploadPart) (contents : Str) (w : World E) : Type 0 where
    all_read : (file_chunks part contents w).0 ≡ ok contents
    in_order : (file_chunks part contents w).1.trace ≡ asked part 0 (file_pieces contents) w.trace
    complete : concat (file_pieces contents) ≡ contents
    sized : All (IsPiece (get_chunk_size (length contents))) (file_pieces contents)
    count :
        length (file_pieces contents)
        ≡ total_chunks_of (length contents) (get_chunk_size (length contents))

  -- Where the service accepts every chunk, the loop of uploadChunked ends with success, has read
  -- the whole file, and has asked one request for each piece of the file in order, with the
  -- indices from 0 on; the pieces joined are the file, none is empty or longer than the chunk
  -- size, and there are as many as the total that every request states.
  pub upload_chunks-SendsFile :
      (part : ℕ → Str → UploadPart) (contents : Str) (w : World E)
      → Accepts E
      → SendsFile part contents w
  upload_chunks-SendsFile part contents w a =
      let size = length contents in
      let chunk = get_chunk_size size in
      let bounds = total_chunks_of-bounds size in
      let runs =
        upload_chunks-runs part size chunk (total_chunks_of size chunk) 0 contents [] w a
          (omega arith) bounds.0 in
      record {
        all_read = runs.0;
        in_order = runs.1;
        complete = concat-pieces chunk _ contents bounds.0;
        sized = pieces-IsPiece chunk _ contents (get_chunk_size-positive size) bounds.1;
        count = length-pieces chunk _ contents;
      }
