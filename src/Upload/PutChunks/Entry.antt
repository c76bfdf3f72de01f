-- ===== src/Upload/PutChunks/Entry.antt =====
-- `chunkReq` of node/putChunksHandle.go, along the whole handler.
use de_oss.Base.{
  ◌==◌, ◌<>◌, ℕ, map, length, eqb, ◌≡◌, ap, String, List, [], Option, arith, string_eq,
}
use de_oss.Base.Dict
use de_oss.Access.{AccessList}
use de_oss.Access.Library.{Crypto, Bytes}
use de_oss.Chain.{Chain, PublicKey, Segment}
use de_oss.Chunks.Save.{Library, ChunksInfo}
use de_oss.Http.{
  Body, keeps_bind, modify, ◌>>◌, ◌>>=◌, reply_if, status_bad_request, status_ok,
  status_internal_server_error,
}
use de_oss.Access.Params.{UserParams, check_user_params}
use de_oss.Admission.{check_capacity, internal_error}
use de_oss.Chunks.Accept.{check_index}
use de_oss.Upload.Dedup.{Upload}
use de_oss.Server.{Server, on_dir}
use de_oss.Upload.Form.{unescape_name}
use de_oss.Upload.Process.{
  Tools, Whole, ProcessFaults, file_process, stat_file, cut_file, deduplicate, keep_file, reuse,
  move_files, record_upload, upload_of, rebase_segment, to_cache,
}
use de_oss.Upload.PutChunks.{
  ChunkUpload, ChunkFaults, enter, limit_uploads, load_info, receive_chunk, process_whole,
  put_chunks, store_upload, admit_upload, chunk_request, or_internal,
}

module _ (C : Chain) {K : Type 0} (T : Tools K) where
  abbrev IsFree : Server C.State K → Type 0
  IsFree s = s.chunk_req ≡ []

  module _ (f : ProcessFaults) where
    stat_file-IsFree :
        (w : Whole) (s : Server C.State K) → IsFree s → IsFree (stat_file C T f w s).1
    unfolding stat_file
    stat_file-IsFree w s q = ground (arith, q)

    cut_file-IsFree : (w : Whole) (s : Server C.State K) → IsFree s → IsFree (cut_file C T f w s).1
    unfolding cut_file
    cut_file-IsFree w s q = q

    deduplicate-IsFree :
        (u : Upload) (s : Server C.State K) → IsFree s → IsFree (deduplicate C T f u s).1
    unfolding deduplicate
    deduplicate-IsFree u s q = ground (arith, q)

    reuse-IsFree :
        (w : Whole) (h : String) (s : Server C.State K) → IsFree s → IsFree (reuse C T f w h s).1
    unfolding reuse
    reuse-IsFree w h s q = ground (arith, q)

    move_files-IsFree :
        (w : Whole) (h : String) (s : Server C.State K)
        → IsFree s
        → IsFree (move_files C T f w h s).1
    unfolding move_files
    move_files-IsFree w h s q = ground (arith, q)

    record_upload-IsFree :
        (u : Upload) (s : Server C.State K) → IsFree s → IsFree (record_upload C T f u s).1
    unfolding record_upload
    record_upload-IsFree u s q = ground (arith, q)

    keep_file-IsFree :
        (w : Whole) (segments : List Segment) (h : String) (size : ℕ) (s : Server C.State K)
        → IsFree s
        → IsFree (keep_file C T f w segments h size s).1
    unfolding keep_file
    keep_file-IsFree w segments h size =
        let u = upload_of C T f w (map (rebase_segment C T f h) segments) h size in
        let last = modify (to_cache C T f w.account h) >> record_upload C T f u in
        keeps_bind IsFree (reuse C T f w h) (λ _. move_files C T f w h >> last) (reuse-IsFree w h)
          (λ _.
            keeps_bind IsFree (move_files C T f w h) (λ _. last) (move_files-IsFree w h)
              (λ _ s. record_upload-IsFree u (to_cache C T f w.account h s)))

    file_process-IsFree :
        (w : Whole) (s : Server C.State K) → IsFree s → IsFree (file_process C T f w s).1
    unfolding file_process
    file_process-IsFree w =
        let u =
          λ (b : Bytes) (cut : List Segment × String). upload_of C T f w cut.0 cut.1 (length b) in
        let keep =
          λ (b : Bytes) (cut : List Segment × String). keep_file C T f w cut.0 cut.1 (length b) in
        let judge =
          λ (b : Bytes) (cut : List Segment × String). deduplicate C T f (u b cut) >> keep b cut in
        let check = λ (b : Bytes).
          reply_if (eqb (length b) 0) status_bad_request (Body.text "BodyErr_EmptyFile") in
        keeps_bind IsFree (stat_file C T f w) (λ b. check b >> (cut_file C T f w >>= judge b))
          (stat_file-IsFree w)
          (λ b.
            keeps_bind IsFree (check b) (λ _. cut_file C T f w >>= judge b) (λ s q. q)
              (λ _. keeps_bind IsFree (cut_file C T f w) (judge b) (cut_file-IsFree w) (λ cut.
                keeps_bind IsFree (deduplicate C T f (u b cut)) (λ _. keep b cut)
                  (deduplicate-IsFree (u b cut)) (λ _. keep_file-IsFree w cut.0 cut.1 (length b)))))

module _ (C : Chain) {K : Type 0} (T : Tools K) (c : Crypto) (l : AccessList) (own : PublicKey)
    (lib : Library) (unescape sha256 : String → Option String) (f : ChunkFaults) where
  enter-IsFree :
      (r : ChunkUpload) (s : Server C.State K)
      → IsFree C T s
      → IsFree C T (enter C T c l own lib unescape sha256 f r s).1
  unfolding enter
  enter-IsFree r s q = ground (arith, q, Dict.lookup-nil {V = ℕ} r.params.account)

  limit_uploads-IsFree :
      (r : ChunkUpload) (s : Server C.State K)
      → IsFree C T s
      → IsFree C T (limit_uploads C T c l own lib unescape sha256 f r s).1
  unfolding limit_uploads
  limit_uploads-IsFree r s q = ground (arith, q)

  load_info-IsFree :
      (r : ChunkUpload) (pkey : PublicKey) (filename dir : String) (s : Server C.State K)
      → IsFree C T s
      → IsFree C T (load_info C T c l own lib unescape sha256 f r pkey filename dir s).1
  unfolding load_info
  load_info-IsFree r pkey filename dir s q = ground (arith, q)

  receive_chunk-IsFree :
      (r : ChunkUpload) (pkey : PublicKey) (filename dir : String) (i : ChunksInfo)
      (s : Server C.State K)
      → IsFree C T s
      → IsFree C T (receive_chunk C T c l own lib unescape sha256 f r pkey filename dir i s).1
  unfolding receive_chunk
  receive_chunk-IsFree r pkey filename dir i s q = ground (arith, q)

  process_whole-IsFree :
      (r : ChunkUpload) (pkey : PublicKey) (filename dir : String) (s : Server C.State K)
      → IsFree C T s
      → IsFree C T (process_whole C T c l own lib unescape sha256 f r pkey filename dir s).1
  unfolding process_whole Dict.erase
  process_whole-IsFree r pkey filename dir s q =
      file_process-IsFree C T f.process _ _ (ap (Dict.erase r.params.account) q)

  store_upload-IsFree :
      (r : ChunkUpload) (filename : String) (pkey : PublicKey) (dir : String) (s : Server C.State K)
      → IsFree C T s
      → IsFree C T (store_upload C T c l own lib unescape sha256 f r filename pkey dir s).1
  unfolding store_upload
  store_upload-IsFree r filename pkey dir =
      let Q = IsFree C T in
      let load = load_info C T c l own lib unescape sha256 f r pkey filename dir in
      let process = process_whole C T c l own lib unescape sha256 f r pkey filename dir in
      let receive = receive_chunk C T c l own lib unescape sha256 f r pkey filename dir in
      let index = λ (i : ChunksInfo).
        on_dir r.params.account dir
          (check_index i (chunk_request C T c l own lib unescape sha256 f r filename)) in
      let rest = λ (i : ChunksInfo). index i >> (receive i >>= λ _. process) in
      keeps_bind Q (reply_if f.mkdir status_internal_server_error internal_error)
        (λ _. load >>= rest) (λ s q. q)
        (λ _. keeps_bind Q load rest (load_info-IsFree r pkey filename dir) (λ i.
          keeps_bind Q (index i) (λ _. receive i >>= λ _. process) (λ s q. q)
            (λ _.
              keeps_bind Q (receive i) (λ _. process) (receive_chunk-IsFree r pkey filename dir i)
                (λ _. process_whole-IsFree r pkey filename dir))))

  admit_upload-IsFree :
      (r : ChunkUpload) (filename : String) (pkey : PublicKey) (s : Server C.State K)
      → IsFree C T s
      → IsFree C T (admit_upload C T c l own lib unescape sha256 f r filename pkey s).1
  unfolding admit_upload
  admit_upload-IsFree r filename pkey =
      let Q = IsFree C T in
      let room = check_capacity r.content_length f.mem f.free in
      let limit = limit_uploads C T c l own lib unescape sha256 f r in
      let hash = sha256 (r.params.bucket_name <> (filename <> r.params.account)) in
      let place = or_internal C T c l own lib unescape sha256 f hash in
      let store = store_upload C T c l own lib unescape sha256 f r filename pkey in
      keeps_bind Q (reply_if (pkey == "") status_ok Body.nil)
        (λ _. room >> (limit >> (place >>= store))) (λ s q. q)
        (λ _.
          keeps_bind Q room (λ _. limit >> (place >>= store)) (λ s q. ground (arith, q))
            (λ _.
              keeps_bind Q limit (λ _. place >>= store) (limit_uploads-IsFree r)
                (λ _.
                  keeps_bind Q place store (λ s q. ground (arith, q))
                    (store_upload-IsFree r filename pkey))))

  check_user_params-IsFree :
      (p : UserParams) (s : Server C.State K)
      → IsFree C T s
      → IsFree C T (check_user_params c l {S = Server C.State K} p s).1
  unfolding check_user_params
  check_user_params-IsFree p s q = ground (arith, q)

  unescape_name-IsFree :
      (name : String) (s : Server C.State K)
      → IsFree C T s
      → IsFree C T (unescape_name unescape name s).1
  unfolding unescape_name
  unescape_name-IsFree name s q = ground (arith, q)

  -- As long as `chunkReq` is empty, a request for a chunk leaves it empty, however it ends.
  pub put_chunks-IsFree :
      (r : ChunkUpload) (s : Server C.State K)
      → s.chunk_req ≡ []
      → (put_chunks C T c l own lib unescape sha256 f r s).1.chunk_req ≡ []
  unfolding put_chunks
  put_chunks-IsFree r =
      let Q = IsFree C T in
      let user = check_user_params c l r.params in
      let admit = admit_upload C T c l own lib unescape sha256 f r in
      keeps_bind Q (enter C T c l own lib unescape sha256 f r)
        (λ _. unescape_name unescape r.filename >>= λ filename. user >>= admit filename)
        (enter-IsFree r)
        (λ _.
          keeps_bind Q (unescape_name unescape r.filename) (λ filename. user >>= admit filename)
            (unescape_name-IsFree r.filename)
            (λ filename.
              keeps_bind Q user (admit filename) (check_user_params-IsFree r.params)
                (admit_upload-IsFree r filename)))
