-- ===== src/Upload/PutChunks.antt =====
-- `putChunksHandle` of node/putChunksHandle.go: one chunk of a file, which is processed with the last.
pub mod Entry
use de_oss.Base.{
  ℕ, ◌*◌, ◌/◌, ◌%◌, ◌-◌, String, Bool, true, false, List, [], ◌∷◌, Option, none, some, ltb, eqb,
  ◌==◌, string_eq, if◌then◌else◌, replicate, ◌<>◌, ◌&&◌, not,
}
use de_oss.Base.Dict
use de_oss.Base.Word.{two_63, two_64, le_i64}
use de_oss.Access.{AccessList}
use de_oss.Access.Library.{Bytes, Crypto}
use de_oss.Access.Params.{UserParams, check_user_params}
use de_oss.Admission.{check_auth, check_space, check_capacity, check_de_oss_status, internal_error}
use de_oss.Chain.{Chain, PublicKey}
use de_oss.Chunks.Save.{ChunksInfo, EntryName, chunk_info, SaveDir, entry_eq, Library, Faults}
use de_oss.Chunks.Accept.{ChunkRequest, Progress, check_index, store_chunk}
use de_oss.Chunks.Expiry.{check_expired_files}
use de_oss.Http.{
  Action, Body, Outcome, ok, done, panic, ◌>>=◌, ◌>>◌, pure, reply, reply_if, branch, modify,
  status_ok, status_bad_request, status_forbidden, status_internal_server_error,
}
use de_oss.Server.{Server, on_net, on_dir, save_dir, account_dir, remove_dir}
use de_oss.Upload.Form.{
  Form, form_file, disk_full, form_error, not_multipart, unescape_name, create_bucket,
}
use de_oss.Upload.Process.{Tools, ProcessFaults, Whole, file_process}

-- The request, with its numbers as `int` patterns and the time.
pub record ChunkUpload : Type 0 where
  pub params : UserParams
  pub block_idx : ℕ
  pub block_num : ℕ
  pub total_size : ℕ
  pub filename : String
  pub content_length : ℕ
  pub form : Form
  pub now : ℕ

-- How the calls of the operating system end. `readable` tells which records can be read,
-- and `removal` what is left of the directory of an expired upload.
pub record ChunkFaults : Type 0 where
  pub mem : Option ℕ
  pub free : Option ℕ
  pub mkdir : Bool
  pub readable : String → Bool
  pub removal : String → SaveDir → Option SaveDir
  pub store : Faults
  pub process : ProcessFaults

-- `blockIdx%7 == 0`: the sign does not matter.
abbrev pub each_seventh : ℕ → Bool
each_seventh b = eqb (if ltb b two_63 then b % 7 else (two_64 - b) % 7) 0

-- `sha256` is `sutils.CalcSHA256`, and `own` the gateway's key.
module _ (C : Chain) {K : Type 0} (T : Tools K) (c : Crypto) (l : AccessList) (own : PublicKey)
    (lib : Library) (unescape sha256 : String → Option String) (f : ChunkFaults) where
  -- Only a request of an account that has no entry in `chunkReq` is held back.
  unfoldable pub enter : ChunkUpload → Action (Server C.State K) (Unit {0})
  unfolding check_de_oss_status
  enter r s = elim (Dict.member r.params.account s.chunk_req) [
    | false ↦ on_net (check_de_oss_status C) s
    | true ↦ (ok tt, record s { chunk_req = Dict.insert r.params.account r.now s.chunk_req })
  ]

  unfoldable pub limit_uploads : ChunkUpload → Action (Server C.State K) (Unit {0})
  unfolding check_expired_files
  limit_uploads r s =
      if each_seventh r.block_idx
      then (let (within, left) =
            check_expired_files lib.unmarshal f.readable f.removal r.now
              (Dict.lookup r.params.account s.files) in
          (
            if within
                then ok tt
                else done (record {
                  status = status_forbidden;
                  body = Body.text "the number of files being uploaded exceeds the limit";
                }),
            record s {
              files = elim left [
                | none ↦ s.files
                | some a ↦ Dict.insert r.params.account a s.files
              ];
            },
          ))
      else (ok tt, s)

  abbrev pub new_info : ChunkUpload → String → ChunksInfo
  new_info r filename = record {
    block_num = r.block_num;
    saved_blocks = replicate r.block_num false;
    finished = 0;
    saved_file_size = 0;
    file_name = filename;
    total_size = r.total_size;
    flush_time = r.now;
  }

  -- A new upload needs space for two days, and the user's leave.
  unfoldable pub begin_upload :
      ChunkUpload → PublicKey → String → Action (Server C.State K) ChunksInfo
  unfolding check_space check_auth
  begin_upload r pkey filename = do
    reply_if (le_i64 r.block_num 0) status_forbidden (Body.text "bad block number")
    reply_if (le_i64 r.total_size 0) status_forbidden (Body.text "bad file total size")
    on_net (check_space C pkey r.total_size 14400)
    on_net (check_auth C own pkey)
    pure (new_info r filename)

  unfoldable pub load_info :
      ChunkUpload → PublicKey → String → String → Action (Server C.State K) ChunksInfo
  unfolding begin_upload
  load_info r pkey filename dir s =
      elim (Dict.lookup chunk_info (save_dir r.params.account dir s.files)) [
        | none ↦ begin_upload r pkey filename s
        | some b ↦ elim (if f.readable dir then lib.unmarshal b else none) [
          | none ↦
              (done (record { status = status_internal_server_error; body = internal_error }), s)
          | some info ↦ (ok info, s)
        ]
      ]

  abbrev pub chunk_request : ChunkUpload → String → ChunkRequest
  chunk_request r filename = record { block_idx = r.block_idx; filename = filename; now = r.now }

  -- A body that is no form is written to a file named by the form's header, which is nil.
  unfoldable pub receive_chunk :
      ChunkUpload → PublicKey → String → String → ChunksInfo → Action (Server C.State K) Progress
  unfolding store_chunk
  receive_chunk r pkey filename dir info s = elim r.form [
    | disk_full ↦ (
      done (record {
        status = status_forbidden;
        body = Body.text "no space left on the server device";
      }),
      s,
    )
    | form_error e ↦ (done (record { status = status_bad_request; body = Body.text e }), s)
    | not_multipart buf ↦ elim buf [
      | [] ↦ on_net (create_bucket C Body.block_hash pkey r.params.bucket_name) s
      | _ ∷ _ ↦ (panic, s)
    ]
    | form_file _ content ↦
        on_dir r.params.account dir
          (store_chunk lib f.store info (chunk_request r filename) content) s
  ]

  -- The whole file is in the directory, which goes when the processing is over, however it ends.
  unfoldable pub process_whole :
      ChunkUpload → PublicKey → String → String → Action (Server C.State K) (Unit {0})
  unfolding file_process
  process_whole r pkey filename dir s =
      let (x, t) =
        file_process C T f.process
          (record {
            filename = filename;
            bucket_name = r.params.bucket_name;
            account = r.params.account;
            dir = dir;
            file = lib.classify filename;
            cipher = r.params.cipher;
            pkey = pkey;
          })
          (record s { chunk_req = Dict.erase r.params.account s.chunk_req }) in
      (x, record t { files = remove_dir r.params.account dir t.files })

  abbrev pub or_internal : Option String → Action (Server C.State K) String
  or_internal o s = elim o [
    | none ↦ (done (record { status = status_internal_server_error; body = internal_error }), s)
    | some a ↦ (ok a, s)
  ]

  -- Once the directory's name is known.
  unfoldable pub store_upload :
      ChunkUpload → String → PublicKey → String → Action (Server C.State K) (Unit {0})
  unfolding load_info check_index receive_chunk process_whole
  store_upload r filename pkey dir = do
    reply_if f.mkdir status_internal_server_error internal_error
    info ← load_info r pkey filename dir
    on_dir r.params.account dir (check_index info (chunk_request r filename))
    _ ← receive_chunk r pkey filename dir info
    process_whole r pkey filename dir

  -- Once the user is known.
  unfoldable pub admit_upload :
      ChunkUpload → String → PublicKey → Action (Server C.State K) (Unit {0})
  unfolding check_capacity limit_uploads store_upload
  admit_upload r filename pkey = do
    reply_if (pkey == "") status_ok Body.nil
    check_capacity r.content_length f.mem f.free
    limit_uploads r
    dir ← or_internal (sha256 (r.params.bucket_name <> (filename <> r.params.account)))
    store_upload r filename pkey dir

  unfoldable pub put_chunks : ChunkUpload → Action (Server C.State K) (Unit {0})
  unfolding enter unescape_name check_user_params admit_upload
  put_chunks r = do
    enter r
    filename ← unescape_name unescape r.filename
    pkey ← check_user_params c l r.params
    admit_upload r filename pkey
