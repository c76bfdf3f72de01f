-- ===== src/Chunks/Accept.antt =====
-- The part of `putChunksHandle` that begins once the record of the upload is known: the tests of the
-- chunk, its file, and either the new record or the assembly.
pub mod Record
pub mod Keep
pub mod Writing
pub mod Complete
use Prim.Native.String.{len}
use de_oss.Base.{
  ℕ, suc, ◌+◌, Bool, true, false, String, List, [], Option, none, some, ltb, eqb, leb, length, set,
  get_elem?, not, ◌==◌, if◌then◌else◌, ◌||◌,
}
use de_oss.Base.Dict
use de_oss.Base.Word.{lt_i64, le_i64, add_64}
use de_oss.Access.Library.{Bytes}
use de_oss.Http.{
  Action, Body, ok, done, panic, ◌>>=◌, ◌>>◌, pure, reply, reply_if, branch, modify, status_ok,
  status_bad_request, status_internal_server_error,
}
use de_oss.Admission.{internal_error}
use de_oss.Chunks.Save.{
  ChunksInfo, EntryName, chunk_info, chunk_file, entry_eq, SaveDir, Library, Faults, Written, whole,
  cut, never,
}
use de_oss.Chunks.Combine.{gather, Gathered, gathered, missing, io_error}

-- The only way on from here: the content of the assembled file. A chunk that is kept is answered.
pub data Progress : Type 0 where
  assembled : Bytes → Progress

-- The request's own values: `blockIdx`, an `int` pattern, `filename` and `time.Now()`.
pub record ChunkRequest : Type 0 where
  pub block_idx : ℕ
  pub filename : String
  pub now : ℕ

-- Writing a file of the directory; an error answers 500.
unfoldable pub write_entry : Written → EntryName → Bytes → Action SaveDir (Unit {0})
write_entry whole e b d = (ok tt, Dict.insert e b d)
write_entry (cut p) e b d = (
  done (record { status = status_internal_server_error; body = internal_error }),
  Dict.insert e p d,
)
write_entry never e b d =
    (done (record { status = status_internal_server_error; body = internal_error }), d)

abbrev pub out_of_range : ChunksInfo → ChunkRequest → Bool
out_of_range info r = lt_i64 r.block_idx 0 || le_i64 info.block_num r.block_idx

-- The bounds of the index, the block that is there already; a `SavedBlocks` that is too short panics.
unfoldable pub check_index : ChunksInfo → ChunkRequest → Action SaveDir (Unit {0})
check_index info r d =
    if out_of_range info r
    then (done (record { status = status_bad_request; body = Body.text "bad chunk index" }), d)
    else (elim (get_elem? info.saved_blocks r.block_idx) [
      | none ↦ (panic, d)
      | some true ↦ (done (record { status = status_ok; body = Body.text "already exists" }), d)
      | some false ↦ (ok tt, d)
    ])

-- The record once the block is saved.
abbrev pub next_info : ChunksInfo → ChunkRequest → Bytes → ChunksInfo
next_info info r content = record info {
  saved_file_size = add_64 info.saved_file_size (length content);
  saved_blocks = set info.saved_blocks r.block_idx true;
  finished = info.finished + 1;
  flush_time = r.now;
}

-- `defer os.RemoveAll(savedir)`: on every exit here the directory goes with all that is in it. After
-- `assembled` the caller removes it, once the file is processed.
abbrev pub remove_on_exit : Action SaveDir Progress → Action SaveDir Progress
remove_on_exit m d =
    let (x, t) = m d in elim x [ ok a ↦ (ok a, t) | done y ↦ (done y, []) | panic ↦ (panic, []) ]

module _ (lib : Library) (f : Faults) where
  unfoldable pub combine : ChunksInfo → ChunkRequest → Action SaveDir Progress
  combine info r = do
    let target = lib.classify r.filename
    reply_if f.create_target status_internal_server_error internal_error
    modify (Dict.insert target [])
    reply_if f.read_dir status_internal_server_error internal_error
    λ d. elim (gather lib.trailing_index f target d info.block_num 0 []) [
      | missing i ↦ (
        done (record { status = status_bad_request; body = Body.text "file chunk does not exist" }),
        Dict.erase target d,
      )
      | io_error ↦ (
        done (record { status = status_internal_server_error; body = internal_error }),
        Dict.erase target d,
      )
      | gathered b ↦
          if eqb (length b) info.total_size then (ok (assembled b), Dict.insert target b d) else (
            done (record { status = status_bad_request; body = Body.text "file size mismatch" }),
            Dict.erase target d,
          )
    ]

  unfoldable pub record_chunk : ChunksInfo → ChunkRequest → Bytes → Action SaveDir Progress
  unfolding write_entry
  record_chunk info r content = do
    write_entry f.write_info chunk_info (lib.marshal (next_info info r content))
    reply status_ok (Body.number r.block_idx)

  -- After the index test: a chunk that came as a form file, whose recorded size is that of its content.
  unfoldable pub store_chunk : ChunksInfo → ChunkRequest → Bytes → Action SaveDir Progress
  unfolding write_entry combine record_chunk
  store_chunk info r content = do
    reply_if (lt_i64 info.total_size (add_64 (length content) info.saved_file_size))
        status_bad_request (Body.text "bad chunk size")
    reply_if (ltb lib.max_name (len info.file_name)) status_bad_request
        (Body.text "The file name length cannot exceed 63 characters")
    write_entry f.write_chunk (chunk_file r.block_idx) content
    branch (eqb info.block_num (info.finished + 1)) (remove_on_exit (combine info r))
        (record_chunk info r content)

  unfoldable pub accept_chunk : ChunksInfo → ChunkRequest → Bytes → Action SaveDir Progress
  unfolding check_index store_chunk
  accept_chunk info r content = check_index info r >> store_chunk info r content
