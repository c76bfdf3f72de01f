-- ===== src/Chunks/Accept/Keep.antt =====
-- A chunk that is not the last one, in node/putChunksHandle.go.
use de_oss.Base.{
  ℕ, ◌<◌, ◌≡◌, ◌≢◌, ◌⊎◌, inl, inr, true, false, some, arith, length, get_elem?, ltb, get_elem?-lt,
  Bool-cases, Option-cases,
}
use de_oss.Base.Dict
use Prim.Native.String.{len}
use de_oss.Admission.{internal_error}
use de_oss.Base.Word.{two_63, two_64, add_64, lt_i64}
use de_oss.Access.Library.{Bytes}
use de_oss.Http.{
  Outcome, ok, done, panic, Response, Body, status_ok, status_bad_request,
  status_internal_server_error,
}
use de_oss.Chunks.Save.{ChunksInfo, chunk_info, entry_eq, SaveDir, Library, Faults, whole}
use de_oss.Chunks.Accept.{Progress, ChunkRequest, check_index, out_of_range, next_info}
use de_oss.Chunks.Accept.Record.{IsProgress}

-- The answer to a chunk that was taken.
abbrev pub taken : ℕ → Response
taken i = record { status = status_ok; body = Body.number i }

-- Why a chunk is not taken: its index, a block that is there already, the size, the length of the name,
-- or a write that fails.
pub data IsRefused (lib : Library) (f : Faults) (info : ChunksInfo) (r : ChunkRequest)
    (content : Bytes) : Type 0 where
  bad_position : out_of_range info r ≡ true → IsRefused lib f info r content
  there_already :
      get_elem? info.saved_blocks r.block_idx ≡ some true → IsRefused lib f info r content
  too_much :
      lt_i64 info.total_size (add_64 (length content) info.saved_file_size) ≡ true
      → IsRefused lib f info r content
  long_name : ltb lib.max_name (len info.file_name) ≡ true → IsRefused lib f info r content
  not_written : f.write_chunk ≢ whole → IsRefused lib f info r content
  not_recorded : f.write_info ≢ whole → IsRefused lib f info r content

-- What a call on a chunk that is not the last may leave: for a reason, another answer and the old
-- record, or the answer 200 with the chunk's number and the new record, which is then also the one on
-- disk.
abbrev pub Kept :
    Library
    → Faults
    → ChunksInfo
    → ChunkRequest
    → Bytes
    → SaveDir
    → Outcome Progress × SaveDir
    → Type 0
Kept lib f info r content d (ok _, t) = ⊥
Kept lib f info r content d (panic, t) = ⊥
Kept lib f info r content d (done y, t) =
    (IsRefused lib f info r content
      × (y ≢ taken r.block_idx)
      × IsProgress info t
      × (Dict.lookup chunk_info t ≡ Dict.lookup chunk_info d))
    ⊎ ((y ≡ taken r.block_idx)
        × IsProgress (next_info info r content) t
        × (Dict.lookup chunk_info t ≡ some (lib.marshal (next_info info r content))))

abbrev bad_index : Response
bad_index = record { status = status_bad_request; body = Body.text "bad chunk index" }

abbrev already : Response
already = record { status = status_ok; body = Body.text "already exists" }

abbrev internal : Response
internal = record { status = status_internal_server_error; body = internal_error }

abbrev too_long : Body
too_long = Body.text "The file name length cannot exceed 63 characters"

-- The index test answers, not with the chunk's number, and changes nothing, where the index is out of
-- range or the block is there already; or the block is free. It does not panic.
pub check_index-cases :
    (info : ChunksInfo) (r : ChunkRequest) (d : SaveDir)
    → IsProgress info d
    → info.block_num < two_63
    → r.block_idx < two_64
    → ((check_index info r d ≡ (ok tt, d)) × (get_elem? info.saved_blocks r.block_idx ≡ some false))
      ⊎ ((y : Response) × (check_index info r d ≡ (done y, d))
          × (y ≢ taken r.block_idx)
          × ((out_of_range info r ≡ true) ⊎ (get_elem? info.saved_blocks r.block_idx ≡ some true)))
unfolding check_index
check_index-cases info r d p n i = elim (Bool-cases (out_of_range info r)) [
  | inl out ↦ inr (bad_index, rw (check_index, out), (λ e. cc), inl out)
  | inr inside ↦ elim (Option-cases (get_elem? info.saved_blocks r.block_idx)) [
    | inl e ↦
        absurd (get_elem?-lt info.saved_blocks r.block_idx (let b = p.blocks in ground arith) e)
    | inr (true, e) ↦ inr (already, rw (check_index, inside, e), (λ e. cc), inr e)
    | inr (false, e) ↦ inl (rw (check_index, inside, e), e)
  ]
]
