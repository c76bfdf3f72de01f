-- ===== src/Chunks/Accept/Complete.antt =====
-- The last chunk of an upload, in node/putChunksHandle.go.
use Prim.Native.String.{len}
use de_oss.Base.{
  ℕ, suc, ◌+◌, ◌≤◌, ◌<◌, ◌≡◌, ◌≢◌, refl, sym, ◌∙◌, Bool, true, false, List, [], ◌∷◌, String, none,
  some, arith, length, length-append, set, get_elem?, length-set, if◌then◌else◌, eqb, subst,
  get_elem?-some,
}
use de_oss.Base.Dict
use native.Mathlib.Decide.{dec_lt}
use de_oss.Base.Word.{two_63}
use de_oss.Access.Library.{Bytes}
use de_oss.Http.{ok, done, Body, status_bad_request}
use de_oss.Chunks.Save.{ChunksInfo, chunk_file, named, entry_eq, SaveDir, Library, Faults, whole}
use de_oss.Chunks.Combine.{gather, gathered}
use de_oss.Chunks.Combine.Order.{HasNoStray, IsPlain, HasNoStray-insert, in_order, gather-in_order}
use de_oss.Chunks.Accept.{assembled, ChunkRequest, accept_chunk}
use de_oss.Chunks.Accept.Record.{
  IsProgress, count_saved, chunk_size, stored_size, HasBlocks, count_saved-set,
  stored_size-insert_unsaved, stored_size-set, HasBlocks-insert, HasBlocks-set,
}

-- The content of a chunk's file.
abbrev pub chunk_content : SaveDir → ℕ → Bytes
chunk_content d i = elim (Dict.lookup (chunk_file i) d) [ none ↦ [] | some b ↦ b ]

count_saved-le : (bs : List Bool) → count_saved bs ≤ length bs
count_saved-le [] = omega arith
count_saved-le (true ∷ bs) = omega (arith, count_saved-le bs)
count_saved-le (false ∷ bs) = omega (arith, count_saved-le bs)

all_there :
    (d : SaveDir) (i : ℕ) (bs : List Bool)
    → count_saved bs ≡ length bs
    → HasBlocks d i bs
    → (j : ℕ) → i ≤ j
    → j < i + length bs
    → Dict.lookup (chunk_file j) d ≢ none
all_there d i [] full h j lo hi = absurd (omega arith)
all_there d i (false ∷ bs) full h j lo hi = absurd (omega (arith, count_saved-le bs))
all_there d i (true ∷ bs) full h j lo hi = elim (dec_lt i j) [
  | yes p ↦ all_there d (suc i) bs (omega arith) h.1 j p (omega arith)
  | no p ↦ let e : i ≡ j = omega arith in rw e at h.0
]

length-in_order :
    (d : SaveDir) (i : ℕ) (bs : List Bool)
    → count_saved bs ≡ length bs
    → length (in_order (chunk_content d) (length bs) i) ≡ stored_size d i bs
length-in_order d i [] full = refl
length-in_order d i (false ∷ bs) full = absurd (omega (arith, count_saved-le bs))
length-in_order d i (true ∷ bs) full = ground (
  arith,
  length-append (chunk_content d i) (in_order (chunk_content d) (length bs) (suc i)),
  length-in_order d (suc i) bs,
)

module _ (lib : Library) (f : Faults) (info : ChunksInfo) (r : ChunkRequest) (content : Bytes) where
  -- The directory with the last chunk, and the file that its chunks make up.
  abbrev pub full_dir : SaveDir → SaveDir
  full_dir d = Dict.insert (chunk_file r.block_idx) content d

  abbrev pub whole_file : SaveDir → Bytes
  whole_file d = in_order (chunk_content (full_dir d)) info.block_num 0

  -- Nothing fails, and the file's own name is not read as a chunk or as the record.
  pub record IsSmooth (name : String) : Type 0 where
    pub written : f.write_chunk ≡ whole
    pub created : f.create_target ≡ false
    pub listed : f.read_dir ≡ false
    pub read : (j : ℕ) → f.read_chunk j ≡ false
    pub plain_name : lib.classify r.filename ≡ named name
    pub no_index : lib.trailing_index name ≡ none
    pub short_name : len info.file_name ≤ lib.max_name

  module _ (d : SaveDir) (p : IsProgress info d)
      (free : get_elem? info.saved_blocks r.block_idx ≡ some false)
      (last : info.block_num ≡ info.finished + 1) where
    full_list : List Bool
    full_list = set info.saved_blocks r.block_idx true

    count_full : count_saved full_list ≡ length full_list
    unfolding full_list
    count_full =
        let a = p.blocks in
        let b = p.counted in
        omega (
          arith,
          count_saved-set info.saved_blocks r.block_idx free,
          length-set info.saved_blocks r.block_idx true,
        )

    length_full : length full_list ≡ info.block_num
    unfolding full_list
    length_full = length-set info.saved_blocks r.block_idx true ∙ p.blocks

    blocks_full : HasBlocks (full_dir d) 0 full_list
    unfolding full_list
    blocks_full =
        HasBlocks-set (full_dir d) 0 r.block_idx r.block_idx info.saved_blocks (omega arith)
          (ground
            (arith, Dict.lookup-insert (chunk_file r.block_idx) (chunk_file r.block_idx) content d))
          (HasBlocks-insert (chunk_file r.block_idx) content d 0 info.saved_blocks p.stored)

    chunk_there :
        (j : ℕ)
        → j < info.block_num
        → Dict.lookup (chunk_file j) (full_dir d) ≡ some (chunk_content (full_dir d) j)
    chunk_there j lt =
        let m =
          all_there (full_dir d) 0 full_list count_full blocks_full j (omega arith)
            (omega (arith, length_full)) in
        ground arith

    -- The assembled file has the recorded size and the last chunk's.
    length-whole_file : length (whole_file d) ≡ length content + info.saved_file_size
    unfolding full_list
    length-whole_file =
        let e : chunk_size (full_dir d) r.block_idx ≡ length content =
          ground (
            arith,
            Dict.lookup-insert (chunk_file r.block_idx) (chunk_file r.block_idx) content d,
          ) in
        let a = p.sized in
        let w : length (in_order (chunk_content (full_dir d)) info.block_num 0)
            ≡ stored_size (full_dir d) 0 full_list =
          rw length_full at (length-in_order (full_dir d) 0 full_list count_full) in
        omega (
          arith,
          e,
          w,
          stored_size-set (full_dir d) 0 r.block_idx r.block_idx info.saved_blocks (omega arith)
              free,
          stored_size-insert_unsaved content d 0 r.block_idx r.block_idx info.saved_blocks
              (omega arith) free,
        )

    -- The loop finds every chunk.
    gather-whole_file :
        (name : String)
        → IsSmooth name
        → HasNoStray lib.trailing_index d
        → let target = lib.classify r.filename in
          gather lib.trailing_index f target
            (Dict.insert target [] (full_dir d))
            info.block_num
            0
            []
          ≡ gathered (whole_file d)
    gather-whole_file name q stray =
        let target = lib.classify r.filename in
        let plain : IsPlain lib.trailing_index target =
          subst (IsPlain lib.trailing_index) (sym q.plain_name) q.no_index in
        let other : (j : ℕ) → target ≢ chunk_file j = λ j e. cc (q.plain_name) in
        gather-in_order lib.trailing_index f target (Dict.insert target [] (full_dir d))
          (chunk_content (full_dir d)) info.block_num 0 []
          (HasNoStray-insert lib.trailing_index target [] (full_dir d) plain
            (HasNoStray-insert lib.trailing_index (chunk_file r.block_idx) content d tt stray))
          q.read other
          (λ j _ lt. ground (
            arith,
            Dict.lookup-insert (chunk_file j) target [] (full_dir d),
            other j,
            chunk_there j (omega arith),
          ))

    -- When nothing fails, the last missing chunk of an upload yields the contents of all its chunk
    -- files in index order, whatever the order of their arrival, if the recorded bytes and the chunk's
    -- add up to the announced total; if they add up to less, the answer is 400 and the whole upload
    -- is dropped. The record must be true of the directory, and neither the file's name nor another in
    -- the directory may be one that the assembly reads as a chunk.
    pub accept_chunk_complete :
        (name : String)
        → IsSmooth name
        → HasNoStray lib.trailing_index d
        → length content + info.saved_file_size ≤ info.total_size
        → info.total_size < two_63
        → info.block_num < two_63
        → accept_chunk lib f info r content d ≡ (
            if eqb (length content + info.saved_file_size) info.total_size
            then (
              ok (assembled (whole_file d)),
              Dict.insert
                  (lib.classify r.filename)
                  (whole_file d)
                  (Dict.insert (lib.classify r.filename) [] (full_dir d)),
            )
            else (
              done (record { status = status_bad_request; body = Body.text "file size mismatch" }),
              [],
            ))
    unfolding accept_chunk
    accept_chunk_complete name q stray fits small n = ground (
      arith,
      q.written,
      q.created,
      q.listed,
      q.short_name,
      p.blocks,
      get_elem?-some info.saved_blocks r.block_idx free,
      gather-whole_file name q stray,
      length-whole_file,
    )
