-- ===== src/Chunks/Accept/Writing.antt =====
-- The record of an upload, in node/putChunksHandle.go, when a block or chunk-info is written.
use de_oss.Base.{
  ℕ, ◌+◌, ◌≤◌, ◌<◌, ◌≡◌, ◌≢◌, ◌⊎◌, inl, inr, refl, ◌∙◌, true, false, some, arith, length, get_elem?,
  length-set,
}
use de_oss.Base.Dict
use de_oss.Base.Word.{two_63}
use de_oss.Access.Library.{Bytes}
use de_oss.Http.{}
use de_oss.Chunks.Save.{
  ChunksInfo, chunk_info, chunk_file, entry_eq, SaveDir, Written, whole, cut, never,
}
use de_oss.Chunks.Accept.{ChunkRequest, next_info}
use de_oss.Chunks.Accept.Record.{
  IsProgress, chunk_size, count_saved-set, stored_size-insert_other, stored_size-insert_unsaved,
  stored_size-set, HasBlocks-insert, HasBlocks-set,
}

pub Written-cases : (w : Written) → (w ≡ whole) ⊎ ((w ≡ never) ⊎ ((b : Bytes) × (w ≡ cut b)))
Written-cases whole = inl refl
Written-cases never = inr (inl refl)
Written-cases (cut b) = inr (inr (b, refl))

module _ (info : ChunksInfo) (d : SaveDir) (p : IsProgress info d) where
  -- Bytes written to a block that is not marked do not touch the record.
  pub write-IsProgress :
      (i : ℕ) (v : Bytes)
      → get_elem? info.saved_blocks i ≡ some false
      → IsProgress info (Dict.insert (chunk_file i) v d)
  write-IsProgress i v free = record {
    blocks = p.blocks;
    counted = p.counted;
    unfinished = p.unfinished;
    stored = HasBlocks-insert (chunk_file i) v d 0 info.saved_blocks p.stored;
    sized = stored_size-insert_unsaved v d 0 i i info.saved_blocks (omega arith) free ∙ p.sized;
    fits = p.fits;
  }

  pub info-IsProgress : (v : Bytes) → IsProgress info (Dict.insert chunk_info v d)
  info-IsProgress v = record {
    blocks = p.blocks;
    counted = p.counted;
    unfinished = p.unfinished;
    stored = HasBlocks-insert chunk_info v d 0 info.saved_blocks p.stored;
    sized = stored_size-insert_other chunk_info v d 0 info.saved_blocks (λ j _ e. cc) ∙ p.sized;
    fits = p.fits;
  }

  -- The new record is true once the block's file is there.
  pub next-IsProgress :
      (r : ChunkRequest) (content : Bytes)
      → get_elem? info.saved_blocks r.block_idx ≡ some false
      → Dict.lookup (chunk_file r.block_idx) d ≡ some content
      → length content + info.saved_file_size ≤ info.total_size
      → info.total_size < two_63
      → info.block_num ≢ info.finished + 1
      → IsProgress (next_info info r content) d
  next-IsProgress r content free there fits small more = record {
    blocks = length-set info.saved_blocks r.block_idx true ∙ p.blocks;
    counted = omega (arith, count_saved-set info.saved_blocks r.block_idx free, p.counted);
    unfinished = omega (arith, p.unfinished);
    stored =
        HasBlocks-set d 0 r.block_idx r.block_idx info.saved_blocks (omega arith) (ground arith)
          p.stored;
    sized =
        let e : chunk_size d r.block_idx ≡ length content = rw (there, chunk_size) in
        let q = p.sized in
        let w = p.fits in
        omega (
          arith,
          e,
          stored_size-set d 0 r.block_idx r.block_idx info.saved_blocks (omega arith) free,
        );
    fits = omega arith;
  }
