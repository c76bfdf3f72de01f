-- ===== src/Sync/Block/Progress.antt =====
-- The progress that `syncBlock` of node/syncBlock.go saves, and a later start.
use de_oss.Base.{
  ◌≡◌, ◌⊎◌, ◌≤◌, ◌<◌, ◌+◌, ℕ, false, List, length, Option, none, some, string_eq, arith,
}
use de_oss.Base.Dict
use de_oss.Base.Dict.{Dict, lookup-insert}
use de_oss.Base.Word.{two_32}
use de_oss.Sync.Block.{
  Codec, BlockFaults, Synced, FileEvent, Read, value, not_found, start_block, save_progress,
  record_deletes, record_uploads, sync_block,
}

-- A read of the database that does not fail.
abbrev pub read_of : {B : Type 0} → Option B → Read B
read_of o = elim o [ none ↦ not_found | some b ↦ value b ]

-- The file holds the number as text, like the database.
abbrev pub saved : {B : Type 0} → Codec B → Synced B → Option B
saved c s = elim s.progress_file [ none ↦ none | some n ↦ some (c.itoa n) ]

module _ {B : Type 0} (c : Codec B) (f : BlockFaults B) (atoi : B → Option ℕ) where
  save_progress-start_block :
      (s : Synced B)
      → ((n : ℕ) → atoi (c.itoa n) ≡ some n)
      → s.retrieved + 1 < two_32
      → (f.put_once ≡ false) ⊎ ((f.put_again ≡ false) ⊎ (f.write_progress ≡ false))
      → let t = save_progress c f s in
        let r = read_of (Dict.lookup "syncblock" t.db) in
        s.retrieved + 1 ≤ start_block atoi r r (saved c t)
  unfolding save_progress start_block
  save_progress-start_block s round lt ok = ground (
    arith,
    round (s.retrieved + 1),
    lookup-insert "syncblock" "syncblock" (c.itoa (s.retrieved + 1)) s.db,
    ok,
  )

  -- If the gateway restarts after a block, and one of the three writes of the progress had succeeded,
  -- the retrieval goes on at the next block or a later one. The reads at the start succeed, the text of
  -- a number is read as this number, and the next number fits in 32 bits.
  pub sync_block-start_block :
      (uploads deletes : List FileEvent) (s : Synced B)
      → ((n : ℕ) → atoi (c.itoa n) ≡ some n)
      → s.retrieved + 1 < two_32
      → (f.put_once ≡ false) ⊎ ((f.put_again ≡ false) ⊎ (f.write_progress ≡ false))
      → let t = sync_block c f uploads deletes s in
        let r = read_of (Dict.lookup "syncblock" t.db) in
        s.retrieved + 1 ≤ start_block atoi r r (saved c t)
  unfolding sync_block
  sync_block-start_block uploads deletes s round lt ok =
      save_progress-start_block
        (record_deletes c f (length uploads) deletes (record_uploads c f uploads s)) round lt ok
