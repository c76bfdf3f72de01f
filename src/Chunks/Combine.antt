-- ===== src/Chunks/Combine.antt =====
-- The assembly: the chunks in index order are copied into the target file.
pub mod Order
use de_oss.Base.{
  ℕ, zero, suc, Bool, true, false, String, List, [], ◌∷◌, ◌++◌, Option, none, some, ◌==◌, nat_eq,
  length, eqb, if◌then◌else◌,
}
use de_oss.Base.Dict
use de_oss.Access.Library.{Bytes}
use de_oss.Chunks.Save.{
  EntryName, chunk_info, chunk_file, named, entry_eq, SaveDir, Library, Faults,
}

-- The number that an entry's name ends in, if the name contains "chunk-file-".
abbrev pub index_of : (String → Option ℕ) → EntryName → Option ℕ
index_of trailing chunk_info = none
index_of trailing (chunk_file i) = some i
index_of trailing (named s) = trailing s

abbrev pub is_index : ℕ → Option ℕ → Bool
is_index i none = false
is_index i (some j) = eqb i j

-- `entryMap[i]`: of the entries with that index the last one. The list stands in the order in which
-- `os.ReadDir` gives the names, which matters only where two names have the same index.
unfoldable pub find_entry : (String → Option ℕ) → SaveDir → ℕ → Option EntryName
find_entry trailing [] i = none
find_entry trailing ((e, _) ∷ d) i = elim (find_entry trailing d i) [
  | some x ↦ some x
  | none ↦ if is_index i (index_of trailing e) then some e else none
]

pub data Gathered : Type 0 where
  gathered : Bytes → Gathered
  missing : ℕ → Gathered
  io_error : Gathered

-- What is copied from an entry to the end of the target, which holds `acc`. The target may itself
-- be the entry: copied from its own beginning it gives nothing while it is empty, and otherwise
-- grows until the disk is full.
unfoldable pub read_entry : EntryName → EntryName → Bytes → SaveDir → Option Bytes
read_entry target e acc d =
    if e == target then (elim acc [ [] ↦ some [] | _ ∷ _ ↦ none ]) else Dict.lookup e d

-- The loop from block `i` on, with `n` blocks left.
unfoldable pub gather :
    (String → Option ℕ) → Faults → EntryName → SaveDir → ℕ → ℕ → Bytes → Gathered
gather trailing f target d zero i acc = gathered acc
gather trailing f target d (suc n) i acc = elim (find_entry trailing d i) [
  | none ↦ missing i
  | some e ↦ elim (if f.read_chunk i then none else read_entry target e acc d) [
    | none ↦ io_error
    | some b ↦ gather trailing f target d n (suc i) (acc ++ b)
  ]
]
