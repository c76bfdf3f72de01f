-- ===== src/Chunks/Combine/Order.antt =====
-- The order in which the assembly of node/putChunksHandle.go reads the chunks.
use de_oss.Base.{
  ℕ, zero, suc, ◌+◌, ◌≤◌, ◌<◌, ◌≡◌, ◌≢◌, refl, Bool, true, false, String, [], ◌∷◌, ◌++◌, Option,
  none, some, ◌==◌, nat_eq, if◌then◌else◌, arith,
}
use mathlib.Core.List.{append_assoc, append-nil}
use de_oss.Base.Dict
use de_oss.Access.Library.{Bytes}
use de_oss.Chunks.Save.{EntryName, chunk_info, chunk_file, named, entry_eq, SaveDir, Faults}
use de_oss.Chunks.Combine.{find_entry, gathered, read_entry, gather}

-- No other name in the directory is taken for a chunk.
abbrev pub IsPlain : (String → Option ℕ) → EntryName → Type 0
IsPlain trailing (named s) = trailing s ≡ none
IsPlain trailing chunk_info = Unit
IsPlain trailing (chunk_file _) = Unit

abbrev pub HasNoStray : (String → Option ℕ) → SaveDir → Type 0
HasNoStray trailing [] = Unit
HasNoStray trailing ((e, _) ∷ d) = IsPlain trailing e × HasNoStray trailing d

HasNoStray-if :
    (trailing : String → Option ℕ) (b : Bool) (c d : SaveDir)
    → HasNoStray trailing c
    → HasNoStray trailing d
    → HasNoStray trailing (if b then c else d)
HasNoStray-if trailing true c d h k = h
HasNoStray-if trailing false c d h k = k

pub HasNoStray-insert :
    (trailing : String → Option ℕ) (e : EntryName) (v : Bytes) (d : SaveDir)
    → IsPlain trailing e
    → HasNoStray trailing d
    → HasNoStray trailing (Dict.insert e v d)
unfolding Dict.insert
HasNoStray-insert trailing e v [] h s = (h, tt)
HasNoStray-insert trailing e v ((x, w) ∷ d) h s =
    HasNoStray-if trailing (e == x) _ _ (h, s.1) (s.0, HasNoStray-insert trailing e v d h s.1)

-- `chunks[i] ++ … ++ chunks[i + n - 1]`
abbrev pub in_order : (ℕ → Bytes) → ℕ → ℕ → Bytes
in_order content zero i = []
in_order content (suc n) i = content i ++ in_order content n (suc i)

find_entry-chunk :
    (trailing : String → Option ℕ) (d : SaveDir) (i : ℕ)
    → HasNoStray trailing d
    → find_entry trailing d i ≡ (if Dict.member (chunk_file i) d then some (chunk_file i) else none)
unfolding find_entry Dict.lookup
find_entry-chunk trailing [] i h = refl
find_entry-chunk trailing ((chunk_info, _) ∷ d) i h =
    ground (arith, find_entry-chunk trailing d i h.1)
find_entry-chunk trailing ((chunk_file j, _) ∷ d) i h =
    ground (arith, find_entry-chunk trailing d i h.1)
find_entry-chunk trailing ((named s, _) ∷ d) i h =
    ground (arith, find_entry-chunk trailing d i h.1, h.0)

module _ (trailing : String → Option ℕ) (f : Faults) (target : EntryName) (d : SaveDir) where
  -- With every block at hand, no read that fails, and a target that is no block of the rest, the
  -- loop appends the blocks in index order.
  pub gather-in_order :
      (content : ℕ → Bytes) (n i : ℕ) (acc : Bytes)
      → HasNoStray trailing d
      → ((j : ℕ) → f.read_chunk j ≡ false)
      → ((j : ℕ) → target ≢ chunk_file j)
      → ((j : ℕ) → i ≤ j → j < i + n → Dict.lookup (chunk_file j) d ≡ some (content j))
      → gather trailing f target d n i acc ≡ gathered (acc ++ in_order content n i)
  unfolding gather read_entry
  gather-in_order content zero i acc stray reads other have = rw append-nil
  gather-in_order content (suc n) i acc stray reads other have = ground (
    arith,
    find_entry-chunk trailing d i stray,
    reads i,
    other i,
    have i (omega arith) (omega arith),
    append_assoc acc (content i) (in_order content n (suc i)),
    gather-in_order content n (suc i) (acc ++ content i) stray reads other
        (λ j lo hi. have j (omega arith) (omega arith)),
  )
