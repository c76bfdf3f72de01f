-- ===== src/Chunks/Accept/Record.antt =====
-- When the record of an upload is true of its directory, in node/putChunksHandle.go.
use de_oss.Base.{
  ℕ, zero, suc, ◌+◌, ◌≤◌, ◌<◌, ◌≡◌, ◌≢◌, refl, Bool, true, false, List, [], ◌∷◌, none, some, arith,
  length, set, get_elem?,
}
use de_oss.Base.Dict
use de_oss.Access.Library.{Bytes}
use de_oss.Chunks.Save.{ChunksInfo, EntryName, chunk_file, entry_eq, SaveDir}
use de_oss.Chunks.Accept.{}

abbrev pub count_saved : List Bool → ℕ
count_saved [] = 0
count_saved (true ∷ bs) = suc (count_saved bs)
count_saved (false ∷ bs) = count_saved bs

abbrev pub chunk_size : SaveDir → ℕ → ℕ
chunk_size d i = elim (Dict.lookup (chunk_file i) d) [ none ↦ 0 | some b ↦ length b ]

-- The sizes of the blocks from `i` on that are marked as saved.
abbrev pub stored_size : SaveDir → ℕ → List Bool → ℕ
stored_size d i [] = 0
stored_size d i (true ∷ bs) = chunk_size d i + stored_size d (suc i) bs
stored_size d i (false ∷ bs) = stored_size d (suc i) bs

-- Each block that is marked has its file.
abbrev pub HasBlocks : SaveDir → ℕ → List Bool → Type 0
HasBlocks d i [] = Unit
HasBlocks d i (true ∷ bs) = (Dict.lookup (chunk_file i) d ≢ none) × HasBlocks d (suc i) bs
HasBlocks d i (false ∷ bs) = HasBlocks d (suc i) bs

pub record IsProgress (info : ChunksInfo) (d : SaveDir) : Type 0 where
  pub blocks : length info.saved_blocks ≡ info.block_num
  pub counted : count_saved info.saved_blocks ≡ info.finished
  pub unfinished : info.finished < info.block_num
  pub stored : HasBlocks d 0 info.saved_blocks
  pub sized : stored_size d 0 info.saved_blocks ≡ info.saved_file_size
  pub fits : info.saved_file_size ≤ info.total_size

pub count_saved-set :
    (bs : List Bool) (i : ℕ)
    → get_elem? bs i ≡ some false
    → count_saved (set bs i true) ≡ suc (count_saved bs)
count_saved-set [] i h = cc
count_saved-set (true ∷ bs) zero h = cc
count_saved-set (false ∷ bs) zero h = refl
count_saved-set (true ∷ bs) (suc i) h = omega (arith, count_saved-set bs i h)
count_saved-set (false ∷ bs) (suc i) h = count_saved-set bs i h

-- A write to another entry, or to a block below `i`, is not seen from `i` on.
pub stored_size-insert_other :
    (e : EntryName) (v : Bytes) (d : SaveDir) (i : ℕ) (bs : List Bool)
    → ((j : ℕ) → i ≤ j → e ≢ chunk_file j)
    → stored_size (Dict.insert e v d) i bs ≡ stored_size d i bs
stored_size-insert_other e v d i [] other = refl
stored_size-insert_other e v d i (true ∷ bs) other = ground (
  arith,
  Dict.lookup-insert (chunk_file i) e v d,
  other i (omega arith),
  stored_size-insert_other e v d (suc i) bs (λ j lo. other j (omega arith)),
)
stored_size-insert_other e v d i (false ∷ bs) other =
    stored_size-insert_other e v d (suc i) bs (λ j lo. other j (omega arith))

pub HasBlocks-insert :
    (e : EntryName) (v : Bytes) (d : SaveDir) (i : ℕ) (bs : List Bool)
    → HasBlocks d i bs
    → HasBlocks (Dict.insert e v d) i bs
HasBlocks-insert e v d i [] h = tt
HasBlocks-insert e v d i (true ∷ bs) h = (
  ground (arith, Dict.lookup-insert (chunk_file i) e v d, h.0),
  HasBlocks-insert e v d (suc i) bs h.1,
)
HasBlocks-insert e v d i (false ∷ bs) h = HasBlocks-insert e v d (suc i) bs h

-- Block `x` stands at place `k` of the list that begins with block `i`. A write to it, while it is
-- not marked, leaves the marked ones as they are.
pub stored_size-insert_unsaved :
    (v : Bytes) (d : SaveDir) (i k x : ℕ) (bs : List Bool)
    → x ≡ i + k
    → get_elem? bs k ≡ some false
    → stored_size (Dict.insert (chunk_file x) v d) i bs ≡ stored_size d i bs
stored_size-insert_unsaved v d i k x [] e h = cc
stored_size-insert_unsaved v d i zero x (true ∷ bs) e h = cc
stored_size-insert_unsaved v d i zero x (false ∷ bs) e h =
    stored_size-insert_other (chunk_file x) v d (suc i) bs (λ j lo. ground arith)
stored_size-insert_unsaved v d i (suc k) x (true ∷ bs) e h = ground (
  arith,
  Dict.lookup-insert (chunk_file i) (chunk_file x) v d,
  stored_size-insert_unsaved v d (suc i) k x bs (omega arith) h,
)
stored_size-insert_unsaved v d i (suc k) x (false ∷ bs) e h =
    stored_size-insert_unsaved v d (suc i) k x bs (omega arith) h

-- Marking a block adds its size.
pub stored_size-set :
    (d : SaveDir) (i k x : ℕ) (bs : List Bool)
    → x ≡ i + k
    → get_elem? bs k ≡ some false
    → stored_size d i (set bs k true) ≡ chunk_size d x + stored_size d i bs
stored_size-set d i k x [] e h = cc
stored_size-set d i zero x (true ∷ bs) e h = cc
stored_size-set d i zero x (false ∷ bs) e h = let same : x ≡ i = omega arith in rw same
stored_size-set d i (suc k) x (true ∷ bs) e h =
    omega (arith, stored_size-set d (suc i) k x bs (omega arith) h)
stored_size-set d i (suc k) x (false ∷ bs) e h = stored_size-set d (suc i) k x bs (omega arith) h

pub HasBlocks-set :
    (d : SaveDir) (i k x : ℕ) (bs : List Bool)
    → x ≡ i + k
    → Dict.lookup (chunk_file x) d ≢ none
    → HasBlocks d i bs
    → HasBlocks d i (set bs k true)
HasBlocks-set d i k x [] e m h = tt
HasBlocks-set d i zero x (true ∷ bs) e m h = h
HasBlocks-set d i zero x (false ∷ bs) e m h = let same : x ≡ i = omega arith in (rw same at m, h)
HasBlocks-set d i (suc k) x (true ∷ bs) e m h =
    (h.0, HasBlocks-set d (suc i) k x bs (omega arith) m h.1)
HasBlocks-set d i (suc k) x (false ∷ bs) e m h = HasBlocks-set d (suc i) k x bs (omega arith) m h
