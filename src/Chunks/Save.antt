-- ===== src/Chunks/Save.antt =====
-- One upload: its record in the file `chunk-info`, and the directory that holds it and the chunks.
use de_oss.Base.{ℕ, Bool, String, List, Option, Eq, string_eq, nat_eq}
use de_oss.Base.Dict.{Dict}
use de_oss.Access.Library.{Bytes}
use native.Mathlib.Decide.{ℕ_discrete}

-- `finished`, `block_num` and `flush_time` are non-negative; the sizes are `int64` patterns.
pub record ChunksInfo : Type 0 where
  pub block_num : ℕ
  pub saved_blocks : List Bool
  pub finished : ℕ
  pub saved_file_size : ℕ
  pub file_name : String
  pub total_size : ℕ
  pub flush_time : ℕ

-- The names in an upload's directory: "chunk-info", "chunk-file-%d", and any other.
pub data EntryName : Type 0 where
  chunk_info : EntryName
  chunk_file : ℕ → EntryName
  named : String → EntryName

EntryName-discrete : Discrete EntryName
EntryName-discrete = hlevel (string_eq.dec, ℕ_discrete)

instance unfoldable pub entry_eq : Eq EntryName
unfolding EntryName-discrete
entry_eq = record { dec = EntryName-discrete }

abbrev pub SaveDir : Type 0
SaveDir = Dict EntryName Bytes

-- Go's library, as the handler uses it. `marshal` and `unmarshal` are json's on `ChunksInfo`;
-- `classify` is the directory entry that a file name denotes; `trailing_index` is the number that
-- the assembly reads from a name: `Contains(name, "chunk-file-")`, then `Atoi` of what follows the
-- last "-". `max_name` is `sconfig.MaxBucketNameLength`.
pub record Library : Type 0 where
  pub marshal : ChunksInfo → Bytes
  pub unmarshal : Bytes → Option ChunksInfo
  pub classify : String → EntryName
  pub trailing_index : String → Option ℕ
  pub max_name : ℕ

-- How the writing of a file ends: whole, with an error after some bytes, or before the file is made.
pub data Written : Type 0 where
  whole : Written
  cut : Bytes → Written
  never : Written

-- How the calls of the operating system end in one request.
pub record Faults : Type 0 where
  pub write_chunk : Written
  pub write_info : Written
  pub create_target : Bool
  pub read_dir : Bool
  pub read_chunk : ℕ → Bool
