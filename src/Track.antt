-- ===== src/Track.antt =====
-- The records of uploads under way: `RecordInfo` of node/tracker.go, and the directory of track files
-- with the operations of node/node.go on it.
pub mod Atomic
use Prim.Native.String.{len}
use de_oss.Base.{
  ℕ, Bool, true, false, String, List, Option, none, some, ltb, eqb, length, not, string_eq, ◌==◌,
  if◌then◌else◌,
}
use de_oss.Base.Dict
use de_oss.Base.Dict.{Dict, keys}
use de_oss.Access.Library.{Bytes}
use de_oss.Chain.{PublicKey, Segment}

-- `segment_info` is `none` for a nil slice.
pub record RecordInfo : Type 0 where
  pub segment_info : Option (List Segment)
  pub owner : PublicKey
  pub roothash : String
  pub filename : String
  pub buckname : String
  pub filesize : ℕ
  pub putflag : Bool
  pub count : ℕ
  pub duplicate : Bool

-- File names under `trackDir`, with the files' bytes.
abbrev pub TrackDir : Type 0
TrackDir = Dict String Bytes

abbrev pub min_record_info_length : ℕ
min_record_info_length = 132

-- `len(chain.FileHash{})`
abbrev pub file_hash_length : ℕ
file_hash_length = 64

-- How the calls of one `WriteTrackFile` end: `os.Create` fails, `Write` or `Sync` fails with some of
-- the bytes in the file, `os.Rename` fails, or none does.
pub data WriteFault : Type 0 where
  no_create : WriteFault
  no_write : Bytes → WriteFault
  no_rename : WriteFault
  no_fault : WriteFault

-- After the two tests of the arguments; `tmp` is the name that `uuid.New()` gives.
abbrev pub replace_file : WriteFault → String → String → Bytes → TrackDir → Bool × TrackDir
replace_file no_create tmp hash content t = (false, Dict.erase tmp t)
replace_file (no_write p) tmp hash content t =
    (false, Dict.erase tmp (Dict.insert tmp p (Dict.erase tmp t)))
replace_file no_rename tmp hash content t =
    (false, Dict.erase tmp (Dict.insert tmp content (Dict.erase tmp t)))
replace_file no_fault tmp hash content t = (
  true,
  Dict.erase tmp
      (Dict.insert hash content (Dict.erase tmp (Dict.insert tmp content (Dict.erase tmp t)))),
)

-- `true` is a nil error.
unfoldable pub write_track_file : WriteFault → String → String → Bytes → TrackDir → Bool × TrackDir
write_track_file o tmp hash content t =
    if ltb (length content) min_record_info_length
    then (false, t)
    else (if not (eqb (len hash) file_hash_length)
        then (false, t)
        else replace_file o tmp hash content t)

-- `decode` is json.Unmarshal; a file that is not there is an error too.
abbrev pub parse_track_file : (Bytes → Option RecordInfo) → String → TrackDir → Option RecordInfo
parse_track_file decode hash t = elim (Dict.lookup hash t) [ none ↦ none | some b ↦ decode b ]

abbrev pub has_track_file : String → TrackDir → Bool
has_track_file hash t = Dict.member hash t

abbrev pub list_track_files : TrackDir → List String
list_track_files t = keys t

abbrev pub delete_track_file : String → TrackDir → TrackDir
delete_track_file hash t = Dict.erase hash t
