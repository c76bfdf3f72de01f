-- ===== src/Sync/Lists.antt =====
-- One event of a block: a file is added to a user's list in the database, or else in the file system.
pub mod Resilient
use de_oss.Base.{
  ℕ, String, Bool, true, false, List, [], ◌∷◌, ◌++◌, Option, none, some, not, ◌<>◌, ◌==◌, string_eq,
  if◌then◌else◌,
}
use de_oss.Base.Dict
use de_oss.Base.Dict.{Dict}
use de_oss.Restore.List.{UserFiles, no_files}

-- What is stored is of a type `B`, of which JSON makes bytes.
-- The database, and one of the directories `ufileDir` and `dfileDir`.
pub record Lists (B : Type 0) : Type 0 where
  pub db : Dict String B
  pub dir : Dict String B

-- How the writing of a file ends: whole, with a part of the content, or before the file is opened.
pub data Faulty (B : Type 0) : Type 0 where
  whole : Faulty B
  cut : B → Faulty B
  never : Faulty B

-- How the calls end: the two reads and the write of the database, and the renaming and writing of a
-- file.
pub record EventFaults (B : Type 0) : Type 0 where
  pub get_once : Bool
  pub get_again : Bool
  pub put : Bool
  pub rename : Bool
  pub write : Faulty B

-- `os.WriteFile`
unfoldable pub write_file : {B : Type 0} → Faulty B → String → B → Dict String B → Dict String B
write_file whole k b d = Dict.insert k b d
write_file (cut p) k b d = Dict.insert k p d
write_file never k b d = d

abbrev pub only : String → String → UserFiles
only owner hash = record { user = owner; files = hash ∷ [] }

abbrev pub and_file : UserFiles → String → UserFiles
and_file u hash = record u { files = u.files ++ (hash ∷ []) }

module _ {B : Type 0} (encode : UserFiles → B) (decode : B → Option UserFiles)
    (f : EventFaults B) where
  -- `saveUserFileToFile` and `saveUserDeletedFileToFile`. A file of another user is moved to its name.
  unfoldable pub save_to_file : String → String → Dict String B → Dict String B
  unfolding write_file
  save_to_file owner hash d = elim (Dict.lookup owner d) [
    | none ↦ write_file f.write owner (encode (only owner hash)) d
    | some b ↦ elim (decode b) [
      | none ↦ d
      | some u ↦
          if not (u.user == owner)
          then (if f.rename
              then d
              else write_file f.write owner (encode (only owner hash))
                  (Dict.insert u.user b (Dict.erase owner d)))
          else write_file f.write owner (encode (and_file u hash)) d
    ]
  ]

  -- `n.Put`, which changes nothing if it fails.
  abbrev pub put : String → B → Dict String B → Bool × Dict String B
  put k b d = if f.put then (false, d) else (true, Dict.insert k b d)

  -- `saveUserFileToDb` and `saveUserDeletedFileToDb`, whose error is only logged.
  unfoldable pub save_to_db : String → String → String → Lists B → Lists B
  save_to_db prefix owner hash s = record s {
    db = (put (prefix <> owner) (encode (only owner hash)) s.db).1;
  }

  -- The list in the database is known to be `b`.
  unfoldable pub extend : String → String → String → B → Lists B → Lists B
  unfolding save_to_file
  extend prefix owner hash b s = elim (decode b) [
    | none ↦ record s { dir = save_to_file owner hash s.dir }
    | some u ↦
        let (stored, d) = put (prefix <> owner) (encode (and_file u hash)) s.db in
        if stored
        then record s { db = d }
        else record { db = d; dir = save_to_file owner hash s.dir }
  ]

  -- The body of the loops over the events of a block. A list that the second read does not find goes to
  -- the file system.
  unfoldable pub record_event : String → String → String → Lists B → Lists B
  unfolding save_to_db extend save_to_file
  record_event prefix owner hash s = elim f.get_once [
    | false ↦ elim (Dict.lookup (prefix <> owner) s.db) [
      | none ↦ save_to_db prefix owner hash s
      | some b ↦ extend prefix owner hash b s
    ]
    | true ↦ elim (if f.get_again then none else Dict.lookup (prefix <> owner) s.db) [
      | none ↦ record s { dir = save_to_file owner hash s.dir }
      | some b ↦ extend prefix owner hash b s
    ]
  ]
