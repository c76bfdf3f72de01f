-- ===== src/Restore/List.antt =====
-- `getRestoreHandle` of node/getRestore.go: the user's files in the records, less the deleted ones.
pub mod Exact
pub mod Panics
use de_oss.Base.{
  ℕ, suc, String, ◌<>◌, Bool, true, false, List, [], ◌∷◌, ◌++◌, Option, none, some, contains,
  get_elem?, ◌==◌, string_eq, if◌then◌else◌,
}
use de_oss.Chain.{PublicKey}
use de_oss.Access.{AccessList, access_control}
use de_oss.Access.Library.{Crypto, Bytes}
use de_oss.Access.Params.{UserParams, error_text, or_reply, authenticate}
use de_oss.Http.{Action, Body, ok, done, panic, ◌>>=◌, ◌>>◌, pure, status_forbidden}

-- `userFiles` of node/syncBlock.go
pub record UserFiles : Type 0 where
  pub user : String
  pub files : List String

-- Where the handler reads: the cache, and the directories of saved and of deleted files. `none` is an
-- error. `decode` is what json.Unmarshal leaves in a zero value; its error is ignored.
pub record Records : Type 0 where
  pub get : String → Option Bytes
  pub read_ufile : String → Option Bytes
  pub read_dfile : String → Option Bytes
  pub decode : Bytes → UserFiles

abbrev pub no_files : UserFiles
no_files = record { user = ""; files = [] }

abbrev pub read : (Bytes → UserFiles) → Option Bytes → UserFiles
read decode o = elim o [ none ↦ no_files | some b ↦ decode b ]

abbrev pub owned : String → UserFiles → List String
owned account u = if u.user == account then u.files else []

-- The loop over saved files, which leaves out those that are listed.
unfoldable pub without : List String → List String → List String
without listed [] = []
without listed (f ∷ fs) = if contains listed f then without listed fs else f ∷ without listed fs

unfoldable pub saved_files : String → UserFiles → UserFiles → List String
unfolding without
saved_files account file cache = owned account file ++ without file.files (owned account cache)

-- The inner loop over `userDeletedfils_file.Files`, with `js` left: it compares with the element at
-- `i`, not at `j`. `none` is the panic of an index out of range.
unfoldable pub repeats_at : List String → ℕ → String → List String → Option Bool
repeats_at all i f [] = some false
repeats_at all i f (_ ∷ js) = elim (get_elem? all i) [
  | none ↦ none
  | some g ↦ if f == g then some true else repeats_at all i f js
]

unfoldable pub deleted_from : List String → ℕ → List String → Option (List String)
deleted_from all i [] = some []
deleted_from all i (f ∷ fs) = elim (repeats_at all i f all) [
  | none ↦ none
  | some repeat ↦ elim (deleted_from all (suc i) fs) [
    | none ↦ none
    | some rest ↦ some (if repeat then rest else f ∷ rest)
  ]
]

unfoldable pub deleted_files : String → UserFiles → UserFiles → Option (List String)
unfolding deleted_from repeats_at
deleted_files account file cache = elim (deleted_from file.files 0 (owned account cache)) [
  | none ↦ none
  | some fs ↦ some (owned account file ++ fs)
]

-- From the four records: saved in the directory and in the cache, deleted likewise.
unfoldable pub combine_records :
    String → UserFiles → UserFiles → UserFiles → UserFiles → Option UserFiles
unfolding saved_files deleted_files without
combine_records account ufile ucache dfile dcache = elim (deleted_files account dfile dcache) [
  | none ↦ none
  | some deleted ↦
      some (record { user = account; files = without deleted (saved_files account ufile ucache) })
]

unfoldable pub restore_list : String → Records → Option UserFiles
unfolding combine_records
restore_list account r =
    combine_records account (read r.decode (r.read_ufile account))
      (read r.decode (r.get ("userfiles:" <> account))) (read r.decode (r.read_dfile account))
      (read r.decode (r.get ("userdeletefiles:" <> account)))

-- The whole handler: the value that is sent with status 200.
unfoldable pub get_restore :
    {S : Type 0} → Crypto → AccessList → UserParams → Records → Action S UserFiles
get_restore c l p r = do
  or_reply (access_control c l p.account) status_forbidden (λ e. Body.text (error_text e))
  _ ← authenticate c l p
  λ s. elim (restore_list p.account r) [ none ↦ (panic, s) | some u ↦ (ok u, s) ]
