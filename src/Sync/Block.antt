-- ===== src/Sync/Block.antt =====
-- The loop of `syncBlock`: from which block it begins, and what one block does.
pub mod Progress
use de_oss.Base.{
  ℕ, ◌+◌, ◌%◌, String, Bool, true, false, List, [], ◌∷◌, ◌++◌, Option, none, some, map, length, ltb,
  leb, eqb, ◌==◌, string_eq, if◌then◌else◌,
}
use de_oss.Base.Dict
use de_oss.Base.Dict.{Dict}
use de_oss.Base.Word.{two_32, add_32}
use de_oss.Restore.List.{UserFiles}
use de_oss.Sync.Lists.{Lists, EventFaults, record_event}

-- What a read of the database gives.
pub data Read (B : Type 0) : Type 0 where
  value : B → Read B
  not_found : Read B
  read_error : Read B

abbrev pub first_block : ℕ
first_block = 200

abbrev of_cache : {B : Type 0} → (B → Option ℕ) → Read B → ℕ
of_cache atoi (value b) = elim (atoi b) [ none ↦ first_block | some n ↦ n % two_32 ]
of_cache atoi not_found = first_block
of_cache atoi read_error = first_block

-- Where the retrieval begins: `once` and `again` are the reads of the database, and `file` the file of
-- that name. `atoi` is `strconv.Atoi`, of which the code takes the `uint32`.
unfoldable pub start_block : {B : Type 0} → (B → Option ℕ) → Read B → Read B → Option B → ℕ
start_block atoi once again file =
    let cached : ℕ = elim once [
      | not_found ↦ first_block
      | value _ ↦ of_cache atoi again
      | read_error ↦ of_cache atoi again
    ] in
    elim file [
      | none ↦ cached
      | some b ↦ elim (atoi b) [
        | none ↦ cached
        | some n ↦ if ltb cached (n % two_32) then n % two_32 else cached
      ]
    ]

-- `wantFile`, and the event of an upload or a deletion.
pub record WantFile : Type 0 where
  pub operator : String
  pub file : String

pub record FileEvent : Type 0 where
  pub owner : String
  pub operator : String
  pub filehash : String

-- Everything that the loop keeps: the lists of uploads and of deletions have the same database.
pub record Synced (B : Type 0) : Type 0 where
  pub db : Dict String B
  pub ufiles : Dict String B
  pub dfiles : Dict String B
  pub retrieved : ℕ
  pub progress_file : Option ℕ

-- The calls of one block: those of each event, and those on the list of wanted files and the progress.
pub record BlockFaults (B : Type 0) : Type 0 where
  pub event : ℕ → EventFaults B
  pub get_wants : Bool
  pub put_wants : Bool
  pub put_once : Bool
  pub put_again : Bool
  pub write_progress : Bool

pub record Codec (B : Type 0) : Type 0 where
  pub encode : UserFiles → B
  pub decode : B → Option UserFiles
  pub encode_wants : List WantFile → B
  pub decode_wants : B → Option (List WantFile)
  pub itoa : ℕ → B

module _ {B : Type 0} (c : Codec B) (f : BlockFaults B) where
  -- The events of one kind, from the event number `i` on.
  unfoldable pub record_events : String → ℕ → List FileEvent → Lists B → Lists B
  unfolding record_event
  record_events prefix i [] s = s
  record_events prefix i (e ∷ es) s =
      record_events prefix (i + 1) es
        (record_event c.encode c.decode (f.event i) prefix e.owner e.filehash s)

  abbrev put_wanted : List WantFile → Dict String B → Dict String B
  put_wanted ws d = if f.put_wants then d else Dict.insert "wantfiles:" (c.encode_wants ws) d

  -- The files of the block are appended to the list of wanted files; a read that fails drops them.
  unfoldable pub merge_wants : List WantFile → Dict String B → Dict String B
  merge_wants [] d = d
  merge_wants (w ∷ ws) d = if f.get_wants then d else (elim (Dict.lookup "wantfiles:" d) [
    | none ↦ put_wanted (w ∷ ws) d
    | some b ↦ elim (c.decode_wants b) [
      | none ↦ put_wanted (w ∷ ws) d
      | some old ↦ put_wanted (old ++ (w ∷ ws)) d
    ]
  ])

  abbrev want : FileEvent → WantFile
  want e = record { operator = e.operator; file = e.filehash }

  unfoldable pub record_uploads : List FileEvent → Synced B → Synced B
  unfolding record_events merge_wants
  record_uploads es s =
      let r = record_events "userfiles:" 0 es (record { db = s.db; dir = s.ufiles }) in
      record s { db = merge_wants (map want es) r.db; ufiles = r.dir }

  -- The deletions are numbered from `i` on.
  unfoldable pub record_deletes : ℕ → List FileEvent → Synced B → Synced B
  unfolding record_events
  record_deletes i es s =
      let r = record_events "userdeletefiles:" i es (record { db = s.db; dir = s.dfiles }) in
      record s { db = r.db; dfiles = r.dir }

  -- `retrievedBlock++`, which the database keeps, or else the file.
  unfoldable pub save_progress : Synced B → Synced B
  save_progress s =
      let next = add_32 s.retrieved 1 in
      let kept = Dict.insert "syncblock" (c.itoa next) s.db in
      if f.put_once
      then (if f.put_again
          then (if f.write_progress
              then record s { retrieved = next }
              else record s { retrieved = next; progress_file = some next })
          else record s { retrieved = next; db = kept })
      else record s { retrieved = next; db = kept }

  -- A block whose events are `uploads` and `deletes`. Events that could not be read count as none.
  unfoldable pub sync_block : List FileEvent → List FileEvent → Synced B → Synced B
  unfolding record_uploads record_deletes save_progress
  sync_block uploads deletes s =
      save_progress (record_deletes (length uploads) deletes (record_uploads uploads s))
