-- ===== src/Upload/Process.antt =====
-- `fileProcess` of node/putChunksHandle.go: the whole file is cut up, recorded and ordered.
pub mod Recorded
use Prim.Native.String.{len}
use de_oss.Base.{
  ℕ, Bool, true, false, String, List, [], ◌∷◌, Option, none, some, contains, string_eq,
  if◌then◌else◌, ◌==◌, ◌<>◌, map, eqb, ltb, length, not, zero, suc,
}
use de_oss.Base.Dict
use de_oss.Base.Dict.{Dict}
use de_oss.Access.Library.{Bytes}
use de_oss.Chain.{Chain, PublicKey, Reply, found, Segment}
use de_oss.Chunks.Save.{EntryName, entry_eq, SaveDir, Written}
use de_oss.Track.{RecordInfo, TrackDir, WriteFault, has_track_file, write_track_file}
use de_oss.Server.{Server, account_dir, save_dir, put_dir, remove_dir}
use de_oss.Admission.{internal_error}
use de_oss.Http.{
  Action, Body, ok, done, panic, ◌>>=◌, ◌>>◌, pure, reply, reply_if, branch, modify, status_ok,
  status_bad_request, status_forbidden, status_internal_server_error,
}
use de_oss.Upload.Dedup.{Upload, Dedup, known, fresh, order_failed, duplicate_failed, deduplication}

-- The result of `process.ShardedEncryptionProcessing`: the segments and the root hash, or an error.
pub data Cutting : Type 0 where
  cut_up : List Segment → String → Cutting
  not_cut : String → Cutting

-- The libraries: the cutting of a file with a cipher, which leaves the fragments in its directory; the
-- file cache; the track record's encoding; the entry that a name denotes; and
-- `filepath.Join(roothashDir, filepath.Base(path))`.
pub record Tools (K : Type 0) : Type 0 where
  pub shard : EntryName → String → SaveDir → Cutting × SaveDir
  pub move_file_to_cache : String → EntryName → SaveDir → K → SaveDir × K
  pub encode : RecordInfo → Bytes
  pub classify : String → EntryName
  pub rebase : String → String → String

-- The arguments of `fileProcess`; the file is the entry `file` of the account's directory `dir`.
pub record Whole : Type 0 where
  pub filename : String
  pub bucket_name : String
  pub account : String
  pub dir : String
  pub file : EntryName
  pub cipher : String
  pub pkey : PublicKey

-- How the calls of the operating system end: `rename_dir` is the number of files after which the
-- moving fails, and `tmp` the name of the temporary track file.
pub record ProcessFaults : Type 0 where
  pub mkdir : Bool
  pub rename_dir : Option ℕ
  pub rename : Bool
  pub write_duplicate : Written
  pub write_track : WriteFault
  pub tmp : String

abbrev pub display_name : String → String
display_name name =
    let n = if name == "" then "null" else name in if ltb (len n) 3 then n <> ".ces" else n

-- `utils.RenameDir`: every file moves, one by one, over a file of that name. The result tells whether
-- all did, what is left of the old directory, and the new one.
unfoldable pub rename_dir : Option ℕ → SaveDir → SaveDir → Bool × SaveDir × SaveDir
rename_dir o [] new = (true, [], new)
rename_dir (some zero) (e ∷ old) new = (false, e ∷ old, new)
rename_dir (some (suc k)) ((e, b) ∷ old) new = rename_dir (some k) old (Dict.insert e b new)
rename_dir none ((e, b) ∷ old) new = rename_dir none old (Dict.insert e b new)

module _ (C : Chain) {K : Type 0} (T : Tools K) (f : ProcessFaults) where
  abbrev Step : Type 0 → Type 0
  Step A = Action (Server C.State K) A

  unfoldable pub stat_file : Whole → Step Bytes
  stat_file w s = elim (Dict.lookup w.file (save_dir w.account w.dir s.files)) [
    | none ↦ (done (record { status = status_internal_server_error; body = internal_error }), s)
    | some b ↦ (ok b, s)
  ]

  unfoldable pub cut_file : Whole → Step (List Segment × String)
  cut_file w s =
      let (r, d) = T.shard w.file w.cipher (save_dir w.account w.dir s.files) in
      (
        elim r [
          | cut_up segments hash ↦ ok (segments, hash)
          | not_cut e ↦ done (record { status = status_internal_server_error; body = Body.text e })
        ],
        record s { files = put_dir w.account w.dir d s.files },
      )

  unfoldable pub deduplicate : Upload → Step (Unit {0})
  unfolding deduplication
  deduplicate u s =
      let (d, t) = deduplication C T.encode f.write_duplicate u s in
      (
        elim d [
          | known ↦ done (record { status = status_ok; body = Body.text u.roothash })
          | fresh ↦ ok tt
          | order_failed ↦
              done (record { status = status_forbidden; body = Body.text "rpc connection failed" })
          | duplicate_failed ↦
              done (record { status = status_internal_server_error; body = internal_error })
        ],
        t,
      )

  -- `n.MoveFileToCache(roothash, filepath.Join(roothashDir, roothash))`; its error is only logged.
  abbrev pub to_cache : String → String → Server C.State K → Server C.State K
  to_cache account hash s =
      let (d, k) =
        T.move_file_to_cache hash (T.classify hash) (save_dir account hash s.files) s.cache in
      record s { files = put_dir account hash d s.files; cache = k }

  -- The same content is being stored for this account already.
  unfoldable pub reuse : Whole → String → Step (Unit {0})
  reuse w hash s =
      if Dict.member hash (account_dir w.account s.files)
      then (if has_track_file hash s.track
          then (
            done (record { status = status_ok; body = Body.text hash }),
            to_cache w.account hash s,
          )
          else (ok tt, s))
      else (ok tt, s)

  -- The directory becomes the one of the root hash, and the file in it is named by the root hash.
  unfoldable pub move_files : Whole → String → Step (Unit {0})
  unfolding rename_dir
  move_files w hash s =
      if f.mkdir
      then (done (record { status = status_internal_server_error; body = internal_error }), s)
      else (let (moved, old, new) =
            rename_dir f.rename_dir (save_dir w.account w.dir s.files)
              (save_dir w.account hash s.files) in
          elim moved [
            | false ↦ (
              done (record { status = status_internal_server_error; body = internal_error }),
              record s { files = put_dir w.account hash new (put_dir w.account w.dir old s.files) },
            )
            | true ↦
                let left = remove_dir w.account w.dir s.files in
                elim (if f.rename then none else Dict.lookup w.file new) [
                  | none ↦ (
                    done (record { status = status_internal_server_error; body = internal_error }),
                    record s { files = remove_dir w.account hash left },
                  )
                  | some b ↦ (
                    ok tt,
                    record s {
                      files =
                          put_dir w.account hash
                            (Dict.insert (T.classify hash) b (Dict.erase w.file new)) left;
                    },
                  )
                ]
          ])

  abbrev pub upload_record : Upload → RecordInfo
  upload_record u = record {
    segment_info = some u.segment_info;
    owner = u.pkey;
    roothash = u.roothash;
    filename = u.filename;
    buckname = u.bucket_name;
    filesize = u.file_size;
    putflag = false;
    count = 0;
    duplicate = false;
  }

  abbrev pub rebase_segment : String → Segment → Segment
  rebase_segment hash g = record {
    segment_hash = T.rebase hash g.segment_hash;
    fragment_hash = map (T.rebase hash) g.fragment_hash;
  }

  -- The track file, and the order, whose error is only logged: the tracker orders again.
  unfoldable pub record_upload : Upload → Step (Unit {0})
  unfolding write_track_file
  record_upload u s =
      let (written, t) =
        write_track_file f.write_track f.tmp u.roothash (T.encode (upload_record u)) s.track in
      elim written [
        | false ↦ (
          done (record { status = status_internal_server_error; body = internal_error }),
          record s { track = t },
        )
        | true ↦
            let (_, n) =
              C.generate_storage_order u.roothash u.segment_info u.pkey u.filename u.bucket_name
                u.file_size s.net in
            (
              done (record { status = status_ok; body = Body.text u.roothash }),
              record s { net = n; track = t },
            )
      ]

  abbrev pub upload_of : Whole → List Segment → String → ℕ → Upload
  upload_of w segments hash size = record {
    pkey = w.pkey;
    segment_info = segments;
    roothash = hash;
    filename = display_name w.filename;
    bucket_name = w.bucket_name;
    file_size = size;
  }

  -- A file that is not known: it moves to the directory and the cache, and is recorded.
  unfoldable pub keep_file : Whole → List Segment → String → ℕ → Step (Unit {0})
  unfolding reuse move_files record_upload
  keep_file w segments hash size = do
    reuse w hash
    move_files w hash
    modify (to_cache w.account hash)
    record_upload (upload_of w (map (rebase_segment hash) segments) hash size)

  unfoldable pub file_process : Whole → Step (Unit {0})
  unfolding stat_file cut_file deduplicate keep_file
  file_process w = do
    b ← stat_file w
    reply_if (eqb (length b) 0) status_bad_request (Body.text "BodyErr_EmptyFile")
    cut ← cut_file w
    deduplicate (upload_of w cut.0 cut.1 (length b))
    keep_file w cut.0 cut.1 (length b)
