-- ===== src/Restore/Request.antt =====
-- `postRestoreHandle` of node/postRestore.go: files that the gateway still has are stored once more.
pub mod Recorded
use de_oss.Base.{
  ℕ, ◌+◌, ◌*◌, ◌/◌, ◌%◌, String, Bool, true, false, List, [], ◌∷◌, Option, none, some, length, ltb,
  leb, eqb, contains, not, ◌==◌, ◌&&◌, string_eq, if◌then◌else◌,
}
use de_oss.Base.Word.{two_32, two_64, lt_i64, add_32}
use de_oss.Access.{AccessList, access_control}
use de_oss.Access.Library.{Bytes, Crypto}
use de_oss.Access.Params.{UserParams, authenticate, or_reply, error_text, invalid_bucket_name}
use de_oss.Admission.{or_deny, rpc_failed, not_authorized, internal_error}
use de_oss.Chain.{Chain, PublicKey, Reply, found, UserSpace}
use de_oss.Http.{
  Action, Body, Outcome, ok, done, panic, ◌>>=◌, ◌>>◌, pure, reply_if, status_ok,
  status_bad_request, status_forbidden, status_internal_server_error,
}
use de_oss.Server.{Server, on_net}
use de_oss.Track.{RecordInfo, TrackDir, WriteFault, write_track_file}
use de_oss.Upload.Put.{with_backup}

-- The request: `files` is none if the body cannot be bound.
pub record RestoreRequest : Type 0 where
  pub params : UserParams
  pub files : Option (List String)

-- The file system and the encoding: the size of a file under `FileDir`, if it is there; how the writing
-- of each track file ends; and the names of the temporary files. `segment_size` is
-- `sconfig.SegmentSize`.
pub record Disk : Type 0 where
  pub size : String → Option ℕ
  pub fault : String → WriteFault
  pub tmp : String → String
  pub encode : RecordInfo → Bytes
  pub segment_size : ℕ

abbrev pub restore_record : PublicKey → String → String → ℕ → RecordInfo
restore_record pkey bucket hash n = record {
  segment_info = none;
  owner = pkey;
  roothash = hash;
  filename = "empty";
  buckname = bucket;
  filesize = n;
  putflag = false;
  count = 0;
  duplicate = false;
}

module _ (d : Disk) where
  -- The size in whole segments.
  abbrev pub rounded : ℕ → ℕ
  rounded n =
      (if eqb (n % d.segment_size) 0 then n / d.segment_size else n / d.segment_size + 1)
      * d.segment_size

  -- The sum of an `int64`, from `used` on.
  unfoldable pub used_space : List String → ℕ → ℕ
  used_space [] used = used
  used_space (h ∷ hs) used = elim (d.size h) [
    | none ↦ used_space hs used
    | some n ↦ used_space hs ((used + rounded n) % two_64)
  ]

  -- The loop that writes the track files: did every write succeed?
  unfoldable pub restore_files : PublicKey → String → List String → TrackDir → Bool × TrackDir
  unfolding write_track_file
  restore_files pkey bucket [] t = (true, t)
  restore_files pkey bucket (h ∷ hs) t = elim (d.size h) [
    | none ↦ restore_files pkey bucket hs t
    | some n ↦
        let (w, t') =
          write_track_file (d.fault h) (d.tmp h) h (d.encode (restore_record pkey bucket h n)) t in
        let (b, t'') = restore_files pkey bucket hs t' in (w && b, t'')
  ]

  module _ (C : Chain) (own : PublicKey) where
    -- The chain's list of authorised accounts; an error counts as an empty list.
    abbrev authorised : PublicKey → Action C.State (Unit {0})
    authorised pkey n =
        let (r, n') = C.query_authority_list pkey n in
        (
          if elim r [ found accounts ↦ contains accounts own | _ ↦ false ]
              then ok tt
              else done (record { status = status_forbidden; body = not_authorized }),
          n',
        )

    unfoldable pub check_restore : PublicKey → List String → Action C.State (Unit {0})
    unfolding used_space with_backup
    check_restore pkey files = do
      authorised pkey
      user_info ←
          or_deny (C.query_user_owned_space pkey)
            (status_forbidden, Body.text "account does not exist") (λ _. rpc_failed)
      height ← or_deny C.query_block_number rpc_failed (λ _. rpc_failed)
      reply_if (ltb (user_info.deadline % two_32) (add_32 height 100)) status_forbidden
          (Body.text "space expires soon")
      reply_if (leb two_64 user_info.remaining_space) status_internal_server_error internal_error
      reply_if (lt_i64 user_info.remaining_space (with_backup (used_space files 0)))
          status_forbidden (Body.text "not enough account space")

  module _ (C : Chain) {K : Type 0} (c : Crypto) (l : AccessList) (own : PublicKey) where
    -- Every failed write adds an answer of status 500, of which the first sets the status; without one
    -- the handler ends without an answer, which is an empty one of status 200.
    unfoldable pub write_records :
        PublicKey → String → List String → Action (Server C.State K) (Unit {0})
    unfolding restore_files
    write_records pkey bucket files s =
        let (w, t) = restore_files pkey bucket files s.track in
        (
          done (
              if w
              then record { status = status_ok; body = Body.nil }
              else record { status = status_internal_server_error; body = internal_error }),
          record s { track = t },
        )

    abbrev or_bad_list : Option (List String) → Action (Server C.State K) (List String)
    or_bad_list o s = elim o [
      | none ↦ (
        done (record { status = status_bad_request; body = Body.text "InvalidBody.RestoreFiles" }),
        s,
      )
      | some files ↦ (ok files, s)
    ]

    unfoldable pub post_restore : RestoreRequest → Action (Server C.State K) (Unit {0})
    unfolding authenticate check_restore write_records
    post_restore r = do
      or_reply (access_control c l r.params.account) status_forbidden
          (λ e. Body.text (error_text e))
      pkey ← authenticate c l r.params
      files ← or_bad_list r.files
      reply_if (eqb (length files) 0) status_bad_request Body.empty_object
      reply_if (not (c.check_bucket_name r.params.bucket_name)) status_bad_request
          invalid_bucket_name
      on_net (check_restore C own pkey files)
      write_records pkey r.params.bucket_name files
