-- ===== src/Upload/Process/Recorded.antt =====
-- What `fileProcess` of node/putChunksHandle.go leaves behind an answer of status 200.
use de_oss.Base.{
  eqb, length, ◌∙◌, ℕ, map, ◌≡◌, ◌≢◌, ◌⊎◌, refl, String, List, none, inl, inr, arith, Bool-cases,
  string_eq,
}
use de_oss.Base.Dict
use de_oss.Access.Library.{Bytes}
use de_oss.Chain.{Chain, Segment}
use de_oss.Http.{
  ◌>>◌, ◌>>=◌, modify, reply_if, status_bad_request, Outcome, ok, Response,
  status_internal_server_error, bind_elim, Body, done, status_ok,
}
use de_oss.Server.{Server}
use de_oss.Track.{write_track_file}
use de_oss.Track.Atomic.{write_track_file-atomic}
use de_oss.Upload.Dedup.{Upload, Dedup-cases, deduplication}
use de_oss.Upload.Dedup.Exact.{IsVouched, deduplication-known}
use de_oss.Upload.Process.{
  Tools, Whole, ProcessFaults, keep_file, file_process, reuse, move_files, record_upload,
  deduplicate, cut_file, stat_file, upload_record, upload_of, rebase_segment, to_cache,
}

-- The response of a successful upload.
abbrev pub IsStored : {A : Type 0} → String → Outcome A → Type 0
IsStored h x = x ≡ done (record { status = status_ok; body = Body.text h })

module _ (C : Chain) {K : Type 0} (T : Tools K) (f : ProcessFaults) where
  abbrev IsRecorded : {A : Type 0} → String → Outcome A × Server C.State K → Type 0
  IsRecorded h x = IsStored h x.0 → Dict.lookup h x.1.track ≢ none

  record_upload-IsRecorded :
      (u : Upload) (s : Server C.State K) (h : String)
      → f.tmp ≢ h
      → IsStored h (record_upload C T f u s).0
      → Dict.lookup h (record_upload C T f u s).1.track ≢ none
  unfolding record_upload
  record_upload-IsRecorded u s h ne e =
      let record1 = T.encode (upload_record C T f u) in
      let at = write_track_file-atomic f.write_track f.tmp u.roothash record1 s.track h in
      elim (Bool-cases (write_track_file f.write_track f.tmp u.roothash record1 s.track).0) [
        | inl x ↦ ground (arith, x, e, ne, at)
        | inr x ↦ absurd (ground (arith, x, e))
      ]

  reuse-IsRecorded :
      (w : Whole) (hash : String) (s : Server C.State K) (h : String)
      → IsStored h (reuse C T f w hash s).0
      → Dict.lookup h (reuse C T f w hash s).1.track ≢ none
  unfolding reuse
  reuse-IsRecorded w hash s h e = ground (arith, e)

  move_files-not-IsStored :
      (w : Whole) (hash : String) (s : Server C.State K) (h : String)
      → ¬ (IsStored h (move_files C T f w hash s).0)
  unfolding move_files
  move_files-not-IsStored w hash s h e = ground (arith, e)

  keep_file-IsRecorded :
      (w : Whole) (segments : List Segment) (hash : String) (size : ℕ) (s : Server C.State K)
      (h : String)
      → f.tmp ≢ h
      → IsRecorded h (keep_file C T f w segments hash size s)
  unfolding keep_file
  keep_file-IsRecorded w segments hash size s h ne =
      let u = upload_of C T f w (map (rebase_segment C T f hash) segments) hash size in
      let last = modify (to_cache C T f w.account hash) >> record_upload C T f u in
      let s1 = (reuse C T f w hash s).1 in
      bind_elim (IsRecorded h) (reuse C T f w hash) (λ _. move_files C T f w hash >> last) s
        (λ _ p.
          bind_elim (IsRecorded h) (move_files C T f w hash) (λ _. last) s1
            (λ _ q.
              record_upload-IsRecorded u
                (to_cache C T f w.account hash (move_files C T f w hash s1).1) h ne)
            (λ r q e. absurd (move_files-not-IsStored w hash s1 h (q ∙ e)))
            (λ q e. absurd (ground (arith, e))))
        (λ r p e. reuse-IsRecorded w hash s h (p ∙ e)) (λ p e. absurd (ground (arith, e)))

  -- `deduplication`, at a state `t`, found a reason of the chain for the upload `u`, and what it left is
  -- the end of the request.
  abbrev pub IsDuplicate :
      {A : Type 0}
      → Whole
      → String
      → Upload
      → Server C.State K
      → Outcome A × Server C.State K
      → Type 0
  IsDuplicate w h u t x =
      (u.roothash ≡ h)
      × (u.pkey ≡ w.pkey)
      × IsVouched C T.encode f.write_duplicate u t
      × (x.1 ≡ (deduplication C T.encode f.write_duplicate u t).1)

  -- A track file under `h`, or the upload that was cut of the bytes of the request is a duplicate at the
  -- state in which the cutting left the server.
  abbrev pub IsAccounted :
      {A : Type 0} → Whole → Server C.State K → String → Outcome A × Server C.State K → Type 0
  IsAccounted w s h x =
      let read = stat_file C T f w s in
      let parts = cut_file C T f w read.1 in
      (Dict.lookup h x.1.track ≢ none)
      ⊎ ((b : Bytes) × (cut : List Segment × String) × (read.0 ≡ ok b)
          × (parts.0 ≡ ok cut)
          × IsDuplicate w h (upload_of C T f w cut.0 cut.1 (length b)) parts.1 x)

  deduplicate-IsVouched :
      (u : Upload) (s : Server C.State K) (h : String)
      → IsStored h (deduplicate C T f u s).0
      → (u.roothash ≡ h)
        × IsVouched C T.encode f.write_duplicate u s
        × ((deduplicate C T f u s).1 ≡ (deduplication C T.encode f.write_duplicate u s).1)
  unfolding deduplicate
  deduplicate-IsVouched u s h e =
      elim (Dedup-cases (deduplication C T.encode f.write_duplicate u s).0) [
        | inl k ↦
            (ground (arith, k, e), deduplication-known C T.encode f.write_duplicate u s k, refl)
        | inr n ↦ absurd (ground (arith, n, e))
      ]

  cut_file-refuses :
      (w : Whole) (s : Server C.State K) (r : Response)
      → ((cut_file C T f w s).0 ≡ done r → r.status ≡ status_internal_server_error)
        × ((stat_file C T f w s).0 ≡ done r → r.status ≡ status_internal_server_error)
  unfolding cut_file stat_file
  cut_file-refuses w s r = (λ e. ground (arith, e), λ e. ground (arith, e))

  -- Every upload that is answered with success and the root hash `h` is accounted for. Either there is a
  -- track file under `h`; or the bytes that were read and cut make an upload with that root hash and the
  -- sender's key, for which `IsVouched` gives a reason at the very state in which `deduplication` was
  -- called, and the server is left as `deduplication` left it. The temporary track file has another name
  -- than `h`.
  pub file_process-IsAccounted :
      (w : Whole) (s : Server C.State K) (h : String)
      → f.tmp ≢ h
      → IsStored h (file_process C T f w s).0
      → IsAccounted w s h (file_process C T f w s)
  unfolding file_process
  file_process-IsAccounted w s h ne =
      let keep = λ (size : ℕ) (cut : List Segment × String). keep_file C T f w cut.0 cut.1 size in
      let judge = λ (size : ℕ) (cut : List Segment × String).
        deduplicate C T f (upload_of C T f w cut.0 cut.1 size) >> keep size cut in
      let rest = λ (b : Bytes).
        reply_if (eqb (length b) 0) status_bad_request (Body.text "BodyErr_EmptyFile")
        >> (cut_file C T f w >>= judge (length b)) in
      let P = λ (x : Outcome (Unit {0}) × Server C.State K). IsStored h x.0 → IsAccounted w s h x in
      bind_elim P (stat_file C T f w) rest s
        (λ b read.
          bind_elim P
            (reply_if (eqb (length b) 0) status_bad_request (Body.text "BodyErr_EmptyFile"))
            (λ _. cut_file C T f w >>= judge (length b)) (stat_file C T f w s).1
            (λ _ _.
              bind_elim P (cut_file C T f w) (judge (length b)) (stat_file C T f w s).1
                (λ cut parts. judged b cut read parts)
                (λ r p e.
                  absurd (ground (arith, (cut_file-refuses w (stat_file C T f w s).1 r).0 p, e)))
                (λ p e. absurd (ground (arith, e))))
            (λ r p e. absurd (ground (arith, p, e))) (λ p e. absurd (ground (arith, e))))
        (λ r p e. absurd (ground (arith, (cut_file-refuses w s r).1 p, e)))
        (λ p e. absurd (ground (arith, e)))
    where
      t : Server C.State K
      t = (cut_file C T f w (stat_file C T f w s).1).1

      judged :
          (b : Bytes) (cut : List Segment × String)
          → (stat_file C T f w s).0 ≡ ok b
          → (cut_file C T f w (stat_file C T f w s).1).0 ≡ ok cut
          → let u = upload_of C T f w cut.0 cut.1 (length b) in
            let x = (deduplicate C T f u >> keep_file C T f w cut.0 cut.1 (length b)) t in
            IsStored h x.0 → IsAccounted w s h x
      judged b cut read parts =
          let u = upload_of C T f w cut.0 cut.1 (length b) in
          let keep = keep_file C T f w cut.0 cut.1 (length b) in
          let P =
            λ (x : Outcome (Unit {0}) × Server C.State K). IsStored h x.0 → IsAccounted w s h x in
          bind_elim P (deduplicate C T f u) (λ _. keep) t
            (λ _ _ e.
              inl (keep_file-IsRecorded w cut.0 cut.1 (length b) (deduplicate C T f u t).1 h ne e))
            (λ r p e.
              let v = deduplicate-IsVouched u t h (p ∙ e) in
              inr (b, cut, read, parts, (v.0, refl, v.1, v.2)))
            (λ p e. absurd (ground (arith, e)))
