-- ===== src/Tracker/Follow.antt =====
-- `trackFile` of node/tracker.go: one pass of its loop over a file, from the track file to the sending
-- of the fragments.
pub mod Deletes
use de_oss.Base.{
  ℕ, String, Bool, true, false, List, [], ◌∷◌, ◌++◌, Option, none, some, contains, not, ◌==◌,
  string_eq, if◌then◌else◌,
}
use de_oss.Access.Library.{Bytes}
use de_oss.Chain.{Chain, PublicKey, Reply, found, empty, failed, Segment, StorageOrder}
use de_oss.Track.{
  RecordInfo, TrackDir, WriteFault, write_track_file, parse_track_file, delete_track_file,
}
use de_oss.Tracker.Storage.{
  Network, Groups, storage_data, StorageResult, transferred, no_peers, out_of_range,
}
use de_oss.Upload.Process.{Cutting, cut_up, not_cut}

-- How a pass ends: another one follows, `return nil`, an error, or a panic.
pub data Next : Type 0 where
  again : Next
  finished : Next
  with_error : Next
  crashed : Next

-- The calls of `os.RemoveAll` and `os.Rename`, whose errors are ignored.
pub data DiskCall : Type 0 where
  remove_all : String → DiskCall
  rename : String → String → DiskCall

pub record Tracking (N : Type 0) : Type 0 where
  pub net : N
  pub track : TrackDir
  pub calls : List DiskCall

-- Go's library and the network: JSON, `filepath.Dir` and `Join`, `GetDirs().FileDir`, the cutting of a
-- file without a cipher, the peers, and the order in which the batches come from their map.
pub record Outside : Type 0 where
  pub encode : RecordInfo → Bytes
  pub decode : Bytes → Option RecordInfo
  pub dir : String → String
  pub join : String → String → String
  pub file_dir : String
  pub reshard : String → Cutting
  pub network : Network
  pub peers : Option (List String)
  pub order : Groups → Groups

abbrev pub segments_of : RecordInfo → List Segment
segments_of r = elim r.segment_info [ none ↦ [] | some ss ↦ ss ]

-- `own` is the gateway's key; `fault` and `tmp` are those of the pass's one write of the track file.
module _ (C : Chain) (x : Outside) (own : PublicKey) (fault : WriteFault) (tmp : String) where
  abbrev Pass : Type 0
  Pass = Tracking C.State → Next × Tracking C.State

  -- What is called when the segments' directory, `baseDir`, is no longer needed.
  abbrev pub clean_up : RecordInfo → (String → List DiskCall) → List DiskCall
  clean_up r extra = elim (segments_of r) [
    | [] ↦ []
    | g ∷ _ ↦ extra (x.dir g.segment_hash) ++ (remove_all (x.dir g.segment_hash) ∷ [])
  ]

  -- Writing the record again, and then going on.
  unfoldable pub rewrite : String → RecordInfo → Pass → Pass
  unfolding write_track_file
  rewrite hash r k s =
      let (written, t) = write_track_file fault tmp hash (x.encode r) s.track in
      elim written [
        | false ↦ (with_error, record s { track = t })
        | true ↦ k (record s { track = t })
      ]

  -- The fragments are sent. `errors.Wrapf` of a nil error is nil, so a hash that is not the file's ends
  -- the thread without an error.
  unfoldable pub send_file : String → RecordInfo → StorageOrder → Pass
  unfolding storage_data
  send_file hash r o s =
      let send : List Segment → Next × Tracking C.State = λ segments.
        let (result, n) = storage_data C x.network x.order x.peers segments o.complete_list s.net in
        (
          elim result [ transferred _ ↦ again | no_peers ↦ with_error | out_of_range ↦ crashed ],
          record s { net = n },
        ) in
      elim r.segment_info [
        | some segments ↦ send segments
        | none ↦ elim (x.reshard (x.join x.file_dir hash)) [
          | not_cut _ ↦ (with_error, s)
          | cut_up segments h ↦ if h == hash then send segments else (finished, s)
        ]
      ]

  -- A file that another user's order covers: once it is stored the user joins its owners; if that order
  -- is gone this record becomes the primary one.
  unfoldable pub follow_duplicate : String → RecordInfo → Pass
  unfolding rewrite
  follow_duplicate hash r s =
      let (file, n) = C.query_file hash s.net in
      elim file [
        | found _ ↦
            let (order, n') =
              C.generate_storage_order r.roothash [] r.owner r.filename r.buckname r.filesize n in
            elim order [
              | found _ ↦ (
                finished,
                record {
                  net = n';
                  track = delete_track_file hash s.track;
                  calls =
                      s.calls
                      ++ clean_up r
                          (λ base. rename (x.join base hash) (x.join x.file_dir hash) ∷ []);
                },
              )
              | _ ↦ (with_error, record s { net = n' })
            ]
        | _ ↦
            let (deal, n') = C.query_deal_map r.roothash n in
            elim deal [
              | found _ ↦ (finished, record s { net = n' })
              | failed _ ↦ (with_error, record s { net = n' })
              | empty ↦
                  rewrite hash (record r { duplicate = false; putflag = false })
                    (λ t. (finished, t)) (record s { net = n' })
            ]
      ]

  -- There is an order for the file.
  unfoldable pub follow_order : String → RecordInfo → StorageOrder → Pass
  unfolding follow_duplicate send_file
  follow_order hash r o s =
      if not (hash == r.roothash)
      then (with_error, record s { track = delete_track_file hash s.track })
      else (if r.duplicate then follow_duplicate hash r s else send_file hash r o s)

  -- The gateway is authorised, and orders once more.
  unfoldable pub order_again : String → RecordInfo → Pass
  unfolding follow_order
  order_again hash r s =
      let (order, n) =
        C.generate_storage_order hash (segments_of r) r.owner r.filename r.buckname r.filesize
          s.net in
      elim order [
        | found _ ↦
            let (deal, n') = C.query_deal_map hash n in
            elim deal [
              | found o ↦ follow_order hash r o (record s { net = n' })
              | _ ↦ (with_error, record s { net = n' })
            ]
        | _ ↦ (with_error, record s { net = n })
      ]

  -- There is none: the user's leave is asked for again. `ERR_Empty` counts as an empty list.
  unfoldable pub check_authority : String → RecordInfo → Pass
  unfolding order_again
  check_authority hash r s =
      let (reply, n) = C.query_authority_list r.owner s.net in
      let judge : List PublicKey → Next × Tracking C.State = λ accounts.
        if contains accounts own then order_again hash r (record s { net = n }) else (
          with_error,
          record {
            net = n;
            track = delete_track_file hash s.track;
            calls = s.calls ++ clean_up r (λ _. []);
          },
        ) in
      elim reply [
        | found accounts ↦ judge accounts
        | empty ↦ judge []
        | failed _ ↦ (with_error, record s { net = n })
      ]

  -- The chain does not have the file.
  unfoldable pub follow_pending : String → RecordInfo → Pass
  unfolding rewrite follow_order check_authority
  follow_pending hash r s =
      let (deal, n) = C.query_deal_map hash s.net in
      elim deal [
        | found o ↦ follow_order hash r o (record s { net = n })
        | failed _ ↦ (with_error, record s { net = n })
        | empty ↦
            let reset = record r { putflag = false; count = 0 } in
            rewrite hash reset (check_authority hash reset) (record s { net = n })
      ]

  unfoldable pub track_file : String → Pass
  unfolding follow_pending
  track_file hash s = elim (parse_track_file x.decode hash s.track) [
    | none ↦ (with_error, s)
    | some r ↦
        let (file, n) = C.query_file hash s.net in
        elim file [
          | found _ ↦ (
            finished,
            record {
              net = n;
              track = delete_track_file hash s.track;
              calls = s.calls ++ elim (segments_of r) [
                | [] ↦ []
                | g ∷ _ ↦
                    remove_all (x.join x.file_dir hash) ∷ remove_all (x.dir g.segment_hash) ∷ []
              ];
            },
          )
          | failed _ ↦ (with_error, record s { net = n })
          | empty ↦ follow_pending hash r (record s { net = n })
        ]
  ]
