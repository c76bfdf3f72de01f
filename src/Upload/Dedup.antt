-- ===== src/Upload/Dedup.antt =====
-- `deduplication` of node/putHandle.go: is the content known to the chain already?
pub mod Exact
use de_oss.Base.{
  ◌≡◌, ◌⊎◌, inl, inr, refl, ℕ, Bool, true, false, String, List, [], Option, none, some, contains,
  string_eq, if◌then◌else◌, ◌==◌, map,
}
use de_oss.Base.Dict
use de_oss.Access.Library.{Bytes}
use de_oss.Chain.{
  Chain, PublicKey, Reply, found, empty, failed, Segment, UserBrief, FileMeta, StorageOrder,
}
use de_oss.Chunks.Save.{Written, whole, cut, never}
use de_oss.Track.{RecordInfo, TrackDir, has_track_file}
use de_oss.Server.{Server}

-- What the handler knows of the file; the chain gets the fields one by one.
pub record Upload : Type 0 where
  pub pkey : PublicKey
  pub segment_info : List Segment
  pub roothash : String
  pub filename : String
  pub bucket_name : String
  pub file_size : ℕ

-- `(true, nil)`, `(false, nil)`, an error marked "[GenerateStorageOrder]", and any other error.
pub data Dedup : Type 0 where
  known : Dedup
  fresh : Dedup
  order_failed : Dedup
  duplicate_failed : Dedup

pub Dedup-cases :
    (d : Dedup) → (d ≡ known) ⊎ ((d ≡ fresh) ⊎ ((d ≡ order_failed) ⊎ (d ≡ duplicate_failed)))
Dedup-cases known = inl refl
Dedup-cases fresh = inr (inl refl)
Dedup-cases order_failed = inr (inr (inl refl))
Dedup-cases duplicate_failed = inr (inr (inr refl))

abbrev pub owns : PublicKey → FileMeta → Bool
owns pkey m = contains (map (λ (b : UserBrief). b.user) m.owner) pkey

-- The record of a file that another user is storing; its size is not recorded.
abbrev pub duplicate_record : Upload → RecordInfo
duplicate_record u = record {
  segment_info = some u.segment_info;
  owner = u.pkey;
  roothash = u.roothash;
  filename = u.filename;
  buckname = u.bucket_name;
  filesize = 0;
  putflag = false;
  count = 0;
  duplicate = true;
}

-- The file is created and written in place.
abbrev pub write_duplicate : Written → String → Bytes → TrackDir → Dedup × TrackDir
write_duplicate whole hash b t = (known, Dict.insert hash b t)
write_duplicate (cut p) hash b t = (duplicate_failed, Dict.insert hash p t)
write_duplicate never hash b t = (duplicate_failed, t)

module _ (C : Chain) {K : Type 0} (encode : RecordInfo → Bytes) (w : Written) where
  -- The file is on the chain: the user owns it, or a further order makes them an owner.
  unfoldable pub join_owners : Upload → FileMeta → Server C.State K → Dedup × Server C.State K
  join_owners u m s =
      if owns u.pkey m
      then (known, s)
      else (let (r, n) =
            C.generate_storage_order u.roothash [] u.pkey u.filename u.bucket_name u.file_size
              s.net in
          (elim r [ found _ ↦ known | _ ↦ order_failed ], record s { net = n }))

  -- The file is being stored: by the user, or by another, whom this upload waits for.
  unfoldable pub wait_for_order :
      Upload → StorageOrder → Server C.State K → Dedup × Server C.State K
  wait_for_order u o s =
      if o.user.user == u.pkey
      then (known, s)
      else (if has_track_file u.roothash s.track
          then (duplicate_failed, s)
          else (let (d, t) = write_duplicate w u.roothash (encode (duplicate_record u)) s.track in
              (d, record s { track = t })))

  -- An error of a query, of whatever kind, counts as an absent file.
  unfoldable pub deduplication : Upload → Server C.State K → Dedup × Server C.State K
  unfolding join_owners wait_for_order
  deduplication u s =
      let (file, n) = C.query_file u.roothash s.net in
      elim file [
        | found m ↦ join_owners u m (record s { net = n })
        | _ ↦
            let (order, n') = C.query_deal_map u.roothash n in
            elim order [
              | found o ↦ wait_for_order u o (record s { net = n' })
              | _ ↦ (fresh, record s { net = n' })
            ]
      ]
