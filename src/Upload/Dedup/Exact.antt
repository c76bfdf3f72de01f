-- ===== src/Upload/Dedup/Exact.antt =====
-- The answers of `deduplication` of node/putHandle.go.
use de_oss.Base.{
  ◌≡◌, ◌⊎◌, refl, String, Bool, true, false, [], none, some, inl, inr, arith, Bool-cases,
  Option-cases, string_eq, ◌==◌,
}
use de_oss.Base.Dict
use de_oss.Base.Dict.{lookup-insert}
use de_oss.Access.Library.{Bytes}
use de_oss.Chain.{Chain, Reply, Reply-cases, found, FileMeta, StorageOrder}
use de_oss.Chunks.Save.{Written, whole, cut, never}
use de_oss.Track.{RecordInfo}
use de_oss.Server.{Server}
use de_oss.Upload.Dedup.{
  Upload, known, owns, duplicate_record, deduplication, join_owners, wait_for_order,
}

Written-cases : (w : Written) → (w ≡ whole) ⊎ (((p : Bytes) × (w ≡ cut p)) ⊎ (w ≡ never))
Written-cases whole = inl refl
Written-cases (cut p) = inr (inl (p, refl))
Written-cases never = inr (inr refl)

abbrev is_absent : Reply FileMeta → Bool
is_absent r = elim r [ found _ ↦ false | _ ↦ true ]

module _ (C : Chain) {K : Type 0} (encode : RecordInfo → Bytes) (w : Written) where
  -- Why an upload `u` that comes in state `s` needs no file: the user is an owner already, was made one
  -- by an order just now, has an order under way, or has a track file that waits for another's order.
  pub data IsVouched (u : Upload) (s : Server C.State K) : Type 0 where
    owner :
        (m : FileMeta)
        → (C.query_file u.roothash s.net).0 ≡ found m
        → owns u.pkey m ≡ true
        → IsVouched u s
    joined :
        (m : FileMeta)
        → (C.query_file u.roothash s.net).0 ≡ found m
        → (tx : String)
        → (C.generate_storage_order u.roothash [] u.pkey u.filename u.bucket_name u.file_size
            (C.query_file u.roothash s.net).1).0
          ≡ found tx
        → IsVouched u s
    ordering :
        (o : StorageOrder)
        → (C.query_deal_map u.roothash (C.query_file u.roothash s.net).1).0 ≡ found o
        → o.user.user ≡ u.pkey
        → IsVouched u s
    waiting :
        (o : StorageOrder)
        → (C.query_deal_map u.roothash (C.query_file u.roothash s.net).1).0 ≡ found o
        → Dict.lookup u.roothash s.track ≡ none
        → Dict.lookup u.roothash (deduplication C encode w u s).1.track
          ≡ some (encode (duplicate_record u))
        → IsVouched u s

  waits :
      (u : Upload) (s : Server C.State K) (o : StorageOrder)
      → is_absent (C.query_file u.roothash s.net).0 ≡ true
      → (C.query_deal_map u.roothash (C.query_file u.roothash s.net).1).0 ≡ found o
      → (deduplication C encode w u s).0 ≡ known
      → IsVouched u s
  unfolding deduplication wait_for_order
  waits u s o n g h = elim (Bool-cases (o.user.user == u.pkey)) [
    | inl e ↦ ordering o g (ground (arith, e))
    | inr e ↦ elim (Option-cases (Dict.lookup u.roothash s.track)) [
      | inr (b, t) ↦ absurd (ground (arith, e, n, g, t, h))
      | inl t ↦ elim (Written-cases w) [
        | inl x ↦ waiting o g t (
            ground (
              arith,
              e,
              n,
              g,
              t,
              x,
              lookup-insert u.roothash u.roothash (encode (duplicate_record u)) s.track,
            ))
        | inr (inl (p, x)) ↦ absurd (ground (arith, e, n, g, t, x, h))
        | inr (inr x) ↦ absurd (ground (arith, e, n, g, t, x, h))
      ]
    ]
  ]

  undeclared :
      (u : Upload) (s : Server C.State K)
      → is_absent (C.query_file u.roothash s.net).0 ≡ true
      → (deduplication C encode w u s).0 ≡ known
      → IsVouched u s
  unfolding deduplication
  undeclared u s n h =
      elim (Reply-cases (C.query_deal_map u.roothash (C.query_file u.roothash s.net).1).0) [
        | inl (o, g) ↦ waits u s o n g h
        | inr (inl g) ↦ absurd (ground (arith, n, g, h))
        | inr (inr (x, g)) ↦ absurd (ground (arith, n, g, h))
      ]

  declared :
      (u : Upload) (s : Server C.State K) (m : FileMeta)
      → (C.query_file u.roothash s.net).0 ≡ found m
      → (deduplication C encode w u s).0 ≡ known
      → IsVouched u s
  unfolding deduplication join_owners
  declared u s m e h =
      let file = C.query_file u.roothash s.net in
      elim (Bool-cases (owns u.pkey m)) [
        | inl o ↦ owner m e o
        | inr o ↦
            elim (Reply-cases
              (C.generate_storage_order u.roothash [] u.pkey u.filename u.bucket_name u.file_size
                file.1).0) [
                  | inl (tx, g) ↦ joined m e tx g
                  | inr (inl g) ↦ absurd (ground (arith, e, o, g, h))
                  | inr (inr (x, g)) ↦ absurd (ground (arith, e, o, g, h))
                ]
      ]

  -- If `deduplication` answers that a file is known, there is such a reason: the user is an owner of the
  -- file on the chain, or an order for it was just accepted, or the user's own order is under way, or
  -- another's is and the track file now holds the record that waits for it.
  pub deduplication-known :
      (u : Upload) (s : Server C.State K) → (deduplication C encode w u s).0 ≡ known → IsVouched u s
  deduplication-known u s h = elim (Reply-cases (C.query_file u.roothash s.net).0) [
    | inl (m, e) ↦ declared u s m e h
    | inr (inl e) ↦ undeclared u s (ground (arith, e)) h
    | inr (inr (x, e)) ↦ undeclared u s (ground (arith, e)) h
  ]
