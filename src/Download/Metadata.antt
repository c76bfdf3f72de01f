-- ===== src/Download/Metadata.antt =====
-- `getMetadataHandle` of node/get_metadata.go.
use de_oss.Base.{Bool, String, List, [], ◌∷◌, Option, none, some, map, if◌then◌else◌, string_eq}
use de_oss.Chain.{found, empty, failed}
use de_oss.Download.{OrderMeta, Remote}
use de_oss.Download.Fetch.{}
use de_oss.Download.Get.{user_brief}
use de_oss.Download.Handle.{Answer, json, metadata_of, Ending, returned, panicked, rpc_failed}

module _ (R : Remote) where
  -- The metadata of an order.
  unfoldable pub order_metadata : String → Option OrderMeta → Ending × List Answer
  order_metadata fid o = elim o [
    | none ↦ (panicked, [])
    | some m ↦ (returned, metadata_of fid m.file_size (user_brief R m.user ∷ []) ∷ [])
  ]

  -- `getMetadataHandle`. If there is only a track file, the order is what `QueryDealMap` returns with
  -- its error, `lost`; `none` is an order whose size is a nil pointer.
  unfoldable pub get_metadata_handle :
      (String → Bool) → Option OrderMeta → String → R.State → (Ending × List Answer) × R.State
  unfolding order_metadata
  get_metadata_handle tracked lost fid w =
      let (r, w1) = R.query_file fid w in
      elim r [
        | found m ↦ ((returned, metadata_of fid m.file_size (map (user_brief R) m.owner) ∷ []), w1)
        | failed _ ↦ ((returned, rpc_failed ∷ []), w1)
        | empty ↦
            let (q, w2) = R.query_deal_map fid w1 in
            (
              elim q [
                | found o ↦ order_metadata fid (some o)
                | failed _ ↦ (returned, rpc_failed ∷ [])
                | empty ↦
                    if tracked fid
                    then order_metadata fid lost
                    else (returned, json 404 "NotFound" ∷ [])
              ],
              w2,
            )
      ]
