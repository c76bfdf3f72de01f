-- ===== src/Download/Serve.antt =====
-- The operation "download" of `getHandle` of node/getHandle.go, once the cache does not have the file. The
-- code is not shared with node/download_file.go, and neither is its model.
use de_oss.Base.{
  ℕ, Bool, true, false, String, List, [], ◌∷◌, ◌++◌, Option, none, some, if◌then◌else◌, ◌==◌, not,
  string_eq,
}
use de_oss.Base.Dict
use de_oss.Base.Dict.{Dict}
use de_oss.Access.Library.{Bytes}
use de_oss.Chain.{found, empty, failed}
use de_oss.Peers.{PeerList, get_peer}
use de_oss.Download.{Remote, Sizes, Files}
use de_oss.Download.Fetch.{user_file, owner_file, not_fetched, crashed, exited, fetch_files}
use de_oss.Download.Handle.{
  file, Ending, returned, panicked, program_exit, Download, FileCache, Answer, answer, at,
  not_found, rpc_failed, download_failed, order_under_way,
}

-- Where the queries of the file and of its order end: an answer, or `size` and `completion`.
pub data Looked : Type 0 where
  answered : Answer → Looked
  stored : ℕ → Looked
  ordered : ℕ → Looked

module _ (R : Remote) (cache : FileCache R.State) (sizes : Sizes) (os : Files) (peers : PeerList)
    (own_id fid : String) (owned : String → Option Bytes) where
  -- `n.QueryFile`, and `n.QueryDealMap` when the chain does not have the file.
  unfoldable pub get_query : R.State → Looked × R.State
  get_query w =
      let (meta, w1) = R.query_file fid w in
      elim meta [
        | failed _ ↦ (answered rpc_failed, w1)
        | found m ↦ (stored m.file_size, w1)
        | empty ↦
            let (order, w2) = R.query_deal_map fid w1 in
            elim order [
              | failed _ ↦ (answered rpc_failed, w2)
              | empty ↦ (answered not_found, w2)
              | found o ↦ (ordered o.file_size, w2)
            ]
      ]

  -- `c.File(fpath)` and `n.MoveFileToCache(queryName, fpath)`, after which the handler returns.
  abbrev get_serve : Option Bytes → Download R.State → Download R.State
  get_serve contents s = record {
    answers = s.answers ++ (file contents ∷ []);
    site = (cache.move_file_to_cache fid s.site).1;
  }

  -- One turn of the loop over the gateways: whether the file was served, and what is left.
  unfoldable pub get_from_gateway : ℕ → String → Download R.State → Bool × Download R.State
  unfolding get_peer
  get_from_gateway size v s = elim (get_peer v peers) [
    | none ↦ (false, s)
    | some addr ↦
        if own_id == v
        then (false, s)
        else (let (connected, w) = R.connect addr s.site.world in
            if connected
            then (let (r, w') = R.read_data_action addr.id fid size w in
                let files = elim r.contents as (λ _. Dict String Bytes) [
                  | none ↦ s.site.files
                  | some b ↦ Dict.insert fid b s.site.files
                ] in
                let read : Download R.State = record s {
                  site = record { files = files; world = w' };
                } in
                if r.success then (true, get_serve (Dict.lookup fid files) read) else (false, read))
            else (false, at w s))
  ]

  unfoldable pub get_from_gateways : ℕ → List String → Download R.State → Bool × Download R.State
  unfolding get_from_gateway
  get_from_gateways size [] s = (false, s)
  get_from_gateways size (v ∷ vs) s =
      let (served, t) = get_from_gateway size v s in
      elim served [ true ↦ (true, t) | false ↦ get_from_gateways size vs t ]

  -- `n.fetchFiles` and its answers.
  unfoldable pub get_from_miners : Download R.State → Ending × Download R.State
  unfolding fetch_files
  get_from_miners s =
      let (r, site) = fetch_files R sizes os peers fid owned s.site in
      let t : Download R.State = record s { site = site } in
      elim r [
        | not_fetched ↦ (returned, answer download_failed t)
        | user_file p ↦ (returned, get_serve (Dict.lookup fid site.files) t)
        | owner_file acc p ↦ (returned, get_serve (owned acc) t)
        | crashed ↦ (panicked, t)
        | exited ↦ (program_exit, t)
      ]

  -- The gateways are asked when the list is not empty; then, if the file is stored, the miners.
  unfoldable pub get_from_others : ℕ → Bool → Download R.State → Ending × Download R.State
  unfolding get_from_gateways get_from_miners
  get_from_others size completion s =
      let (gateways, w) = R.query_all_oss_peer_id s.site.world in
      let (served, t) = elim gateways as (λ _. Bool × Download R.State) [
        | [] ↦ (false, at w s)
        | v ∷ vs ↦ get_from_gateways size (v ∷ vs) (at w s)
      ] in
      if served
      then (returned, t)
      else if not completion
      then (returned, answer order_under_way t)
      else get_from_miners t

  unfoldable pub get_without_cache : Download R.State → Ending × Download R.State
  unfolding get_query get_from_others
  get_without_cache s =
      let (k, w) = get_query s.site.world in
      elim k [
        | answered a ↦ (returned, answer a (at w s))
        | stored size ↦ get_from_others size true (at w s)
        | ordered size ↦ get_from_others size false (at w s)
      ]
