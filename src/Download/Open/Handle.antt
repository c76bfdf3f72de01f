-- ===== src/Download/Open/Handle.antt =====
-- `openFileHandle` of node/open_file.go, which answers with the file as its content.
use de_oss.Base.{
  ℕ, Bool, true, false, String, [], ◌∷◌, Option, none, some, not, if◌then◌else◌, string_eq,
}
use de_oss.Base.Dict
use de_oss.Access.Library.{Bytes}
use de_oss.Chain.{found, empty, failed}
use de_oss.Peers.{PeerList}
use de_oss.Download.{Remote, Sizes, Files, Site}
use de_oss.Download.Fetch.{user_file, owner_file, not_fetched, crashed, exited, fetch_files}
use de_oss.Download.Handle.{
  Ending, returned, panicked, program_exit, Download, FileCache, answer, at, not_found, rpc_failed,
  download_failed, being_stored, ask_gateways,
}
use de_oss.Download.Open.{
  Texts, Named, unnamed, Opening, refused_with, opened, named_by, named_order, show,
}

-- The paths of a file: in the cache, in `FileDir`, and in an account's directory.
pub record Paths : Type 0 where
  pub cached : String → String
  pub file : String → String
  pub owner_copy : String → String → String

module _ (R : Remote) (X : Texts) (paths : Paths) (cache : FileCache R.State) (sizes : Sizes)
    (os : Files) (peers : PeerList) (own_id fid : String) (owned : String → Option Bytes) where
  -- The chain's record of the file, or of its order.
  unfoldable pub open_record : R.State → Opening × R.State
  unfolding named_by named_order
  open_record w =
      let (r, w1) = R.query_file fid w in
      elim r [
        | found m ↦ (opened m.file_size true (named_by X m.owner unnamed), w1)
        | failed _ ↦ (refused_with rpc_failed, w1)
        | empty ↦
            let (q, w2) = R.query_deal_map fid w1 in
            (
              elim q [
                | found o ↦ opened o.file_size false (named_order X o.user)
                | failed _ ↦ refused_with rpc_failed
                | empty ↦ refused_with not_found
              ],
              w2,
            )
      ]

  -- A file that was put together: it is moved to the cache, and then read at its old path, where
  -- `after` is what is left; an empty file is removed.
  unfoldable pub show_fetched :
      Named
      → String
      → Option Bytes
      → (Site R.State → Option Bytes)
      → (Site R.State → Site R.State)
      → Download R.State
      → Ending × Download R.State
  unfolding show
  show_fetched n path contents after remove s = elim contents [
    | some (x ∷ b) ↦
        let moved : Download R.State = record s {
          site = (cache.move_file_to_cache fid s.site).1;
        } in
        show X n path (x ∷ b) (after moved.site) moved
    | some [] ↦ (returned, answer download_failed (record s { site = remove s.site }))
    | none ↦ (returned, answer download_failed s)
  ]

  -- `left` is what `os.ReadFile` finds of an owner's copy after the move.
  unfoldable pub open_from_miners :
      (String → Option Bytes) → Named → Download R.State → Ending × Download R.State
  unfolding fetch_files show_fetched
  open_from_miners left n s =
      let (r, site) = fetch_files R sizes os peers fid owned s.site in
      let s' : Download R.State = record s { site = site } in
      elim r [
        | user_file p ↦
            show_fetched n (paths.file fid) (Dict.lookup fid site.files)
              (λ t. if os.reads fid then Dict.lookup fid t.files else none)
              (λ t. record t { files = Dict.erase fid t.files }) s'
        | owner_file acc p ↦
            show_fetched n (paths.owner_copy acc fid) (owned acc) (λ _. left acc) (λ t. t) s'
        | not_fetched ↦ (returned, answer download_failed s')
        | crashed ↦ (panicked, s')
        | exited ↦ (program_exit, s')
      ]

  -- When the cache does not have the file.
  unfoldable pub open_elsewhere :
      (String → Option Bytes) → ℕ → Bool → Named → Download R.State → Ending × Download R.State
  unfolding ask_gateways open_from_miners
  open_elsewhere left size completion n s =
      let (gateways, w) = R.query_all_oss_peer_id s.site.world in
      let (done, s1) =
        ask_gateways R cache sizes os peers own_id fid owned size gateways (at w s) in
      if done
      then (returned, s1)
      else if not completion
      then (returned, answer being_stored s1)
      else open_from_miners left n s1

  unfoldable pub open_file_handle :
      (String → Option Bytes) → Site R.State → Ending × Download R.State
  unfolding open_record show open_elsewhere
  open_file_handle left site =
      let (k, w) = open_record site.world in
      let s : Download R.State = record { site = record site { world = w }; answers = [] } in
      elim k [
        | refused_with a ↦ (returned, answer a s)
        | opened size completion n ↦ elim (cache.get_cache_record fid w) [
          | some (some (x ∷ b)) ↦
              show X n (paths.cached fid) (x ∷ b) (if cache.reads fid w then some (x ∷ b) else none)
                s
          | some (some []) ↦ open_elsewhere left size completion n (at (cache.remove fid w) s)
          | _ ↦ open_elsewhere left size completion n s
        ]
      ]
