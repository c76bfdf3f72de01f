-- ===== src/Download/Handle.antt =====
-- `downloadFileHandle` of node/download_file.go, and the operation "download" of `getHandle` in
-- node/getHandle.go: a file comes from the cache, from another gateway, or from the storage nodes.
use de_oss.Base.{
  ℕ, Bool, true, false, String, List, [], ◌∷◌, ◌++◌, Option, none, some, not, if◌then◌else◌, ◌==◌,
  string_eq,
}
use de_oss.Base.Dict
use de_oss.Base.Dict.{Dict}
use de_oss.Access.Library.{Bytes}
use de_oss.Chain.{found, empty, failed}
use de_oss.Peers.{PeerList, get_peer}
use de_oss.Download.{Remote, Sizes, Files, Site}
use de_oss.Download.Fetch.{user_file, owner_file, not_fetched, crashed, exited, fetch_files}

-- The answers of `getHandle` to a query for a file: `FileMetaData` and its parts.
pub record FragmentInfo : Type 0 where
  pub fragment_hash : String
  pub avail : Bool
  pub miner : String

pub record SegmentInfo : Type 0 where
  pub segment_hash : String
  pub fragment_list : List FragmentInfo

pub record RtnUserBrief : Type 0 where
  pub user : String
  pub file_name : String
  pub bucket_name : String

pub record FileMetaData : Type 0 where
  pub completion : ℕ
  pub state : String
  pub segment_list : List SegmentInfo
  pub owner : List RtnUserBrief

-- What is written to the connection: `c.JSON` with a text or something else, or `c.File`, with `none`
-- for a file that is not there,
-- `c.FileAttachment`, or `c.Data` with the headers that were set before it, a type and the content.
pub data Answer : Type 0 where
  json : ℕ → String → Answer
  null : Answer
  bucket : ℕ → List String → List String → Answer
  bucket_names : List String → Answer
  metadata : FileMetaData → Answer
  file : Option Bytes → Answer
  attachment : String → Answer
  data_with : List (String × String) → String → Bytes → Answer
  metadata_of : String → ℕ → List RtnUserBrief → Answer

pub data Ending : Type 0 where
  returned panicked program_exit : Ending

-- All that is written, in order: a handler may write more than once.
pub record Download (W : Type 0) : Type 0 where
  pub site : Site W
  pub answers : List Answer

-- The file cache of the SDK's tools. `none` is an error; the inner option is what `os.Stat`
-- finds; `reads` tells whether `os.ReadFile` succeeds.
pub record FileCache (W : Type 0) : Type 0 where
  pub get_cache_record : String → W → Option (Option Bytes)
  pub reads : String → W → Bool
  pub remove : String → W → W
  pub move_file_to_cache : String → Site W → Bool × Site W

-- `ERR_NotFound`, `ERR_RpcFailed`, and other answers.
abbrev pub not_found : Answer
not_found = json 404 "Not found"

abbrev pub rpc_failed : Answer
rpc_failed = json 500 "rpc connection failed"

abbrev pub download_failed : Answer
download_failed = json 500 "File download failed, please try again later."

abbrev pub being_stored : Answer
being_stored =
    json 404 "The file is being stored, please download it from the gateway where you uploaded it."

abbrev pub order_under_way : Answer
order_under_way =
    json 500 "During the order transaction, please go to the original deoss to download the file."

module _ {W : Type 0} where
  abbrev pub answer : Answer → Download W → Download W
  answer a s = record s { answers = s.answers ++ (a ∷ []) }

  abbrev pub at : W → Download W → Download W
  at w s = record s { site = record { files = s.site.files; world = w } }

-- What the chain knows: the size, and whether the file is stored (`completion`); or the answer.
pub data Known : Type 0 where
  known : ℕ → Bool → Known
  unknown : Answer → Known

module _ (R : Remote) (cache : FileCache R.State) (sizes : Sizes) (os : Files) (peers : PeerList)
    (own_id fid : String) (owned : String → Option Bytes) where
  -- The chain's record of the file, or of its order.
  unfoldable pub look_up : R.State → Known × R.State
  look_up w =
      let (r, w1) = R.query_file fid w in
      elim r [
        | found m ↦ (known m.file_size true, w1)
        | failed _ ↦ (unknown rpc_failed, w1)
        | empty ↦
            let (q, w2) = R.query_deal_map fid w1 in
            (
              elim q [
                | found o ↦ known o.file_size false
                | failed _ ↦ unknown rpc_failed
                | empty ↦ unknown not_found
              ],
              w2,
            )
      ]

  -- `c.File(fpath)`, then `MoveFileToCache`, whose error is only logged.
  abbrev pub serve : Option Bytes → Download R.State → Download R.State
  serve contents s = record {
    answers = s.answers ++ (file contents ∷ []);
    site = (cache.move_file_to_cache fid s.site).1;
  }

  -- The loop over the other gateways; `true` if one had the file.
  unfoldable pub ask_gateways : ℕ → List String → Download R.State → Bool × Download R.State
  unfolding get_peer
  ask_gateways size [] s = (false, s)
  ask_gateways size (v ∷ vs) s = elim (get_peer v peers) [
    | none ↦ ask_gateways size vs s
    | some addr ↦
        if own_id == v then ask_gateways size vs s else elim (R.connect addr s.site.world).0 [
          | false ↦ ask_gateways size vs (at (R.connect addr s.site.world).1 s)
          | true ↦
              let (r, w) = R.read_data_action addr.id fid size (R.connect addr s.site.world).1 in
              let files = elim r.contents as (λ _. Dict String Bytes) [
                | none ↦ s.site.files
                | some b ↦ Dict.insert fid b s.site.files
              ] in
              let s' : Download R.State = record s { site = record { files = files; world = w } } in
              elim r.success [
                | true ↦ (true, serve (Dict.lookup fid files) s')
                | false ↦ ask_gateways size vs s'
              ]
        ]
  ]

  -- From the storage nodes. The path may be that of an owner's copy.
  unfoldable pub from_miners : Download R.State → Ending × Download R.State
  unfolding fetch_files
  from_miners s =
      let (r, site) = fetch_files R sizes os peers fid owned s.site in
      let s' : Download R.State = record s { site = site } in
      elim r [
        | user_file p ↦ (returned, serve (Dict.lookup fid site.files) s')
        | owner_file acc p ↦ (returned, serve (owned acc) s')
        | not_fetched ↦ (returned, answer download_failed s')
        | crashed ↦ (panicked, s')
        | exited ↦ (program_exit, s')
      ]

  -- What follows when the cache does not have the file.
  unfoldable pub without_cache : Download R.State → Ending × Download R.State
  unfolding look_up ask_gateways from_miners
  without_cache s =
      let (k, w) = look_up s.site.world in
      elim k [
        | unknown a ↦ (returned, answer a (at w s))
        | known size completion ↦
            let (gateways, w1) = R.query_all_oss_peer_id w in
            let (done, s1) = ask_gateways size gateways (at w1 s) in
            if done
            then (returned, s1)
            else if not completion
            then (returned, answer being_stored s1)
            else from_miners s1
      ]

  -- When the cache fails, 404 is written, and the handler goes on.
  unfoldable pub download_file_handle : Site R.State → Ending × Download R.State
  unfolding without_cache
  download_file_handle site = elim (cache.get_cache_record fid site.world) [
    | none ↦ without_cache (record { site = site; answers = not_found ∷ [] })
    | some path ↦ elim path [
      | none ↦ without_cache (record { site = site; answers = [] })
      | some [] ↦
          without_cache
            (record { site = record site { world = cache.remove fid site.world }; answers = [] })
      | some (x ∷ b) ↦ (returned, record { site = site; answers = file (some (x ∷ b)) ∷ [] })
    ]
  ]
