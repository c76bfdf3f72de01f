-- ===== src/Download/Get.antt =====
-- `getHandle` of node/getHandle.go: the version, the presence of a file, a bucket, the names of all
-- buckets, the metadata of a file, and the file.
use Prim.Native.String.{len}
use de_oss.Base.{
  ℕ, Bool, String, List, [], ◌∷◌, Option, none, some, map, length, eqb, not, ◌||◌, if◌then◌else◌,
  ◌==◌, string_eq,
}
use de_oss.Access.{AccessList, access_control}
use de_oss.Access.Library.{Bytes, Crypto, accepted, refused, crashed}
use de_oss.Access.Params.{error_text}
use de_oss.Chain.{PublicKey, Reply, found, empty, failed}
use de_oss.Peers.{PeerList}
use de_oss.Download.{FragmentMeta, SegmentMeta, OwnerMeta, FileMetadata, Remote, Sizes, Files, Site}
use de_oss.Download.Serve.{get_without_cache}
use de_oss.Download.Handle.{
  Answer, json, null, file, bucket, bucket_names, metadata, FragmentInfo, SegmentInfo, RtnUserBrief,
  FileMetaData, Ending, returned, panicked, Download, FileCache, not_found, rpc_failed,
}

-- What `filepath.Walk` calls its function with: a path and the name in it, or an error, which ends it.
pub data Walked : Type 0 where
  entry : String → String → Walked
  walk_error : Walked

-- `utils.FindFile`, with the path found so far.
unfoldable pub find_file : String → List Walked → String → String
find_file name [] result = result
find_file name (walk_error ∷ _) result = result
find_file name (entry path base ∷ es) result =
    find_file name es (if base == name then path else result)

-- The headers and the parameter of the request.
pub record GetRequest : Type 0 where
  pub name : String
  pub account : String
  pub fid : String
  pub operation : String

-- `len(chain.FileHash{})` and `chain.FileHashLen`
abbrev pub file_hash_len : ℕ
file_hash_len = 64

-- `configs.Version`
abbrev pub version : String
version = "deoss v0.3.7 pre-release"

abbrev pub state_name : ℕ → String
state_name state =
    if eqb state 0
    then "Active"
    else if eqb state 1
    then "Calculate"
    else if eqb state 2
    then "Missing"
    else if eqb state 3
    then "Recovery"
    else "Unknown"

module _ (R : Remote) where
  -- `EncodePublicKeyAsCessAccount`, with its error ignored.
  abbrev pub account_of : PublicKey → String
  account_of key = elim (R.encode_account key) [ none ↦ "" | some acc ↦ acc ]

  abbrev pub fragment_info : FragmentMeta → FragmentInfo
  fragment_info f = record { fragment_hash = f.hash; avail = f.avail; miner = account_of f.miner }

  abbrev pub segment_info : SegmentMeta → SegmentInfo
  segment_info m = record { segment_hash = m.hash; fragment_list = map fragment_info m.fragments }

  abbrev pub user_brief : OwnerMeta → RtnUserBrief
  user_brief o = record {
    user = account_of o.user;
    file_name = o.file_name;
    bucket_name = o.bucket_name;
  }

  -- The `uint32` of the completion.
  abbrev pub file_meta_data : FileMetadata → FileMetaData
  file_meta_data m = record {
    completion = m.completion;
    state = state_name m.state;
    segment_list = map segment_info m.segments;
    owner = map user_brief m.owner;
  }

  -- The errors of a query that does not look further.
  abbrev pub query_error : {A : Type 0} → Reply A → Answer
  query_error (failed _) = json 500 "InternalError"
  query_error _ = json 404 "NotFound"

  -- The presence of a file below `FileDir`.
  unfoldable pub get_file : List Walked → String → Answer
  unfolding find_file
  get_file walk fid =
      if fid == "" || not (eqb (len fid) file_hash_len)
      then json 400 "invalid fid"
      else if find_file fid walk "" == ""
      then not_found
      else null

  unfoldable pub get_bucket : PublicKey → String → R.State → Answer × R.State
  get_bucket pkey name w =
      let (q, w1) = R.query_bucket pkey name w in
      (
        elim q [
          | found b ↦ bucket (length b.files) (map account_of b.authority) b.files
          | e ↦ query_error e
        ],
        w1,
      )

  unfoldable pub get_bucket_names : PublicKey → R.State → Answer × R.State
  get_bucket_names pkey w =
      let (q, w1) = R.query_all_bucket_name pkey w in
      (elim q [ found names ↦ bucket_names names | e ↦ query_error e ], w1)

  -- A name that has not the length of a hash.
  unfoldable pub get_named : Crypto → GetRequest → R.State → Answer × R.State
  unfolding get_bucket get_bucket_names
  get_named c r w =
      if r.account == ""
      then (json 400 "InvalidHead.MissingAccount", w)
      else elim (c.parsing_publickey r.account) [
        | none ↦ (json 400 "InvalidHead.Account", w)
        | some pkey ↦
            if c.check_bucket_name r.name
            then get_bucket pkey r.name w
            else if r.name == "*"
            then get_bucket_names pkey w
            else (json 400 "InvalidParameter.Name", w)
      ]

  -- The operation "view"; `tracked` is `HasTrackFile`.
  unfoldable pub view_file : (String → Bool) → String → R.State → Answer × R.State
  view_file tracked name w =
      let (r, w1) = R.query_file name w in
      elim r [
        | found m ↦ (metadata (file_meta_data m), w1)
        | failed _ ↦ (rpc_failed, w1)
        | empty ↦
            let (q, w2) = R.query_deal_map name w1 in
            (
              elim q [
                | found _ ↦ json 200 "storage order created"
                | failed _ ↦ rpc_failed
                | empty ↦
                    if tracked name then json 200 "storage order created" else json 404 "NotFound"
              ],
              w2,
            )
      ]

  module _ (cache : FileCache R.State) (sizes : Sizes) (os : Files) (peers : PeerList)
      (own_id fid : String) (owned : String → Option Bytes) where
    -- The operation "download".
    unfoldable pub get_download : Site R.State → Ending × Download R.State
    unfolding get_without_cache
    get_download site = elim (cache.get_cache_record fid site.world) [
      | none ↦
          get_without_cache R cache sizes os peers own_id fid owned
            (record { site = site; answers = not_found ∷ [] })
      | some path ↦ elim path [
        | none ↦
            get_without_cache R cache sizes os peers own_id fid owned
              (record { site = site; answers = [] })
        | some [] ↦
            get_without_cache R cache sizes os peers own_id fid owned
              (record { site = record site { world = cache.remove fid site.world }; answers = [] })
        | some (x ∷ b) ↦ (returned, record { site = site; answers = file (some (x ∷ b)) ∷ [] })
      ]
    ]

  -- A branch that answers once and touches only the world.
  abbrev pub answered : Answer × R.State → Site R.State → Ending × Download R.State
  answered (a, w) site = (returned, record { site = record site { world = w }; answers = a ∷ [] })

  unfoldable pub get_handle :
      Crypto
      → AccessList
      → FileCache R.State
      → Sizes
      → Files
      → PeerList
      → String
      → (String → Option Bytes)
      → List Walked
      → (String → Bool)
      → GetRequest
      → Site R.State
      → Ending × Download R.State
  unfolding get_file get_named view_file get_download
  get_handle c l cache sizes os peers own_id owned walk tracked r site =
      elim (access_control c l r.account) [
        | refused e ↦ answered (json 403 (error_text e), site.world) site
        | crashed ↦ (panicked, record { site = site; answers = [] })
        | accepted _ ↦
            if r.name == "version"
            then answered (json 200 version, site.world) site
            else if r.name == "file"
            then answered (get_file walk r.fid, site.world) site
            else if not (eqb (len r.name) file_hash_len)
            then answered (get_named c r site.world) site
            else if r.operation == "view"
            then answered (view_file tracked r.name site.world) site
            else if r.operation == "download"
            then get_download cache sizes os peers own_id r.name owned site
            else answered (json 400 "HeaderErr_Invalid_Operation", site.world) site
      ]
