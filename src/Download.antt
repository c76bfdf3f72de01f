-- ===== src/Download.antt =====
-- The downloads of node/getHandle.go and node/download_file.go: what they read of the chain, the other
-- gateways, the storage nodes and the disk.
pub mod Fetch
pub mod Handle
pub mod Get
pub mod Answers
pub mod Same
pub mod Serve
pub mod Open
pub mod Metadata
use de_oss.Base.{ℕ, Bool, String, List, Option}
use de_oss.Base.Dict.{Dict}
use de_oss.Access.Library.{Bytes}
use de_oss.Chain.{PublicKey, Reply}
use de_oss.Peers.{AddrInfo}

pub record FragmentMeta : Type 0 where
  pub hash : String
  pub avail : Bool
  pub miner : PublicKey

pub record SegmentMeta : Type 0 where
  pub hash : String
  pub fragments : List FragmentMeta

pub record OwnerMeta : Type 0 where
  pub user : PublicKey
  pub file_name : String
  pub bucket_name : String

-- `chain.FileMetadata`; the size is `FileSize.Uint64()`.
pub record FileMetadata : Type 0 where
  pub completion : ℕ
  pub state : ℕ
  pub owner : List OwnerMeta
  pub file_size : ℕ
  pub segments : List SegmentMeta

-- `chain.StorageOrder`, as far as it is read.
pub record OrderMeta : Type 0 where
  pub user : OwnerMeta
  pub file_size : ℕ

-- `chain.BucketInfo`
pub record BucketInfo : Type 0 where
  pub files : List String
  pub authority : List PublicKey

-- A transfer: its result, and the contents of the file it was for, if it has touched it.
pub record Received : Type 0 where
  pub success : Bool
  pub contents : Option Bytes

-- The chain, the network and the erasure code, which are libraries. `rs_restore` is given the contents
-- of the files that `erasure.RSRestore` is given the names of.
pub record Remote : Type 1 where
  pub State : Type 0
  pub query_file : String → State → Reply FileMetadata × State
  pub query_deal_map : String → State → Reply OrderMeta × State
  pub query_bucket : PublicKey → String → State → Reply BucketInfo × State
  pub query_all_bucket_name : PublicKey → State → Reply (List String) × State
  pub query_all_oss_peer_id : State → List String × State
  pub query_miner_items : PublicKey → State → Reply String × State
  pub connect : AddrInfo → State → Bool × State
  pub read_data_action : String → String → ℕ → State → Received × State
  pub read_file_action : String → String → String → State → Received × State
  pub rs_restore : List (Option Bytes) → Option Bytes
  pub encode_account : PublicKey → Option String
  pub base58_encode : String → String

-- `sconfig`: the sizes of a fragment and of a segment, and the number of fragments of a segment.
pub record Sizes : Type 0 where
  pub fragment_size : ℕ
  pub segment_size : ℕ
  pub shards : ℕ

-- The calls of the operating system: can a file be created and read, how much of a write arrives, and
-- the capacity of the slice that `os.ReadFile` returns.
pub record Files : Type 0 where
  pub creates : String → Bool
  pub reads : String → Bool
  pub written : Bytes → Bytes
  pub capacity : Bytes → ℕ

-- The files of `FileDir` by their names, and the world.
pub record Site (W : Type 0) : Type 0 where
  pub files : Dict String Bytes
  pub world : W
