-- ===== src/Tests/Sample.antt =====
-- A chain, the libraries and a server at which the theorems are tried.
use de_oss.Base.{
  ℕ, ◌+◌, String, true, false, [], ◌∷◌, none, some, replicate, ◌==◌, string_eq, if◌then◌else◌,
}
use de_oss.Chain.{Chain, found, empty, UserBrief}
use de_oss.Access.{AccessList}
use de_oss.Access.Library.{Crypto, Bytes, decoded, malformed}
use de_oss.Chunks.Save.{Library, named, whole, Faults}
use de_oss.Server.{Server}
use de_oss.Track.{no_fault}
use de_oss.Upload.Process.{Tools, cut_up, ProcessFaults}

abbrev pub user : String
user = "alice"

abbrev brief : UserBrief
brief = record { user = "alice"; file_name = "a.txt"; bucket_name = "bucket" }

-- The state counts the calls. The file "stored" is on the chain, and "ordered" is being stored.
abbrev pub chain : Chain
chain = record {
  State = ℕ;
  balances = λ _. 5;
  rpc_state = λ _. true;
  query_file = λ hash n. (
    if hash == "stored" then found (record { owner = brief ∷ []; file_size = 3 }) else empty,
    n + 1,
  );
  query_deal_map = λ hash n. (
    if hash == "ordered"
        then found (record { user = brief; file_size = 3; complete_list = [] })
        else empty,
    n + 1,
  );
  query_user_owned_space =
      λ _ n. (found (record { deadline = 5000; remaining_space = 1000 }), n + 1);
  query_block_number = λ n. (found 100, n + 1);
  query_authority_list = λ _ n. (found ("gateway" ∷ []), n + 1);
  query_miner_items = λ miner n. (found miner, n + 1);
  create_bucket = λ _ _ n. (found "tx", n + 1);
  delete_file = λ _ _ n. (found "tx", n + 1);
  delete_bucket = λ _ _ n. (found "tx", n + 1);
  generate_storage_order = λ _ _ _ _ _ _ n. (found "tx", n + 1);
}

-- Every address is valid; the signature "good" is accepted, and "0x00" decodes to one byte.
abbrev pub crypto : Crypto
crypto = record {
  verity_address = λ _. true;
  parsing_publickey = λ account. some account;
  encode_substrate = λ key. some key;
  base58_decode = λ s. if s == "good" then decoded (replicate 64 1) else malformed;
  hex_decode = λ _. none;
  from_uri = λ _. true;
  keyring_verify = λ _ _ _. true;
  sr25519_key = λ _. false;
  sr25519_verify = λ _ _ _. false;
  keccak_256 = λ _. [];
  hexutil_decode = λ s. if s == "0x00" then some (0 ∷ []) else none;
  sig_to_pub = λ _ _. none;
  pubkey_to_address = λ key. key;
  itoa = λ _. "1";
  check_bucket_name = λ _. true;
}

abbrev pub open_access : AccessList
open_access = record { access = "public"; accounts = [] }

abbrev pub hash : String
hash = "0123456789abcdef0123456789abcdef0123456789abcdef0123456789abcdef"

abbrev pub record_bytes : Bytes
record_bytes = replicate 132 7

abbrev pub tools : Tools (Unit {0})
tools = record {
  shard = λ _ _ d. (cut_up (record { segment_hash = "s"; fragment_hash = "f" ∷ [] } ∷ []) hash, d);
  move_file_to_cache = λ _ _ d k. (d, k);
  encode = λ _. record_bytes;
  classify = λ name. named name;
  rebase = λ _ path. path;
}

abbrev pub no_process_faults : ProcessFaults
no_process_faults = record {
  mkdir = false;
  rename_dir = none;
  rename = false;
  write_duplicate = whole;
  write_track = no_fault;
  tmp = "tmp";
}

-- One file of three bytes, in the directory "up".
abbrev pub server : Server ℕ (Unit {0})
server = record {
  net = 0;
  cache = tt;
  files = ("alice", ("up", (named "1", 1 ∷ 2 ∷ 3 ∷ []) ∷ []) ∷ []) ∷ [];
  track = [];
  chunk_req = [];
}

abbrev pub library : Library
library = record {
  marshal = λ _. 0 ∷ [];
  unmarshal = λ _. none;
  classify = λ name. named name;
  trailing_index = λ _. none;
  max_name = 63;
}

abbrev pub no_faults : Faults
no_faults = record {
  write_chunk = whole;
  write_info = whole;
  create_target = false;
  read_dir = false;
  read_chunk = λ _. false;
}
