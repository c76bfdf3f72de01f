-- ===== src/Start.antt =====
-- `cmd_run_func` of cmd/cmd/run.go: what the program does before it runs, and where it gives up.
pub mod Ready
use de_oss.Base.{
  ℕ, Bool, true, false, String, List, [], ◌∷◌, Option, none, some, eqb, not, ◌&&◌, ◌||◌, ◌==◌,
  string_eq, if◌then◌else◌,
}
use de_oss.Chain.{Reply, found, empty, failed}
use de_oss.Config.{
  Confile, Host, Result, ok, failed, crashed, quit, waits, get_cache_size, get_cache_item_exp,
  get_max_node_num, get_max_ttl, get_refresh_time,
}
use de_oss.Config.Build.{Flags, Typed, build_config_file}

-- `chain.OssInfo`: the key of the peer, and the domain.
pub record OssInfo : Type 0 where
  pub peerid : String
  pub domain : String

-- What the chain has of the gateway, as a result of what is sent.
pub data Sent : Type 0 where
  registered updated : String → String → Sent

-- The calls of the libraries. `sync_states` are the answers of `SystemSyncState`, in order: the current
-- and the highest block, or an error.
pub record World : Type 0 where
  pub free_local_port : ℕ → Bool
  pub calc_md5 : String → Option String
  pub new_client : List String → String → Bool
  pub sync_states : List (Option (ℕ × ℕ))
  pub query_oss : Reply OssInfo
  pub new_peer_node : ℕ → List String → Bool
  pub peer_publickey : String
  pub register_oss : String → String → Bool
  pub update_oss : String → String → Bool
  pub workspace : String
  pub join : String → String → String
  pub mkdir_all : String → Bool
  pub new_cache : String → Bool
  pub new_logs : String → Bool

-- The directories of `buildDir`, in its order, without that of the file cache.
pub record Dirs : Type 0 where
  pub log : String
  pub db : String
  pub track : String
  pub feedback : String
  pub ufile : String
  pub dfile : String

-- The settings with which the components are made.
pub record Running : Type 0 where
  pub sign_key : String
  pub sent : List Sent
  pub rebuilt : Bool
  pub dirs : Dirs
  pub cache_item_exp : ℕ
  pub cache_size : ℕ
  pub cache_dir : String
  pub select_strategy : String
  pub node_file_path : String
  pub max_node_num : ℕ
  pub max_ttl : ℕ
  pub refresh_time : ℕ

-- `os.Exit(1)`, the end by a panic or an interrupt, a program that waits, and one that runs.
pub data Started : Type 0 where
  exit_1 ended waiting : Started
  running : Confile → Running → Started

-- The loop that waits for the chain: `none` while it waits, `false` for an error.
unfoldable pub in_sync : List (Option (ℕ × ℕ)) → Option Bool
in_sync [] = none
in_sync (none ∷ _) = some false
in_sync (some (current, highest) ∷ l) = if eqb current highest then some true else in_sync l

module _ (W : World) where
  -- The directories, of which the first that cannot be made is an error.
  unfoldable pub all_made : List String → Bool
  all_made [] = true
  all_made (d ∷ ds) = if W.mkdir_all d then all_made ds else false

  unfoldable pub build_dir : String → Option Dirs
  unfolding all_made
  build_dir workspace =
      let dirs : Dirs = record {
        log = W.join workspace "log";
        db = W.join workspace "db";
        track = W.join workspace "track";
        feedback = W.join workspace "feedback";
        ufile = W.join workspace "ufile";
        dfile = W.join workspace "dfile";
      } in
      if all_made (
        dirs.log
        ∷ dirs.db
        ∷ dirs.track
        ∷ dirs.feedback
        ∷ dirs.ufile
        ∷ dirs.dfile
        ∷ W.join workspace "filecache"
        ∷ [])
      then some dirs
      else none

  -- The registration on the chain, or what is sent there; `none` is an exit. The flag tells whether the
  -- directories are built again.
  unfoldable pub register : String → Option (List Sent × Bool)
  register domain = elim W.query_oss [
    | empty ↦
        if W.register_oss W.peer_publickey domain
        then some (registered W.peer_publickey domain ∷ [], true)
        else none
    | failed _ ↦ none
    | found info ↦
        if info.peerid == W.peer_publickey && domain == info.domain
        then some ([], false)
        else if W.update_oss W.peer_publickey domain
        then some (updated W.peer_publickey domain ∷ [], false)
        else none
  ]

  abbrev pub or_else : String → String → String
  or_else a b = if a == "" then b else a

  -- From the directories on.
  unfoldable pub build_parts : Confile → String → List Sent → Bool → Started
  unfolding build_dir get_cache_item_exp get_cache_size get_max_node_num get_max_ttl
      get_refresh_time
  build_parts c sign_key sent rebuilt = elim (build_dir W.workspace) [
    | none ↦ exit_1
    | some dirs ↦
        if not (W.new_cache dirs.db && W.new_logs dirs.log)
        then exit_1
        else let (cache_item_exp, c1) = get_cache_item_exp c in
          let (cache_size, c2) = get_cache_size c1 in
          let (max_node_num, c3) = get_max_node_num c2 in
          let (max_ttl, c4) = get_max_ttl c3 in
          let (refresh_time, c5) = get_refresh_time c4 in
          running c5 (record {
            sign_key = sign_key;
            sent = sent;
            rebuilt = rebuilt;
            dirs = dirs;
            cache_item_exp = cache_item_exp;
            cache_size = cache_size;
            cache_dir = or_else c.cache_dir (W.join W.workspace "filecache");
            select_strategy = c.select_strategy;
            node_file_path = or_else c.node_file_path (W.join W.workspace "storage_nodes.json");
            max_node_num = max_node_num;
            max_ttl = max_ttl;
            refresh_time = refresh_time;
          })
  ]

  -- From the check of the port to the registration. The answer of `QueryOss` is used twice: an error
  -- exits before the peer node is made.
  unfoldable pub connect : Confile → Started
  unfolding in_sync register build_parts
  connect c = if not (W.free_local_port c.http_port) then exit_1 else elim (W.calc_md5 c.mnemonic) [
    | none ↦ exit_1
    | some sign_key ↦
        if not (W.new_client c.rpc c.mnemonic) then exit_1 else elim (in_sync W.sync_states) [
          | none ↦ waiting
          | some false ↦ exit_1
          | some true ↦
              if not (W.new_peer_node c.p2p_port c.boot) then exit_1 else elim (register c.domain) [
                | none ↦ exit_1
                | some r ↦ build_parts c sign_key r.0 r.1
              ]
        ]
  ]

  unfoldable pub cmd_run_func : (H : Host) → Flags → List Typed → H.State → Started
  unfolding connect build_config_file
  cmd_run_func H f typed w =
      let (r, after) = build_config_file H f typed w in
      elim r [
        | ok ↦ elim after.0 [ none ↦ ended | some c ↦ connect c ]
        | failed _ ↦ exit_1
        | crashed ↦ ended
        | quit ↦ ended
        | waits ↦ waiting
      ]
