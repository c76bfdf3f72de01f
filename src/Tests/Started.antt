-- ===== src/Tests/Started.antt =====
-- The start of the program: cmd/cmd/run.go.
use de_oss.Base.{refl, true, [], ◌∷◌, some, string_eq, arith}
use de_oss.Chain.{empty}
use de_oss.Config.{Confile}
use de_oss.Config.Parse.{parse}
use de_oss.Config.Build.{build_config_file}
use de_oss.Start.{World, Running, registered, cmd_run_func}
use de_oss.Start.Ready.{IsReady, cmd_run_func-IsReady}
use de_oss.Tests.Settings.{flags, bare_host, built}

-- The chain is one block behind, and does not know the gateway.
abbrev world : World
world = record {
  free_local_port = λ _. true;
  calc_md5 = λ s. some s;
  new_client = λ _ _. true;
  sync_states = some (7, 8) ∷ some (8, 8) ∷ [];
  query_oss = empty;
  new_peer_node = λ _ _. true;
  peer_publickey = "peer";
  register_oss = λ _ _. true;
  update_oss = λ _ _. true;
  workspace = "/data";
  join = λ _ b. b;
  mkdir_all = λ _. true;
  new_cache = λ _. true;
  new_logs = λ _. true;
}

abbrev started : Confile
started = record built {
  cache_size = 140737488355328;
  expiration = 180;
  max_node_num = 120;
  max_ttl = 500;
  refresh_time = 4;
}

abbrev parts : Running
parts = record {
  sign_key = "secret";
  sent = registered "peer" "" ∷ [];
  rebuilt = true;
  dirs = record {
    log = "log";
    db = "db";
    track = "track";
    feedback = "feedback";
    ufile = "ufile";
    dfile = "dfile";
  };
  cache_item_exp = 10800000000000;
  cache_size = 140737488355328;
  cache_dir = "filecache";
  select_strategy = "";
  node_file_path = "storage_nodes.json";
  max_node_num = 120;
  max_ttl = 500;
  refresh_time = 4;
}

cmd_run_func-IsReady_example : IsReady world bare_host started parts
unfolding cmd_run_func build_config_file parse string_eq
cmd_run_func-IsReady_example =
    cmd_run_func-IsReady world bare_host flags [] true started parts
      (λ _. record { http = omega arith; p2p = omega arith }) (λ l d. (d, λ _. refl))
      (λ path w e. ground arith) (omega arith) (omega arith) refl
