-- ===== src/Tests/Settings.antt =====
-- Settings: pkg/confile/confile.go and cmd/cmd/run.go.
use de_oss.Base.{
  ℕ, ◌≡◌, ◌↔◌, refl, true, false, Bool, String, [], ◌∷◌, none, some, arith, string_eq, ◌==◌,
}
use text.Mathlib.TextEquality.{eq_iff}
use de_oss.Base.Dict
use de_oss.Access.{AccessList, access_control}
use de_oss.Access.Library.{AuthError, refused}
use de_oss.Config.{Confile, Host, ok, crashed, unknown, directory, file, new_configfile}
use de_oss.Config.Parse.{parse, known_accounts}
use de_oss.Config.Parse.Valid.{IsValid, IsMapOrder, MakesDirs, HasPorts, parse-IsValid}
use de_oss.Config.Build.{Flags, line, unread, ask_mnemonic, build_config_file}
use de_oss.Config.Build.Safe.{ask_mnemonic_ends}
use de_oss.Config.Build.Crash.{build_config_file-crashed_iff}
use de_oss.Config.Build.Runnable.{build_config_file-refuses}
use de_oss.Access.Params.{UserParams, check_user_params}
use de_oss.Http.{Response, done, status_forbidden}
use de_oss.Tests.Sample.{crypto}

abbrev settings : Confile
settings = record new_configfile {
  rpc = "wss" ∷ [];
  boot = "boot" ∷ [];
  mnemonic = "secret";
  workspace = "/data";
  p2p_port = 4001;
  http_port = 8080;
  access = "public";
  accounts = "alice" ∷ "alice" ∷ [];
  cache_size = 7;
  expiration = 20000;
}

-- The only file is "conf.yaml", and the state tells whether the workspace is there.
abbrev host : Host
host = record {
  State = Bool;
  stat = λ path made. elim (path == "conf.yaml") [
    | true ↦ file
    | false ↦ elim made [ true ↦ directory | false ↦ unknown ]
  ];
  mkdir_all = λ path w. elim (path == "conf.yaml") [ true ↦ (false, w) | false ↦ (true, true) ];
  ext = λ _. ".yaml";
  read_in_config = λ _ _. true;
  unmarshal = λ _ _ _. (true, settings);
  keyring_pair_from_secret = λ m. elim (m == "secret") [ true ↦ some "key" | false ↦ none ];
  verity_address = λ _. true;
  check_domain = λ _. true;
  encode_public_key = λ key. key;
  map_order = λ l. l;
}

host-IsMapOrder : IsMapOrder host
host-IsMapOrder l d = (d, λ _. refl)

host-MakesDirs : MakesDirs host
host-MakesDirs path w e = ground arith

host-HasPorts : (path : String) → HasPorts (host.unmarshal path false new_configfile).1
host-HasPorts path = record { http = omega arith; p2p = omega arith }

parse-IsValid_example :
    let after = (parse host "" new_configfile false).1 in
    IsValid host after.0 × (host.stat after.0.workspace after.1 ≡ directory)
unfolding parse string_eq known_accounts Dict.insert Dict.keys
parse-IsValid_example =
    parse-IsValid host "" new_configfile false host-HasPorts host-IsMapOrder host-MakesDirs refl

ask_mnemonic_ends_example :
    ask_mnemonic host (unread ∷ line "" ∷ line "typo" ∷ line "secret" ∷ unread ∷ []) settings
    ≡ (ok, record settings { mnemonic = "secret" })
ask_mnemonic_ends_example =
    ask_mnemonic_ends host (unread ∷ line "" ∷ line "typo" ∷ []) "secret" (unread ∷ []) settings
      (tt, ((λ h. absurd (h refl)), ((λ _. ground (arith, eq_iff "typo" "secret")), tt)))
      (ground (arith, eq_iff "secret" "")) (ground arith)

abbrev pub flags : Flags
flags = record {
  config = "";
  c = "";
  rpc = some ("wss" ∷ []);
  boot = some ("boot" ∷ []);
  ws = some "/data";
  http_port = some 8080;
  p2p_port = some 4001;
  mnemonic = some "secret";
}

-- A host with no configuration file, where the workspace is there.
abbrev pub bare_host : Host
bare_host = record host {
  stat = λ path made. elim (path == "conf.yaml") [ true ↦ unknown | false ↦ directory ];
  mkdir_all = λ _ w. (false, w);
}

abbrev pub built : Confile
built = record new_configfile {
  rpc = "wss" ∷ [];
  boot = "boot" ∷ [];
  mnemonic = "secret";
  workspace = "/data";
  p2p_port = 4001;
  http_port = 8080;
}

abbrev upload : UserParams
upload = record {
  account = "alice";
  eth_account = "";
  message = "m";
  signature = "good";
  bucket_name = "bucket";
  cipher = "";
}

abbrev as_built : AccessList
as_built = record { access = built.access; accounts = built.accounts }

abbrev request_state : ℕ
request_state = 7

build_config_file-refuses_example :
    ((e : AuthError) × (access_control crypto as_built "alice" ≡ refused e))
    × ((y : Response) × (check_user_params crypto as_built upload request_state
          ≡ (done y, request_state))
        × (y.status ≡ status_forbidden))
unfolding build_config_file parse string_eq
build_config_file-refuses_example =
    build_config_file-refuses bare_host flags [] true built crypto upload request_state refl
      (omega arith) (omega arith) refl refl

-- A host with no configuration file, where every directory can be made, and none is there.
abbrev empty_host : Host
empty_host = record host { stat = λ _ _. unknown; mkdir_all = λ _ w. (true, w) }

build_config_file-crashed_iff_example :
    ((build_config_file empty_host flags [] true).0 ≡ crashed)
    ↔ ((empty_host.stat "/data" true ≡ unknown) × ((empty_host.mkdir_all "/data" true).0 ≡ true))
build_config_file-crashed_iff_example =
    build_config_file-crashed_iff empty_host flags [] true ("wss" ∷ []) ("boot" ∷ []) "/data" refl
      refl refl refl refl refl refl refl (ground (arith, eq_iff "/data" ""))
