-- ===== src/Config.antt =====
-- `confile` of pkg/confile/confile.go: the settings of the gateway, their setters and their getters.
-- The getters that correct a setting write the correction back.
pub mod Parse
pub mod Laws
pub mod Build
use de_oss.Base.{
  ℕ, ◌%◌, ◌*◌, Bool, true, false, String, List, Option, none, some, string_eq, if◌then◌else◌, ◌||◌,
  [],
}
use de_oss.Base.Word.{two_64, lt_i64, le_i64}
use de_oss.Chain.{PublicKey}

-- `int` and `int64` fields are 64-bit patterns.
pub record Confile : Type 0 where
  pub rpc : List String
  pub boot : List String
  pub mnemonic : String
  pub workspace : String
  pub p2p_port : ℕ
  pub http_port : ℕ
  pub access : String
  pub accounts : List String
  pub domain : String
  pub cache_size : ℕ
  pub expiration : ℕ
  pub cache_dir : String
  pub select_strategy : String
  pub node_file_path : String
  pub max_node_num : ℕ
  pub max_ttl : ℕ
  pub refresh_time : ℕ

-- `NewConfigfile`: the zero values of Go.
abbrev pub new_configfile : Confile
new_configfile = record {
  rpc = [];
  boot = [];
  mnemonic = "";
  workspace = "";
  p2p_port = 0;
  http_port = 0;
  access = "";
  accounts = [];
  domain = "";
  cache_size = 0;
  expiration = 0;
  cache_dir = "";
  select_strategy = "";
  node_file_path = "";
  max_node_num = 0;
  max_ttl = 0;
  refresh_time = 0;
}

-- What `os.Stat` finds. `unknown` is its error.
pub data FileStat : Type 0 where
  unknown directory file : FileStat

-- The errors, by the step that returns them.
pub data ConfigError : Type 0 where
  no_file not_a_file unreadable bad_format invalid_mnemonic empty_entries reserved_port :
      ConfigError
  port_too_large invalid_access invalid_domain no_workspace not_a_directory : ConfigError
  missing_flag bad_flag : ConfigError

-- `quit` is `os.Exit`, and `waits` a program that still waits for what is typed.
pub data Result : Type 0 where
  ok : Result
  failed : ConfigError → Result
  crashed quit waits : Result

-- The operating system, viper, and the SDK's checks, which are not the repository's. `ext` is
-- `path.Ext`. `unmarshal` fills in the settings that the file has, also when it fails. `map_order`
-- gives the keys of a Go map in the order of an iteration.
pub record Host : Type 1 where
  pub State : Type 0
  pub stat : String → State → FileStat
  pub mkdir_all : String → State → Bool × State
  pub ext : String → String
  pub read_in_config : String → State → Bool
  pub unmarshal : String → State → Confile → Bool × Confile
  pub keyring_pair_from_secret : String → Option PublicKey
  pub verity_address : String → Bool
  pub check_domain : String → Bool
  pub encode_public_key : PublicKey → String
  pub map_order : List String → List String

unfoldable pub set_rpc_addr : List String → Confile → Confile
set_rpc_addr rpc c = record c { rpc = rpc }

unfoldable pub set_boot_nodes : List String → Confile → Confile
set_boot_nodes boot c = record c { boot = boot }

unfoldable pub set_http_port : ℕ → Confile → Result × Confile
set_http_port port c =
    if lt_i64 port 1024
    then (failed ConfigError.reserved_port, c)
    else if lt_i64 65535 port
    then (failed ConfigError.port_too_large, c)
    else (ok, record c { http_port = port })

unfoldable pub set_p2p_port : ℕ → Confile → Result × Confile
set_p2p_port port c =
    if lt_i64 port 1024
    then (failed ConfigError.reserved_port, c)
    else if lt_i64 65535 port
    then (failed ConfigError.port_too_large, c)
    else (ok, record c { p2p_port = port })

abbrev pub has_secret : Host → String → Bool
has_secret H mnemonic = elim (H.keyring_pair_from_secret mnemonic) [ none ↦ false | some _ ↦ true ]

module _ (H : Host) where
  -- When `os.Stat` fails, `fstat` is nil: after the directory is made, `fstat.IsDir()` panics.
  unfoldable pub set_workspace : String → Confile → H.State → Result × (Confile × H.State)
  set_workspace workspace c w = elim (H.stat workspace w) [
    | unknown ↦
        let (made, w') = H.mkdir_all workspace w in
        (elim made [ true ↦ crashed | false ↦ failed ConfigError.no_workspace ], (c, w'))
    | file ↦ (failed ConfigError.not_a_directory, (c, w))
    | directory ↦ (ok, (record c { workspace = workspace }, w))
  ]

  unfoldable pub set_mnemonic : String → Confile → Result × Confile
  set_mnemonic mnemonic c =
      if has_secret H mnemonic
      then (ok, record c { mnemonic = mnemonic })
      else (failed ConfigError.invalid_mnemonic, c)

  unfoldable pub get_publickey : Confile → Option PublicKey
  get_publickey c = H.keyring_pair_from_secret c.mnemonic

-- `128 * 1024 * 1024 * 1024`, and the number that is put in its place, with one factor more.
abbrev pub least_cache_size : ℕ
least_cache_size = 137438953472

abbrev pub default_cache_size : ℕ
default_cache_size = 140737488355328

-- `int64(time.Minute)`, in nanoseconds.
abbrev pub minute : ℕ
minute = 60000000000

unfoldable pub get_cache_size : Confile → ℕ × Confile
get_cache_size c =
    if le_i64 c.cache_size least_cache_size
    then (default_cache_size, record c { cache_size = default_cache_size })
    else (c.cache_size, c)

unfoldable pub get_cache_item_exp : Confile → ℕ × Confile
get_cache_item_exp c =
    let e = if le_i64 c.expiration 0 || lt_i64 10080 c.expiration then 180 else c.expiration in
    (e * minute % two_64, record c { expiration = e })

unfoldable pub get_max_node_num : Confile → ℕ × Confile
get_max_node_num c =
    let n =
      if le_i64 c.max_node_num 0 || lt_i64 10000 c.max_node_num then 120 else c.max_node_num in
    (n, record c { max_node_num = n })

unfoldable pub get_max_ttl : Confile → ℕ × Confile
get_max_ttl c =
    let n = if le_i64 c.max_ttl 0 || le_i64 5000 c.max_ttl then 500 else c.max_ttl in
    (n, record c { max_ttl = n })

unfoldable pub get_refresh_time : Confile → ℕ × Confile
get_refresh_time c =
    let n = if le_i64 c.refresh_time 0 || lt_i64 24 c.refresh_time then 4 else c.refresh_time in
    (n, record c { refresh_time = n })
