-- ===== src/Config/Build.antt =====
-- `buildConfigFile` and `buildAuthenticationConfig` of cmd/cmd/run.go: the settings come from a file or,
-- if the file is refused, from the flags of the command and from what is typed.
pub mod Safe
pub mod Runnable
pub mod Crash
use de_oss.Base.{
  ℕ, Bool, true, false, String, List, ◌∷◌, Option, none, some, if◌then◌else◌, ◌==◌, string_eq, not,
  ◌&&◌, [],
}
use de_oss.Config.{
  Confile, Host, Result, ConfigError, FileStat, ok, failed, quit, waits, unknown, new_configfile,
  set_rpc_addr, set_boot_nodes, set_http_port, set_p2p_port, set_workspace, set_mnemonic,
}
use de_oss.Config.Parse.{parse, is_empty}

-- `configs.DefaultConfig`
abbrev pub default_config : String
default_config = "conf.yaml"

-- The flags; `none` is an error of cobra. An error for `config` or `c` is ignored, with "" as value.
pub record Flags : Type 0 where
  pub config : String
  pub c : String
  pub rpc : Option (List String)
  pub boot : Option (List String)
  pub ws : Option String
  pub http_port : Option ℕ
  pub p2p_port : Option ℕ
  pub mnemonic : Option String

-- What `gopass.GetPasswdMasked` returns: an interrupt, another error, or a line.
pub data Typed : Type 0 where
  interrupted unread : Typed
  line : String → Typed

abbrev pub is_unknown : FileStat → Bool
is_unknown unknown = true
is_unknown _ = false

module _ (H : Host) where
  -- The loop that asks for the mnemonic. The list has what will be typed.
  unfoldable pub ask_mnemonic : List Typed → Confile → Result × Confile
  unfolding set_mnemonic
  ask_mnemonic [] cfg = (waits, cfg)
  ask_mnemonic (t ∷ ts) cfg = elim t [
    | interrupted ↦ (quit, cfg)
    | unread ↦ ask_mnemonic ts cfg
    | line pwd ↦ if pwd == "" then ask_mnemonic ts cfg else elim (set_mnemonic H pwd cfg).0 [
      | ok ↦ set_mnemonic H pwd cfg
      | _ ↦ ask_mnemonic ts cfg
    ]
  ]

  unfoldable pub read_mnemonic : Flags → List Typed → Confile → Result × Confile
  unfolding ask_mnemonic
  read_mnemonic f typed cfg = elim f.mnemonic [
    | none ↦ (failed ConfigError.bad_flag, cfg)
    | some mnemonic ↦ if mnemonic == "" then ask_mnemonic typed cfg else set_mnemonic H mnemonic cfg
  ]

  -- Both ports are read before either is set.
  unfoldable pub read_ports : Flags → List Typed → Confile → Result × Confile
  unfolding read_mnemonic set_http_port set_p2p_port
  read_ports f typed cfg = elim f.http_port [
    | none ↦ (failed ConfigError.bad_flag, cfg)
    | some http_port ↦ elim f.p2p_port [
      | none ↦ (failed ConfigError.bad_flag, cfg)
      | some p2p_port ↦
          let (r, cfg1) = set_http_port http_port cfg in
          elim r [
            | ok ↦
                let (q, cfg2) = set_p2p_port p2p_port cfg1 in
                elim q [ ok ↦ read_mnemonic f typed cfg2 | e ↦ (e, cfg2) ]
            | e ↦ (e, cfg1)
          ]
    ]
  ]

  unfoldable pub read_workspace :
      Flags → List Typed → Confile → H.State → Result × (Confile × H.State)
  unfolding read_ports set_workspace
  read_workspace f typed cfg w = elim f.ws [
    | none ↦ (failed ConfigError.bad_flag, (cfg, w))
    | some workspace ↦
        if workspace == ""
        then (failed ConfigError.missing_flag, (cfg, w))
        else let (r, after) = set_workspace H workspace cfg w in
          elim r [
            | ok ↦ let (q, cfg1) = read_ports f typed after.0 in (q, (cfg1, after.1))
            | e ↦ (e, after)
          ]
  ]

  unfoldable pub read_flags : Flags → List Typed → Confile → H.State → Result × (Confile × H.State)
  unfolding read_workspace set_rpc_addr set_boot_nodes
  read_flags f typed cfg w = elim f.rpc [
    | none ↦ (failed ConfigError.bad_flag, (cfg, w))
    | some rpc ↦ if is_empty rpc then (failed ConfigError.missing_flag, (cfg, w)) else elim f.boot [
      | none ↦ (failed ConfigError.bad_flag, (set_rpc_addr rpc cfg, w))
      | some boot ↦
          if is_empty boot
          then (failed ConfigError.missing_flag, (set_rpc_addr rpc cfg, w))
          else read_workspace f typed (set_boot_nodes boot (set_rpc_addr rpc cfg)) w
    ]
  ]

  -- The file's settings, or the flags' on top of what the refused file has left.
  unfoldable pub parse_or_read :
      String → Flags → List Typed → H.State → Result × (Confile × H.State)
  unfolding read_flags
  parse_or_read path f typed w =
      let (r, after) = parse H path new_configfile w in
      elim r [ ok ↦ (ok, after) | failed _ ↦ read_flags f typed after.0 after.1 | e ↦ (e, after) ]

  -- A file that is named but missing is an error, with no settings at all.
  unfoldable pub build_config_file :
      Flags → List Typed → H.State → Result × (Option Confile × H.State)
  unfolding parse_or_read
  build_config_file f typed w =
      let named = if f.config == "" then f.c else f.config in
      if not (named == "") && is_unknown (H.stat named w)
      then (failed ConfigError.no_file, (none, w))
      else let (r, after) =
          parse_or_read (if named == "" then default_config else named) f typed w in
        (r, (some after.0, after.1))

  unfoldable pub build_authentication_config :
      Flags → List Typed → H.State → Result × (Confile × H.State)
  unfolding ask_mnemonic set_rpc_addr
  build_authentication_config f typed w =
      let named = if f.config == "" then f.c else f.config in
      let (r, after) = parse H (if named == "" then default_config else named) new_configfile w in
      elim r [
        | ok ↦ (ok, after)
        | failed _ ↦ elim f.rpc [
          | none ↦ (failed ConfigError.bad_flag, after)
          | some rpc ↦
              let (q, cfg) = ask_mnemonic typed (set_rpc_addr rpc after.0) in (q, (cfg, after.1))
        ]
        | e ↦ (e, after)
      ]
