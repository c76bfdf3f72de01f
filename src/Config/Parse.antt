-- ===== src/Config/Parse.antt =====
-- `Parse` of pkg/confile/confile.go: reads the settings from a file and checks them.
pub mod Valid
use de_oss.Base.{
  Bool, true, false, String, List, ◌∷◌, if◌then◌else◌, ◌==◌, string_eq, not, ◌&&◌, ◌||◌, [],
}
use de_oss.Base.Dict
use de_oss.Base.Dict.{Dict}
use de_oss.Base.Word.{lt_i64}
use de_oss.Access.{access_public, access_private}
use de_oss.Config.{
  Confile, Host, ConfigError, Result, ok, failed, crashed, directory, file, unknown, has_secret,
}

-- `ProfileDefault`
abbrev pub profile_default : String
profile_default = "conf.yaml"

abbrev pub is_empty : List String → Bool
is_empty [] = true
is_empty (_ ∷ _) = false

module _ (H : Host) where
  -- `accounts`, the map of the accounts that are addresses.
  unfoldable pub known_accounts : List String → Dict String (Unit {0}) → Dict String (Unit {0})
  known_accounts [] m = m
  known_accounts (v ∷ vs) m = elim (H.verity_address v) [
    | false ↦ known_accounts vs m
    | true ↦ known_accounts vs (Dict.insert v tt m)
  ]

  -- The checks before the accounts.
  unfoldable pub check_entries : Confile → Result
  check_entries c =
      if not (has_secret H c.mnemonic)
      then failed ConfigError.invalid_mnemonic
      else if is_empty c.rpc || is_empty c.boot
      then failed ConfigError.empty_entries
      else if lt_i64 c.http_port 1024 || lt_i64 c.p2p_port 1024
      then failed ConfigError.reserved_port
      else if lt_i64 65535 c.http_port || lt_i64 65535 c.p2p_port
      then failed ConfigError.port_too_large
      else if not (c.access == access_public) && not (c.access == access_private)
      then failed ConfigError.invalid_access
      else ok

  -- `c.Accounts = accountList`
  abbrev pub keep_accounts : Confile → Confile
  keep_accounts c = record c { accounts = H.map_order (Dict.keys (known_accounts c.accounts [])) }

  -- The last step: the workspace is a directory, or is made one.
  unfoldable pub open_workspace : String → H.State → Result × H.State
  open_workspace workspace w = elim (H.stat workspace w) [
    | unknown ↦
        let (made, w') = H.mkdir_all workspace w in
        (elim made [ true ↦ ok | false ↦ failed ConfigError.no_workspace ], w')
    | file ↦ (failed ConfigError.not_a_directory, w)
    | directory ↦ (ok, w)
  ]

  -- From the check of the mnemonic on.
  unfoldable pub check : Confile → H.State → Result × (Confile × H.State)
  unfolding check_entries open_workspace
  check c w = elim (check_entries c) [
    | ok ↦
        let kept = keep_accounts c in
        if not (H.check_domain c.domain)
        then (failed ConfigError.invalid_domain, (kept, w))
        else let (r, w') = open_workspace c.workspace w in (r, (kept, w'))
    | r ↦ (r, (c, w))
  ]

  -- `path.Ext(confilePath)[1:]` panics when the name has no dot.
  unfoldable pub parse : String → Confile → H.State → Result × (Confile × H.State)
  unfolding check
  parse fpath c w =
      let path = if fpath == "" then profile_default else fpath in
      elim (H.stat path w) [
        | unknown ↦ (failed ConfigError.no_file, (c, w))
        | directory ↦ (failed ConfigError.not_a_file, (c, w))
        | file ↦
            if H.ext path == ""
            then (crashed, (c, w))
            else if not (H.read_in_config path w)
            then (failed ConfigError.unreadable, (c, w))
            else let (decoded, c') = H.unmarshal path w c in
              elim decoded [ false ↦ (failed ConfigError.bad_format, (c', w)) | true ↦ check c' w ]
      ]
