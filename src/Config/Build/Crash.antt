-- ===== src/Config/Build/Crash.antt =====
-- When `buildConfigFile` of cmd/cmd/run.go panics on the flags.
use de_oss.Base.{
  ◌≡◌, ◌≢◌, ◌↔◌, sym, ◌∙◌, true, false, String, List, [], ◌∷◌, some, string_eq, arith, inl, inr,
  Option-cases,
}
use text.Mathlib.TextEquality.{eq_iff}
use de_oss.Config.{
  Confile, Host, crashed, unknown, new_configfile, set_workspace, set_mnemonic, set_http_port,
  set_p2p_port, set_rpc_addr, set_boot_nodes,
}
use de_oss.Config.Laws.{set_workspace-crashed_iff}
use de_oss.Config.Parse.{parse, is_empty}
use de_oss.Config.Build.{
  Flags, Typed, line, unread, interrupted, ask_mnemonic, read_mnemonic, read_ports, read_workspace,
  read_flags, parse_or_read, build_config_file, default_config,
}

module _ (H : Host) where
  ask_mnemonic_calm : (typed : List Typed) (c : Confile) → (ask_mnemonic H typed c).0 ≢ crashed
  unfolding ask_mnemonic set_mnemonic
  ask_mnemonic_calm [] c = ground arith
  ask_mnemonic_calm (interrupted ∷ ts) c = ground arith
  ask_mnemonic_calm (unread ∷ ts) c = ask_mnemonic_calm ts c
  ask_mnemonic_calm (line pwd ∷ ts) c = ground (arith, ask_mnemonic_calm ts c)

  read_mnemonic_calm :
      (f : Flags) (typed : List Typed) (c : Confile) → (read_mnemonic H f typed c).0 ≢ crashed
  unfolding read_mnemonic set_mnemonic
  read_mnemonic_calm f typed c = ground (arith, ask_mnemonic_calm typed c)

  read_ports_calm :
      (f : Flags) (typed : List Typed) (c : Confile) → (read_ports H f typed c).0 ≢ crashed
  unfolding read_ports set_http_port set_p2p_port
  read_ports_calm f typed c e = elim (Option-cases f.http_port) [
    | inl n ↦ ground (arith, n, e)
    | inr (h, i) ↦ elim (Option-cases f.p2p_port) [
      | inl n ↦ ground (arith, n, i, e)
      | inr (p, j) ↦
          read_mnemonic_calm f typed (record c { http_port = h; p2p_port = p })
            (ground (arith, i, j, e))
    ]
  ]

  -- A workspace that is accepted leaves nothing that could panic.
  read_workspace-crashed_iff :
      (f : Flags) (typed : List Typed) (c : Confile) (w : H.State) (ws : String)
      → f.ws ≡ some ws
      → ws ≢ ""
      → ((read_workspace H f typed c w).0 ≡ crashed) ↔ ((set_workspace H ws c w).0 ≡ crashed)
  unfolding read_workspace
  read_workspace-crashed_iff f typed c w ws i given =
      let calm = read_ports_calm f typed (set_workspace H ws c w).1.0 in
      ((λ e. ground (arith, i, given, calm, e)), (λ e. ground (arith, i, given, e)))

  -- A workspace given by `--ws` must be there already: if there is no configuration file, and the
  -- flags give Rpc addresses, boot addresses and a workspace, `buildConfigFile` panics exactly if
  -- the workspace is missing and can be made.
  pub build_config_file-crashed_iff :
      (f : Flags) (typed : List Typed) (w : H.State) (rpc boot : List String) (ws : String)
      → f.config ≡ ""
      → f.c ≡ ""
      → H.stat default_config w ≡ unknown
      → f.rpc ≡ some rpc
      → is_empty rpc ≡ false
      → f.boot ≡ some boot
      → is_empty boot ≡ false
      → f.ws ≡ some ws
      → ws ≢ ""
      → ((build_config_file H f typed w).0 ≡ crashed)
        ↔ ((H.stat ws w ≡ unknown) × ((H.mkdir_all ws w).0 ≡ true))
  unfolding build_config_file parse_or_read read_flags set_rpc_addr set_boot_nodes parse
  build_config_file-crashed_iff f typed w rpc boot ws nc nd missing i ni j nj k given =
      let c : Confile = record new_configfile { rpc = rpc; boot = boot } in
      let step = read_workspace-crashed_iff f typed c w ws k given in
      let law = set_workspace-crashed_iff H ws c w in
      let run : (build_config_file H f typed w).0 ≡ (read_workspace H f typed c w).0 =
        ground (arith, nc, nd, missing, i, ni, j, nj, eq_iff default_config "") in
      ((λ e. law.0 (step.0 (sym run ∙ e))), (λ e. run ∙ step.1 (law.1 e)))
