-- ===== src/Config/Build/Safe.antt =====
-- What `buildConfigFile` of cmd/cmd/run.go returns without an error.
use de_oss.Base.{
  ◌≡◌, ◌≢◌, ◌≤◌, ◌<◌, ap, subst, sym, ◌∙◌, ℕ, true, false, String, List, [], ◌∷◌, ◌++◌, Option,
  none, some, string_eq, arith, Option-cases, inl, inr,
}
use de_oss.Base.Word.{two_64}
use de_oss.Config.{
  Confile, Host, ok, has_secret, set_http_port, set_p2p_port, set_workspace, set_mnemonic,
  set_rpc_addr, set_boot_nodes,
}
use de_oss.Config.Parse.{is_empty}
use de_oss.Config.Parse.Valid.{IsRunnable}
use de_oss.Config.Build.{
  Flags, Typed, line, unread, interrupted, ask_mnemonic, read_mnemonic, read_ports, read_workspace,
  read_flags,
}

module _ (H : Host) where
  -- What is typed and does not end the loop.
  abbrev pub IsRejected : Typed → Type 0
  IsRejected interrupted = ⊥
  IsRejected unread = Unit
  IsRejected (line pwd) = pwd ≢ "" → has_secret H pwd ≡ false

  abbrev pub AllRejected : List Typed → Type 0
  AllRejected [] = Unit
  AllRejected (t ∷ ts) = IsRejected t × AllRejected ts

  -- The loop that asks for the mnemonic ends: at the first line that yields a key, which becomes the
  -- mnemonic, whatever was typed before, if no interrupt, and whatever comes after.
  pub ask_mnemonic_ends :
      (before : List Typed) (mnemonic : String) (rest : List Typed) (cfg : Confile)
      → AllRejected before
      → mnemonic ≢ ""
      → has_secret H mnemonic ≡ true
      → ask_mnemonic H (before ++ line mnemonic ∷ rest) cfg
        ≡ (ok, record cfg { mnemonic = mnemonic })
  unfolding ask_mnemonic set_mnemonic
  ask_mnemonic_ends [] mnemonic rest cfg _ given e = ground (arith, given, e)
  ask_mnemonic_ends (interrupted ∷ ts) mnemonic rest cfg r _ _ = elim r.0 [ ]
  ask_mnemonic_ends (unread ∷ ts) mnemonic rest cfg r given e =
      ask_mnemonic_ends ts mnemonic rest cfg r.1 given e
  ask_mnemonic_ends (line pwd ∷ ts) mnemonic rest cfg r given e =
      ground (arith, r.0, ask_mnemonic_ends ts mnemonic rest cfg r.1 given e)

  -- Only the mnemonic changes.
  record IsAsked (c d : Confile) : Type 0 where
    pub secret : has_secret H d.mnemonic ≡ true
    pub same : d ≡ record c { mnemonic = d.mnemonic }

  ask_mnemonic-IsAsked :
      (typed : List Typed) (cfg : Confile)
      → (ask_mnemonic H typed cfg).0 ≡ ok
      → IsAsked cfg (ask_mnemonic H typed cfg).1
  unfolding ask_mnemonic set_mnemonic
  ask_mnemonic-IsAsked [] cfg e = ground arith
  ask_mnemonic-IsAsked (interrupted ∷ ts) cfg e = ground arith
  ask_mnemonic-IsAsked (unread ∷ ts) cfg e = ask_mnemonic-IsAsked ts cfg e
  ask_mnemonic-IsAsked (line pwd ∷ ts) cfg e = record {
    secret = ground (arith, ask_mnemonic-IsAsked ts cfg);
    same = ground (arith, ask_mnemonic-IsAsked ts cfg);
  }

  read_mnemonic-IsAsked :
      (f : Flags) (typed : List Typed) (cfg : Confile)
      → (read_mnemonic H f typed cfg).0 ≡ ok
      → IsAsked cfg (read_mnemonic H f typed cfg).1
  unfolding read_mnemonic set_mnemonic
  read_mnemonic-IsAsked f typed cfg e = record {
    secret = ground (arith, ask_mnemonic-IsAsked typed cfg);
    same = ground (arith, ask_mnemonic-IsAsked typed cfg);
  }

  -- The mnemonic and the ports are good, and what else matters is as it was.
  record IsReady (c d : Confile) : Type 0 where
    pub secret : has_secret H d.mnemonic ≡ true
    pub least_http : 1024 ≤ d.http_port
    pub least_p2p : 1024 ≤ d.p2p_port
    pub most_http : d.http_port ≤ 65535
    pub most_p2p : d.p2p_port ≤ 65535
    pub rpc : d.rpc ≡ c.rpc
    pub boot : d.boot ≡ c.boot
    pub access : d.access ≡ c.access
    pub accounts : d.accounts ≡ c.accounts

  abbrev pub IsWord : Option ℕ → Type 0
  IsWord none = Unit
  IsWord (some n) = n < two_64

  asked-IsReady :
      (c d : Confile) (h p : ℕ)
      → IsAsked (record c { http_port = h; p2p_port = p }) d
      → 1024 ≤ h
      → 1024 ≤ p
      → h ≤ 65535
      → p ≤ 65535
      → IsReady c d
  asked-IsReady c d h p a lh lp mh mp = record {
    secret = a.secret;
    least_http = subst (λ x. 1024 ≤ x) (sym (ap (λ x. x.http_port) a.same)) lh;
    least_p2p = subst (λ x. 1024 ≤ x) (sym (ap (λ x. x.p2p_port) a.same)) lp;
    most_http = subst (λ x. x ≤ 65535) (sym (ap (λ x. x.http_port) a.same)) mh;
    most_p2p = subst (λ x. x ≤ 65535) (sym (ap (λ x. x.p2p_port) a.same)) mp;
    rpc = ap (λ x. x.rpc) a.same;
    boot = ap (λ x. x.boot) a.same;
    access = ap (λ x. x.access) a.same;
    accounts = ap (λ x. x.accounts) a.same;
  }

  read_ports-IsReady :
      (f : Flags) (typed : List Typed) (c : Confile)
      → IsWord f.http_port
      → IsWord f.p2p_port
      → (read_ports H f typed c).0 ≡ ok
      → IsReady c (read_ports H f typed c).1
  unfolding read_ports set_http_port set_p2p_port
  read_ports-IsReady f typed c wh wp e = elim (Option-cases f.http_port) [
    | inl n ↦ absurd (ground (arith, n))
    | inr (h, i) ↦ elim (Option-cases f.p2p_port) [
      | inl n ↦ absurd (ground (arith, n, i))
      | inr (p, j) ↦
          let c' : Confile = record c { http_port = h; p2p_port = p } in
          let wh' = subst IsWord i wh in
          let wp' = subst IsWord j wp in
          subst (IsReady c) (ground (arith, i, j, e)) (
            asked-IsReady c (read_mnemonic H f typed c').1 h p
              (read_mnemonic-IsAsked f typed c' (ground (arith, i, j, e)))
              (ground (arith, i, j, e, wh')) (ground (arith, i, j, e, wp'))
              (ground (arith, i, j, e, wh')) (ground (arith, i, j, e, wp')))
    ]
  ]

  moved-IsReady :
      (c d : Confile) (ws : String) → IsReady (record c { workspace = ws }) d → IsReady c d
  moved-IsReady c d ws r = record {
    secret = r.secret;
    least_http = r.least_http;
    least_p2p = r.least_p2p;
    most_http = r.most_http;
    most_p2p = r.most_p2p;
    rpc = r.rpc;
    boot = r.boot;
    access = r.access;
    accounts = r.accounts;
  }

  read_workspace-IsReady :
      (f : Flags) (typed : List Typed) (c : Confile) (w : H.State)
      → IsWord f.http_port
      → IsWord f.p2p_port
      → (read_workspace H f typed c w).0 ≡ ok
      → IsReady c (read_workspace H f typed c w).1.0
  unfolding read_workspace set_workspace
  read_workspace-IsReady f typed c w wh wp e = elim (Option-cases f.ws) [
    | inl n ↦ absurd (ground (arith, n))
    | inr (ws, i) ↦
        let c' : Confile = record c { workspace = ws } in
        let r = read_ports-IsReady f typed c' wh wp (ground (arith, i, e)) in
        subst (IsReady c) (ground (arith, i, e)) (moved-IsReady c (read_ports H f typed c').1 ws r)
  ]

  -- What the flags have set, and what they leave.
  pub record IsFilled (c d : Confile) : Type 0 where
    pub runnable : IsRunnable H d
    pub access : d.access ≡ c.access
    pub accounts : d.accounts ≡ c.accounts

  ready-IsFilled :
      (c d : Confile) (rpc boot : List String)
      → is_empty rpc ≡ false
      → is_empty boot ≡ false
      → IsReady (record c { rpc = rpc; boot = boot }) d
      → IsFilled c d
  ready-IsFilled c d rpc boot nr nb r = record {
    runnable = record {
      secret = r.secret;
      rpc = ap is_empty r.rpc ∙ nr;
      boot = ap is_empty r.boot ∙ nb;
      least_http = r.least_http;
      least_p2p = r.least_p2p;
      most_http = r.most_http;
      most_p2p = r.most_p2p;
    };
    access = r.access;
    accounts = r.accounts;
  }

  pub read_flags-IsFilled :
      (f : Flags) (typed : List Typed) (c : Confile) (w : H.State)
      → IsWord f.http_port
      → IsWord f.p2p_port
      → (read_flags H f typed c w).0 ≡ ok
      → IsFilled c (read_flags H f typed c w).1.0
  unfolding read_flags set_rpc_addr set_boot_nodes
  read_flags-IsFilled f typed c w wh wp e = elim (Option-cases f.rpc) [
    | inl n ↦ absurd (ground (arith, n))
    | inr (rpc, i) ↦ elim (Option-cases f.boot) [
      | inl n ↦ absurd (ground (arith, n, i))
      | inr (boot, j) ↦
          let c' : Confile = record c { rpc = rpc; boot = boot } in
          subst (IsFilled c) (ground (arith, i, j, e)) (
            ready-IsFilled c (read_workspace H f typed c' w).1.0 rpc boot (ground (arith, i, j, e))
              (ground (arith, i, j, e))
              (read_workspace-IsReady f typed c' w wh wp (ground (arith, i, j, e))))
    ]
  ]
