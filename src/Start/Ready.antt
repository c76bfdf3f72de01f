-- ===== src/Start/Ready.antt =====
-- What holds when `cmd_run_func` of cmd/cmd/run.go lets the gateway run.
use de_oss.Base.{
  ◌≡◌, ◌⊎◌, ◌≤◌, ap, subst, sym, ◌∙◌, ℕ, Bool, true, String, List, [], ◌∷◌, Option, none, some, eqb,
  ◌&&◌, ◌==◌, string_eq, arith, inl, inr, Bool-cases, Option-cases,
}
use de_oss.Chain.{Reply-cases, found}
use de_oss.Config.{
  Confile, Host, new_configfile, has_secret, get_cache_size, get_cache_item_exp, get_max_node_num,
  get_max_ttl, get_refresh_time,
}
use de_oss.Config.Parse.{is_empty}
use de_oss.Config.Parse.Valid.{HasPorts, IsRunnable, IsMapOrder, MakesDirs}
use de_oss.Config.Build.{Flags, Typed, build_config_file}
use de_oss.Config.Build.Safe.{IsWord}
use de_oss.Config.Build.Runnable.{build_config_file-IsRunnable, Result-cases}
use de_oss.Start.{
  OssInfo, Sent, registered, updated, World, Running, running, in_sync, build_dir, register,
  build_parts, connect, cmd_run_func,
}

-- A call found the chain's highest block to be its current one, after calls that did not fail.
abbrev pub Synchronised : List (Option (ℕ × ℕ)) → Type 0
Synchronised [] = ⊥
Synchronised (none ∷ _) = ⊥
Synchronised (some (current, highest) ∷ l) = (current ≡ highest) ⊎ Synchronised l

in_sync-Synchronised : (l : List (Option (ℕ × ℕ))) → in_sync l ≡ some true → Synchronised l
unfolding in_sync
in_sync-Synchronised [] e = ground (arith, e)
in_sync-Synchronised (none ∷ l) e = ground (arith, e)
in_sync-Synchronised (some (c, h) ∷ l) e = elim (Bool-cases (eqb c h)) [
  | inl q ↦ inl (ground (arith, q))
  | inr q ↦ inr (in_sync-Synchronised l (ground (arith, q, e)))
]

module _ (W : World) where
  -- The chain has the gateway's key and domain: it had them, or they were sent and accepted.
  abbrev pub IsRegistered : String → List Sent → Type 0
  IsRegistered domain sent =
      ((info : OssInfo) × (W.query_oss ≡ found info)
        × (info.peerid ≡ W.peer_publickey)
        × (info.domain ≡ domain))
      ⊎ (((sent ≡ registered W.peer_publickey domain ∷ [])
            × (W.register_oss W.peer_publickey domain ≡ true))
          ⊎ ((sent ≡ updated W.peer_publickey domain ∷ [])
              × (W.update_oss W.peer_publickey domain ≡ true)))

  register-IsRegistered :
      (domain : String) (sent : List Sent) (rebuilt : Bool)
      → register W domain ≡ some (sent, rebuilt)
      → IsRegistered domain sent
  unfolding register
  register-IsRegistered domain sent rebuilt e = elim (Reply-cases W.query_oss) [
    | inl (info, q) ↦ elim (Bool-cases (info.peerid == W.peer_publickey && domain == info.domain)) [
      | inl s ↦ inl (info, q, ground (arith, s), ground (arith, s))
      | inr s ↦ inr (inr (ground (arith, e, q, s), ground (arith, e, q, s)))
    ]
    | inr (inl q) ↦ inr (inl (ground (arith, e, q), ground (arith, e, q)))
    | inr (inr (x, q)) ↦ absurd (ground (arith, e, q))
  ]

  -- The settings that the getters do not correct.
  record IsCorrected (c d : Confile) : Type 0 where
    pub rpc : d.rpc ≡ c.rpc
    pub boot : d.boot ≡ c.boot
    pub mnemonic : d.mnemonic ≡ c.mnemonic
    pub http_port : d.http_port ≡ c.http_port
    pub p2p_port : d.p2p_port ≡ c.p2p_port
    pub domain : d.domain ≡ c.domain

  getters-IsCorrected :
      (c : Confile)
      → IsCorrected c
          (get_refresh_time
            (get_max_ttl (get_max_node_num (get_cache_size (get_cache_item_exp c).1).1).1).1).1
  unfolding get_cache_item_exp get_cache_size get_max_node_num get_max_ttl get_refresh_time
  getters-IsCorrected c = record {
    rpc = ground arith;
    boot = ground arith;
    mnemonic = ground arith;
    http_port = ground arith;
    p2p_port = ground arith;
    domain = ground arith;
  }

  build_parts-IsCorrected :
      (c d : Confile) (key : String) (sent : List Sent) (rebuilt : Bool) (s : Running)
      → build_parts W c key sent rebuilt ≡ running d s
      → IsCorrected c d × (s.sent ≡ sent) × (s.sign_key ≡ key)
  unfolding build_parts
  build_parts-IsCorrected c d key sent rebuilt s e = elim (Option-cases (build_dir W W.workspace)) [
    | inl n ↦ absurd (ground (arith, e, n))
    | inr (dirs, n) ↦ elim (Bool-cases (W.new_cache dirs.db && W.new_logs dirs.log)) [
      | inr b ↦ absurd (ground (arith, e, n, b))
      | inl b ↦ (
        subst (IsCorrected c) (ground (arith, e, n, b)) (getters-IsCorrected c),
        ground (arith, e, n, b),
        ground (arith, e, n, b),
      )
    ]
  ]

  -- What `connect` has checked when the gateway runs with the settings `d`.
  record IsConnected (c d : Confile) (s : Running) : Type 0 where
    pub corrected : IsCorrected c d
    pub free : W.free_local_port c.http_port ≡ true
    pub signed : W.calc_md5 c.mnemonic ≡ some s.sign_key
    pub synchronised : Synchronised W.sync_states
    pub known : IsRegistered c.domain s.sent

  parts_of :
      (c d : Confile) (s : Running)
      → connect W c ≡ running d s
      → (key : String) × (r : List Sent × Bool) × (W.free_local_port c.http_port ≡ true)
        × (W.calc_md5 c.mnemonic ≡ some key)
        × (in_sync W.sync_states ≡ some true)
        × (register W c.domain ≡ some r)
        × (build_parts W c key r.0 r.1 ≡ running d s)
  unfolding connect
  parts_of c d s e = elim (Option-cases (W.calc_md5 c.mnemonic)) [
    | inl n ↦ absurd (ground (arith, e, n))
    | inr (key, n) ↦ elim (Option-cases (register W c.domain)) [
      | inl q ↦ absurd (ground (arith, e, n, q))
      | inr (r, q) ↦
          (key, r, ground (arith, e, n, q), n, ground (arith, e, n, q), q, ground (arith, e, n, q))
    ]
  ]

  connect-IsConnected :
      (c d : Confile) (s : Running) → connect W c ≡ running d s → IsConnected c d s
  connect-IsConnected c d s e =
      let (key, r, free, signed, synced, sent, parts) = parts_of c d s e in
      let (corrected, same_sent, same_key) = build_parts-IsCorrected c d key r.0 r.1 s parts in
      record {
        corrected = corrected;
        free = free;
        signed = signed ∙ ap some (sym same_key);
        synchronised = in_sync-Synchronised W.sync_states synced;
        known =
            subst (IsRegistered c.domain) (sym same_sent)
              (register-IsRegistered c.domain r.0 r.1 sent);
      }

  -- What the running gateway can rely on.
  pub record IsReady (H : Host) (d : Confile) (s : Running) : Type 0 where
    pub runnable : IsRunnable H d
    pub free : W.free_local_port d.http_port ≡ true
    pub signed : W.calc_md5 d.mnemonic ≡ some s.sign_key
    pub synchronised : Synchronised W.sync_states
    pub known : IsRegistered d.domain s.sent

  connected-IsReady :
      (H : Host) (c d : Confile) (s : Running) → IsRunnable H c → IsConnected c d s → IsReady H d s
  connected-IsReady H c d s r k =
      let f = k.corrected in
      record {
        runnable = record {
          secret = ap (has_secret H) f.mnemonic ∙ r.secret;
          rpc = ap is_empty f.rpc ∙ r.rpc;
          boot = ap is_empty f.boot ∙ r.boot;
          least_http = subst (λ x. 1024 ≤ x) (sym f.http_port) r.least_http;
          least_p2p = subst (λ x. 1024 ≤ x) (sym f.p2p_port) r.least_p2p;
          most_http = subst (λ x. x ≤ 65535) (sym f.http_port) r.most_http;
          most_p2p = subst (λ x. x ≤ 65535) (sym f.p2p_port) r.most_p2p;
        };
        free = ap W.free_local_port f.http_port ∙ k.free;
        signed = ap W.calc_md5 f.mnemonic ∙ k.signed;
        synchronised = k.synchronised;
        known = subst (λ x. IsRegistered x s.sent) (sym f.domain) k.known;
      }

  -- If the start ends with a running gateway, whether its settings come from a file or from the
  -- flags: there are Rpc and boot addresses, the mnemonic yields a key, both ports lie in 1024 to
  -- 65535 and the HTTP port was free; the signing key is the mnemonic's MD5; the chain was found
  -- synchronised; and the chain has the gateway's key and domain, or they were sent, and accepted.
  -- The ports that the file and the flags give are 64-bit integers, a map's iteration gives each key
  -- once, and a directory that `MkdirAll` made is found.
  pub cmd_run_func-IsReady :
      (H : Host) (f : Flags) (typed : List Typed) (w : H.State) (d : Confile) (s : Running)
      → ((path : String) → HasPorts (H.unmarshal path w new_configfile).1)
      → IsMapOrder H
      → MakesDirs H
      → IsWord H f.http_port
      → IsWord H f.p2p_port
      → cmd_run_func W H f typed w ≡ running d s
      → IsReady H d s
  unfolding cmd_run_func
  cmd_run_func-IsReady H f typed w d s ports order dirs wh wp e =
      let b = build_config_file H f typed w in
      elim (Result-cases b.0) [
        | inr (inl (x, q)) ↦ absurd (ground (arith, e, q))
        | inr (inr q) ↦ absurd (ground (arith, e, q))
        | inl q ↦ elim (Option-cases b.1.0) [
          | inl n ↦ absurd (ground (arith, e, q, n))
          | inr (c, n) ↦
              connected-IsReady H c d s
                (build_config_file-IsRunnable H f typed w c ports order dirs wh wp q n)
                (connect-IsConnected c d s (ground (arith, e, q, n)))
        ]
      ]
