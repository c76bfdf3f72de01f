-- ===== src/Config/Build/Runnable.antt =====
-- The settings with which `buildConfigFile` of cmd/cmd/run.go lets the gateway start.
use de_oss.Base.{
  ◌≡◌, ◌≢◌, ◌⊎◌, refl, ap, subst, String, List, some, if◌then◌else◌, ◌==◌, string_eq, arith, inl,
  inr,
}
use text.Mathlib.TextEquality.{eq_iff}
use de_oss.Access.{AccessList, access_control, access_public, access_private}
use de_oss.Access.Library.{Crypto, AuthError, accepted, refused, Verdict-cases}
use de_oss.Access.Params.{UserParams, check_user_params, error_text}
use de_oss.Access.Params.Laws.{access_control-accepted_iff, access_control-not-crashed}
use de_oss.Http.{Body, Response, done, status_forbidden}
use de_oss.Config.{
  Confile, Host, Result, ConfigError, ok, failed, crashed, quit, waits, unknown, new_configfile,
}
use de_oss.Config.Parse.{parse}
use de_oss.Config.Parse.Valid.{HasPorts, IsRunnable, IsMapOrder, MakesDirs, parse-IsValid}
use de_oss.Config.Build.{Flags, Typed, parse_or_read, build_config_file, default_config}
use de_oss.Config.Build.Safe.{IsWord, read_flags-IsFilled}

pub Result-cases :
    (r : Result)
    → (r ≡ ok)
      ⊎ (((e : ConfigError) × (r ≡ failed e)) ⊎ ((r ≡ crashed) ⊎ ((r ≡ quit) ⊎ (r ≡ waits))))
Result-cases ok = inl refl
Result-cases (failed e) = inr (inl (e, refl))
Result-cases crashed = inr (inr (inl refl))
Result-cases quit = inr (inr (inr (inl refl)))
Result-cases waits = inr (inr (inr (inr refl)))

no_access :
    (k : Crypto) (l : AccessList) (account : String)
    → l.access ≡ ""
    → access_control k l account ≢ accepted tt
no_access k l account e h = ground (
  arith,
  (access_control-accepted_iff k l account).0 h,
  eq_iff "" access_public,
  eq_iff "" access_private,
)

-- An account without access gets 403.
refused-forbidden :
    (k : Crypto) (l : AccessList) (r : UserParams) {S : Type 0} (s : S)
    → access_control k l r.account ≢ accepted tt
    → ((e : AuthError) × (access_control k l r.account ≡ refused e))
      × ((y : Response) × (check_user_params k l r s ≡ (done y, s)) × (y.status ≡ status_forbidden))
unfolding check_user_params
refused-forbidden k l r s n = elim (Verdict-cases (access_control k l r.account)) [
  | inl (u, a) ↦ absurd (n a)
  | inr (inl (e, a)) ↦ (
    (e, a),
    (
      record { status = status_forbidden; body = Body.text (error_text e) },
      ground (arith, a),
      refl,
    ),
  )
  | inr (inr a) ↦ absurd (access_control-not-crashed k l r.account a)
]

module _ (H : Host) (f : Flags) (typed : List Typed) (w : H.State) where
  -- The name that the flags give, and the file that is read.
  abbrev pub chosen : String
  chosen =
      let named = if f.config == "" then f.c else f.config in
      if named == "" then default_config else named

  chosen_given : chosen ≢ ""
  chosen_given = ground (arith, eq_iff default_config "")

  parse_missing :
      (path : String)
      → path ≢ ""
      → H.stat path w ≡ unknown
      → parse H path new_configfile w ≡ (failed ConfigError.no_file, (new_configfile, w))
  unfolding parse
  parse_missing path given missing = ground arith

  parse_or_read-IsRunnable :
      (path : String)
      → ((path : String) → HasPorts (H.unmarshal path w new_configfile).1)
      → IsMapOrder H
      → MakesDirs H
      → IsWord H f.http_port
      → IsWord H f.p2p_port
      → (parse_or_read H path f typed w).0 ≡ ok
      → IsRunnable H (parse_or_read H path f typed w).1.0
  unfolding parse_or_read
  parse_or_read-IsRunnable path ports order dirs wh wp e =
      let left = (parse H path new_configfile w).1 in
      elim (Result-cases (parse H path new_configfile w).0) [
        | inl p ↦
            subst (IsRunnable H) (ground (arith, p))
              (parse-IsValid H path new_configfile w ports order dirs p).0.runnable
        | inr (inl (x, p)) ↦
            subst (IsRunnable H) (ground (arith, p))
              (read_flags-IsFilled H f typed left.0 left.1 wh wp (ground (arith, p, e))).runnable
        | inr (inr q) ↦ absurd (ground (arith, q, e))
      ]

  -- A file that is refused leaves the access and the accounts to what was read of it.
  parse_or_read-access :
      (path : String) (x : ConfigError)
      → IsWord H f.http_port
      → IsWord H f.p2p_port
      → (parse H path new_configfile w).0 ≡ failed x
      → (parse_or_read H path f typed w).0 ≡ ok
      → (parse_or_read H path f typed w).1.0.access ≡ (parse H path new_configfile w).1.0.access
  unfolding parse_or_read
  parse_or_read-access path x wh wp p e =
      let left = (parse H path new_configfile w).1 in
      let filled = read_flags-IsFilled H f typed left.0 left.1 wh wp (ground (arith, p, e)) in
      ground (arith, p, filled.access)

  -- If `buildConfigFile` returns settings without an error, the gateway can run with them, whether
  -- they come from the file or from the flags: there are Rpc and boot addresses, the mnemonic yields
  -- a key, and both ports lie in 1024 to 65535. The ports that the file and the flags give are 64-bit
  -- integers, a map's iteration gives each key once, and a directory that `MkdirAll` made is found.
  pub build_config_file-IsRunnable :
      (c : Confile)
      → ((path : String) → HasPorts (H.unmarshal path w new_configfile).1)
      → IsMapOrder H
      → MakesDirs H
      → IsWord H f.http_port
      → IsWord H f.p2p_port
      → (build_config_file H f typed w).0 ≡ ok
      → (build_config_file H f typed w).1.0 ≡ some c
      → IsRunnable H c
  unfolding build_config_file
  build_config_file-IsRunnable c ports order dirs wh wp e s =
      subst (IsRunnable H) (ground (arith, e, s))
        (parse_or_read-IsRunnable chosen ports order dirs wh wp (ground (arith, e)))

  -- Without a configuration file, the flags alone may start the gateway, but it refuses every request
  -- that asks for access: if the file that is looked for is not there, and `buildConfigFile` returns
  -- settings without an error, the access check with these settings refuses every account, and
  -- `checkUserParamsAndGetPubkey`, which both uploads call, answers every request with 403. The
  -- flags' ports are 64-bit integers. Handlers that do not ask for access are not covered.
  pub build_config_file-refuses :
      (c : Confile) (k : Crypto) (r : UserParams) {S : Type 0} (s : S)
      → H.stat chosen w ≡ unknown
      → IsWord H f.http_port
      → IsWord H f.p2p_port
      → (build_config_file H f typed w).0 ≡ ok
      → (build_config_file H f typed w).1.0 ≡ some c
      → let l : AccessList = record { access = c.access; accounts = c.accounts } in
        ((e : AuthError) × (access_control k l r.account ≡ refused e))
        × ((y : Response) × (check_user_params k l r s ≡ (done y, s))
            × (y.status ≡ status_forbidden))
  unfolding build_config_file
  build_config_file-refuses c k r s missing wh wp e q =
      let p = parse_missing chosen chosen_given missing in
      let left =
        parse_or_read-access chosen ConfigError.no_file wh wp (ap (λ x. x.0) p)
          (ground (arith, e)) in
      let l : AccessList = record { access = c.access; accounts = c.accounts } in
      refused-forbidden k l r s (no_access k l r.account (ground (arith, left, p, e, q)))
