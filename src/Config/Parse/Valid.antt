-- ===== src/Config/Parse/Valid.antt =====
-- What `Parse` of pkg/confile/confile.go accepts.
use de_oss.Base.{
  IsDistinct, ◌≡◌, ◌⊎◌, ◌≤◌, ◌<◌, inl, inr, refl, subst, true, false, String, List, [], ◌∷◌, ◌==◌,
  string_eq, if◌then◌else◌, contains, arith, Bool-cases,
}
use de_oss.Base.Dict
use de_oss.Base.Dict.{Dict, NodupKeys, keys}
use de_oss.Base.Word.{two_64}
use de_oss.Access.{access_public, access_private}
use de_oss.Config.{Confile, Host, ok, has_secret, directory}
use de_oss.Config.Parse.{
  profile_default, is_empty, known_accounts, check_entries, open_workspace, check, parse,
}

-- The ports are 64-bit patterns.
pub record HasPorts (c : Confile) : Type 0 where
  pub http : c.http_port < two_64
  pub p2p : c.p2p_port < two_64

-- The settings that the gateway cannot run without.
pub record IsRunnable (H : Host) (c : Confile) : Type 0 where
  pub secret : has_secret H c.mnemonic ≡ true
  pub rpc : is_empty c.rpc ≡ false
  pub boot : is_empty c.boot ≡ false
  pub least_http : 1024 ≤ c.http_port
  pub least_p2p : 1024 ≤ c.p2p_port
  pub most_http : c.http_port ≤ 65535
  pub most_p2p : c.p2p_port ≤ 65535

pub record IsValid (H : Host) (c : Confile) : Type 0 where
  pub runnable : IsRunnable H c
  pub access : (c.access ≡ access_public) ⊎ (c.access ≡ access_private)
  pub accounts : (a : String) → contains c.accounts a ≡ true → H.verity_address a ≡ true
  pub distinct : IsDistinct c.accounts
  pub domain : H.check_domain c.domain ≡ true

-- An iteration over a map gives each key once.
abbrev pub IsMapOrder : Host → Type 0
IsMapOrder H =
    (l : List String)
    → IsDistinct l
    → IsDistinct (H.map_order l) × ((a : String) → contains (H.map_order l) a ≡ contains l a)

-- After `os.MkdirAll` succeeds, `os.Stat` finds a directory.
abbrev pub MakesDirs : Host → Type 0
MakesDirs H =
    (path : String) (w : H.State)
    → (H.mkdir_all path w).0 ≡ true
    → H.stat path (H.mkdir_all path w).1 ≡ directory

contains-keys : (a : String) (d : Dict String (Unit {0})) → contains (keys d) a ≡ Dict.member a d
unfolding keys Dict.lookup
contains-keys a [] = refl
contains-keys a (_ ∷ d) = ground (arith, contains-keys a d)

keys-IsDistinct : (d : Dict String (Unit {0})) → NodupKeys d → IsDistinct (keys d)
unfolding keys
keys-IsDistinct [] _ = tt
keys-IsDistinct ((k, _) ∷ d) (fresh, u) =
    (ground (arith, contains-keys k d, fresh), keys-IsDistinct d u)

module _ (H : Host) where
  known_accounts-NodupKeys :
      (l : List String) (d : Dict String (Unit {0}))
      → NodupKeys d
      → NodupKeys (known_accounts H l d)
  unfolding known_accounts
  known_accounts-NodupKeys [] d u = u
  known_accounts-NodupKeys (v ∷ l) d u = ground (
    arith,
    known_accounts-NodupKeys l d u,
    known_accounts-NodupKeys l (Dict.insert v tt d) (Dict.insert-NodupKeys v tt d u),
  )

  known_accounts-known :
      (a : String) (l : List String) (d : Dict String (Unit {0}))
      → (Dict.member a d ≡ true → H.verity_address a ≡ true)
      → Dict.member a (known_accounts H l d) ≡ true
      → H.verity_address a ≡ true
  unfolding known_accounts
  known_accounts-known a [] d h m = h m
  known_accounts-known a (v ∷ l) d h m = elim (Bool-cases (H.verity_address v)) [
    | inl e ↦
        known_accounts-known a l (Dict.insert v tt d)
          (λ k. ground (arith, Dict.lookup-insert a v tt d, e, h, k)) (ground (arith, m, e))
    | inr e ↦ known_accounts-known a l d h (ground (arith, m, e))
  ]

  check_entries-IsRunnable : (c : Confile) → HasPorts c → check_entries H c ≡ ok → IsRunnable H c
  unfolding check_entries
  check_entries-IsRunnable c p e = record {
    secret = ground arith;
    rpc = ground arith;
    boot = ground arith;
    least_http = ground (arith, p.http);
    least_p2p = ground (arith, p.p2p);
    most_http = ground (arith, p.http);
    most_p2p = ground (arith, p.p2p);
  }

  check_entries-access :
      (c : Confile)
      → check_entries H c ≡ ok
      → (c.access ≡ access_public) ⊎ (c.access ≡ access_private)
  unfolding check_entries
  check_entries-access c e = ground arith

  member-nil : (a : String) → Dict.member {V = Unit {0}} a [] ≡ true → H.verity_address a ≡ true
  unfolding Dict.lookup
  member-nil a k = ground arith

  open_workspace-directory :
      (path : String) (w : H.State)
      → MakesDirs H
      → (open_workspace H path w).0 ≡ ok
      → H.stat path (open_workspace H path w).1 ≡ directory
  unfolding open_workspace
  open_workspace-directory path w dirs e = ground (arith, dirs path w)

  -- What `check` leaves, if it accepts.
  check-IsValid :
      (c : Confile) (w : H.State)
      → HasPorts c
      → IsMapOrder H
      → MakesDirs H
      → (check H c w).0 ≡ ok
      → IsValid H (check H c w).1.0 × (H.stat c.workspace (check H c w).1.1 ≡ directory)
  unfolding check
  check-IsValid c w p order dirs e =
      let entries : check_entries H c ≡ ok = ground (arith, e) in
      let runnable = check_entries-IsRunnable c p entries in
      let access = check_entries-access c entries in
      let found = known_accounts H c.accounts [] in
      let o =
        order (keys found) (keys-IsDistinct found (known_accounts-NodupKeys c.accounts [] tt)) in
      let kept : Confile = record c { accounts = H.map_order (keys found) } in
      let valid : IsValid H kept = record {
        runnable = record {
          secret = runnable.secret;
          rpc = runnable.rpc;
          boot = runnable.boot;
          least_http = runnable.least_http;
          least_p2p = runnable.least_p2p;
          most_http = runnable.most_http;
          most_p2p = runnable.most_p2p;
        };
        access = access;
        accounts = λ a m.
            known_accounts-known a c.accounts [] (member-nil a)
              (ground (arith, o.1 a, m, contains-keys a found));
        distinct = o.0;
        domain = ground (arith, entries);
      } in
      (
        subst (IsValid H) (ground (arith, e)) valid,
        ground (arith, open_workspace-directory c.workspace w dirs),
      )

-- If `Parse` returns no error, the settings are valid: there are Rpc and boot addresses, the mnemonic
-- yields a key, both ports lie in 1024 to 65535, the access is public or private, the accounts are
-- addresses and no two are the same, the domain passes its check; and the workspace is a directory
-- when `Parse` returns, made by it if it was missing. The file's ports are 64-bit integers, a map's
-- iteration gives each key once, and a directory that `MkdirAll` made is found.
pub parse-IsValid :
    (H : Host) (fpath : String) (c : Confile) (w : H.State)
    → ((path : String) → HasPorts (H.unmarshal path w c).1)
    → IsMapOrder H
    → MakesDirs H
    → (parse H fpath c w).0 ≡ ok
    → let after = (parse H fpath c w).1 in
      IsValid H after.0 × (H.stat after.0.workspace after.1 ≡ directory)
unfolding parse
parse-IsValid H fpath c w ports order dirs e =
    let path = if fpath == "" then profile_default else fpath in
    let c' = (H.unmarshal path w c).1 in
    ground (arith, check-IsValid H c' w (ports path) order dirs)
