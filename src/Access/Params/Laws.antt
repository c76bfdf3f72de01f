-- ===== src/Access/Params/Laws.antt =====
-- The outcomes of `AccessControl` and `checkUserParamsAndGetPubkey`.
use Prim.Native.String.{len}
use text.Mathlib.TextEquality.{eq_iff}
use de_oss.Base.{
  ℕ, ◌≤◌, ◌<◌, String, true, false, some, ◌≡◌, ◌≢◌, ◌⊎◌, ◌↔◌, ap, inl, inr, ◌==◌, string_eq, arith,
  contains, length, get_elem?, get_elem?-none, get_elem?-some, Option-cases, Bool-cases,
}
use de_oss.Chain.{PublicKey}
use de_oss.Access.{AccessList, access_control, access_public, access_private}
use de_oss.Access.Library.{Crypto, accepted, crashed, Bytes, Verdict-cases}
use de_oss.Access.Signature.{verify_account_signature, verify_eth_sign}
use de_oss.Access.Params.{UserParams, authenticate, check_user_params, contains_space}
use de_oss.Http.{ok, panic}

modes_differ : access_public ≢ access_private
modes_differ = ground (arith, eq_iff access_public access_private)

-- Access is given exactly to a CESS account that is not listed, in public mode, or that is
-- listed, in private mode; any other mode lets nobody in.
pub access_control-accepted_iff :
    (c : Crypto) (l : AccessList) (account : String)
    → (access_control c l account ≡ accepted tt) ↔ (
        (account ≢ "")
        × (c.verity_address account ≡ true)
        × (((l.access ≡ access_public) × (contains l.accounts account ≡ false))
            ⊎ ((l.access ≡ access_private) × (contains l.accounts account ≡ true))))
unfolding access_control
access_control-accepted_iff c l account =
    (λ h. ground (arith, modes_differ), λ h. ground (arith, modes_differ))

-- The verification of the Ethereum signature panics on a signature that decodes to less than 65 bytes.
verify_eth_sign-crashed_iff :
    (c : Crypto) (message signature : String)
    → (verify_eth_sign c message signature ≡ crashed)
      ↔ ((b : Bytes) × (c.hexutil_decode signature ≡ some b) × (length b < 65))
unfolding verify_eth_sign
verify_eth_sign-crashed_iff c message signature = elim (Option-cases (c.hexutil_decode signature)) [
  | inl d ↦ (λ h. absurd (ground (arith, d, h)), λ h. absurd (cc (d, h.1)))
  | inr (b, d) ↦ elim (Option-cases (get_elem? b 64)) [
    | inl e ↦ (λ _. (b, d, omega (arith, get_elem?-none b 64 e)), λ _. ground (arith, d, e))
    | inr (v, e) ↦
        (λ h. absurd (ground (arith, d, e, h)), λ h. absurd (too_long b v h.0 (cc (h.1, d)) h.2 e))
  ]
]
  where
    too_long :
        (b : Bytes) (v : ℕ) (b' : Bytes) → b' ≡ b → length b' < 65 → get_elem? b 64 ≡ some v → ⊥
    too_long b v b' q lt e = omega (arith, get_elem?-some b 64 e, ap length q)

-- The two ways in which the proof of who one is panics: with an Ethereum account, on a decoded signature
-- of less than 65 bytes; without one, in the verification of the account's own signature.
abbrev pub IsCrash : Crypto → UserParams → Type 0
IsCrash c r =
    ((r.eth_account ≢ "")
      × ((b : Bytes) × (c.hexutil_decode r.signature ≡ some b) × (length b < 65)))
    ⊎ ((r.eth_account ≡ "")
        × (verify_account_signature c r.account r.message r.signature ≡ crashed))

pub authenticate-panic_iff :
    (c : Crypto) (l : AccessList) {S : Type 0} (r : UserParams) (s : S)
    → ((authenticate c l r s).0 ≡ panic) ↔ IsCrash c r
unfolding authenticate
authenticate-panic_iff c l r s =
    let eth = verify_eth_sign-crashed_iff c r.message r.signature in
    elim (Bool-cases (r.eth_account == "")) [
      | inl e ↦ (
        λ h. inr (ground (arith, e), ground (arith, e, h)),
        λ h. elim h [
          | inl (n, _) ↦ absurd (ground (arith, e, n))
          | inr (_, v) ↦ ground (arith, e, v)
        ],
      )
      | inr e ↦ (
        λ h. inl (ground (arith, e), eth.0 (ground (arith, e, h))),
        λ h. elim h [
          | inl (_, short) ↦ let v = eth.1 short in ground (arith, e, v)
          | inr (n, _) ↦ absurd (ground (arith, e, n))
        ],
      )
    ]

pub access_control-not-crashed :
    (c : Crypto) (l : AccessList) (account : String) → access_control c l account ≢ crashed
unfolding access_control
access_control-not-crashed c l account h = ground (arith, h)

-- The check of a request panics exactly if the account has access and its proof of who it is panics: it
-- names an Ethereum account and its signature decodes to less than 65 bytes, or it names none and the
-- verification of the account's own signature panics.
pub check_user_params-panic_iff :
    (c : Crypto) (l : AccessList) {S : Type 0} (r : UserParams) (s : S)
    → ((check_user_params c l r s).0 ≡ panic)
      ↔ ((access_control c l r.account ≡ accepted tt) × IsCrash c r)
unfolding check_user_params
check_user_params-panic_iff c l r s =
    let own = authenticate-panic_iff c l r s in
    elim (Verdict-cases (access_control c l r.account)) [
      | inl (u, a) ↦
          (λ h. (a, own.0 (ground (arith, a, h))), λ h. let p = own.1 h.1 in ground (arith, a, p))
      | inr (inl (e, a)) ↦
          (λ h. absurd (ground (arith, a, h)), λ h. absurd (ground (arith, a, h.0)))
      | inr (inr a) ↦ (
        λ h. absurd (access_control-not-crashed c l r.account a),
        λ h. absurd (ground (arith, a, h.0)),
      )
    ]

-- A request that passes changes nothing of the server, and its account has access; its bucket name
-- is valid and has no space; its cipher has at most 32 bytes; and its key is the account's own, for
-- which either the Ethereum signature names the given Ethereum account or the account's signature
-- is accepted.
pub check_user_params-ok :
    (c : Crypto) (l : AccessList) {S : Type 0} (r : UserParams) (s t : S) (pkey : PublicKey)
    → check_user_params c l r s ≡ (ok pkey, t)
    → (t ≡ s)
      × (access_control c l r.account ≡ accepted tt)
      × (c.check_bucket_name r.bucket_name ≡ true)
      × (contains_space r.bucket_name ≡ false)
      × (len r.cipher ≤ 32)
      × (((verify_eth_sign c r.message r.signature ≡ accepted r.eth_account)
            × (c.parsing_publickey r.account ≡ some pkey))
          ⊎ (verify_account_signature c r.account r.message r.signature ≡ accepted pkey))
unfolding check_user_params
check_user_params-ok c l r s t pkey h = ground arith
