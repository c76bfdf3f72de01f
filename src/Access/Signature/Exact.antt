-- ===== src/Access/Signature/Exact.antt =====
-- The outcome of `VerifyAccountSignature` of node/common.go.
use de_oss.Base.{
  String, Bool, true, false, none, some, ◌≡◌, ◌==◌, string_eq, if◌then◌else◌, not, ◌&&◌, ◌||◌,
  arith, length, eqb, ◌⊎◌, inl, inr, refl, Option-cases, Bool-cases,
}
use de_oss.Chain.{PublicKey}
use de_oss.Access.Library.{
  Crypto, Bytes, Base58, decoded, zero_length, malformed, Verdict, accepted, refused, crashed,
  AuthError,
}
use de_oss.Access.Signature.{wrap, trim_0x, verify_account_signature, is_wrapped}

Base58-cases :
    (b : Base58) → ((v : Bytes) × (b ≡ decoded v)) ⊎ ((b ≡ zero_length) ⊎ (b ≡ malformed))
Base58-cases (decoded v) = inl (v, refl)
Base58-cases zero_length = inr (inl refl)
Base58-cases malformed = inr (inr refl)

module _ (c : Crypto) where
  -- A 64-byte signature that the keyring accepts for the message as it is.
  abbrev signs : PublicKey → String → Bytes → Bool
  signs pkey message b = elim (c.encode_substrate pkey) [
    | none ↦ false
    | some ss58 ↦ eqb (length b) 64 && c.keyring_verify ss58 message b
  ]

  -- The same for the wrapped message, or for the message as it is if it is wrapped already.
  abbrev signs_wrapped : PublicKey → String → Bytes → Bool
  signs_wrapped pkey message b = elim (c.encode_substrate pkey) [
    | none ↦ false
    | some ss58 ↦
        eqb (length b) 64
        && ((is_wrapped message && c.keyring_verify ss58 message b)
            || c.keyring_verify ss58 (wrap message) b)
  ]

  -- Does the text of the signature prove, in base58 or in hex, that the key signed the message?
  abbrev pub is_signed : PublicKey → String → String → Bool
  is_signed pkey message signature =
      (elim (c.base58_decode signature) [
        | decoded b ↦
            signs pkey message b
            || signs_wrapped pkey message b
            || (c.sr25519_key pkey && c.sr25519_verify pkey (wrap message) b)
        | _ ↦ false
      ])
      || (elim (c.hex_decode (trim_0x signature)) [
        | none ↦ false
        | some b ↦ signs_wrapped pkey message b
      ])

  -- The key has an address that `keyring.FromURI` does not take.
  abbrev has_no_keyring : PublicKey → Bool
  has_no_keyring pkey = elim (c.encode_substrate pkey) [
    | none ↦ false
    | some ss58 ↦ not (c.from_uri ss58)
  ]

  -- Does sr25519 itself, to which the signature's length does not matter, accept the base58 signature?
  abbrev signs_sr25519 : PublicKey → String → String → Bool
  signs_sr25519 pkey message signature = elim (c.base58_decode signature) [
    | decoded b ↦ c.sr25519_key pkey && c.sr25519_verify pkey (wrap message) b
    | _ ↦ false
  ]

  -- Is a keyring called that is not there? That takes a signature of 64 bytes, in base58, or, if sr25519
  -- does not accept it before, in hex.
  abbrev pub calls_nil : PublicKey → String → String → Bool
  calls_nil pkey message signature =
      has_no_keyring pkey
      && ((elim (c.base58_decode signature) [ decoded b ↦ eqb (length b) 64 | _ ↦ false ])
          || (not (signs_sr25519 pkey message signature)
              && (elim (c.hex_decode (trim_0x signature)) [
                | none ↦ false
                | some b ↦ eqb (length b) 64
              ])))

  abbrev verdict : PublicKey → String → String → Verdict PublicKey
  verdict pkey message signature =
      if calls_nil pkey message signature
      then crashed
      else if is_signed pkey message signature
      then accepted pkey
      else refused AuthError.verification_failed

  module _ (account message signature : String) (a : (account == "") ≡ false)
      (m : (message == "") ≡ false) (s : (signature == "") ≡ false) (pkey : PublicKey)
      (p : c.parsing_publickey account ≡ some pkey) where
    abbrev IsExact : Type 0
    IsExact = verify_account_signature c account message signature ≡ verdict pkey message signature

    module _ (ss58 : String) (e : c.encode_substrate pkey ≡ some ss58) where
      without_keyring : c.from_uri ss58 ≡ false → IsExact
      unfolding verify_account_signature
      without_keyring u = elim (Base58-cases (c.base58_decode signature)) [
        | inl (b, d) ↦ ground (arith, a, m, s, p, e, u, d)
        | inr d ↦ ground (arith, a, m, s, p, e, u, d)
      ]

      other_text :
          c.from_uri ss58 ≡ true
          → (c.base58_decode signature ≡ zero_length) ⊎ (c.base58_decode signature ≡ malformed)
          → IsExact
      unfolding verify_account_signature
      other_text u d = ground (arith, a, m, s, p, e, u, d)

      module _ (b : Bytes) (u : c.from_uri ss58 ≡ true)
          (d : c.base58_decode signature ≡ decoded b) where
        other_length : eqb (length b) 64 ≡ false → IsExact
        unfolding verify_account_signature
        other_length l = ground (arith, a, m, s, p, e, u, d, l)

        signed_as_it_is :
            eqb (length b) 64 ≡ true → c.keyring_verify ss58 message b ≡ true → IsExact
        unfolding verify_account_signature
        signed_as_it_is l k = ground (arith, a, m, s, p, e, u, d, l, k)

        signed_otherwise :
            (v : Bool)
            → eqb (length b) 64 ≡ true
            → c.keyring_verify ss58 message b ≡ false
            → c.keyring_verify ss58 (wrap message) b ≡ v
            → IsExact
        unfolding verify_account_signature
        signed_otherwise true l k v = ground (arith, a, m, s, p, e, u, d, l, k, v)
        signed_otherwise false l k v = ground (arith, a, m, s, p, e, u, d, l, k, v)

        base58_text : IsExact
        base58_text = elim (Bool-cases (eqb (length b) 64)) [
          | inl l ↦ elim (Bool-cases (c.keyring_verify ss58 message b)) [
            | inl k ↦ signed_as_it_is l k
            | inr k ↦ signed_otherwise (c.keyring_verify ss58 (wrap message) b) l k refl
          ]
          | inr l ↦ other_length l
        ]

      addressed : IsExact
      addressed = elim (Bool-cases (c.from_uri ss58)) [
        | inl u ↦ elim (Base58-cases (c.base58_decode signature)) [
          | inl (b, d) ↦ base58_text b u d
          | inr d ↦ other_text u d
        ]
        | inr u ↦ without_keyring u
      ]

    no_address : c.encode_substrate pkey ≡ none → IsExact
    unfolding verify_account_signature
    no_address e = ground (arith, a, m, s, p, e)

    parsed : IsExact
    parsed = elim (Option-cases (c.encode_substrate pkey)) [
      | inl e ↦ no_address e
      | inr (ss58, e) ↦ addressed ss58 e
    ]

  -- With the three headers present, and a key that parses: the request panics exactly when no keyring
  -- was made for the key and one is called; otherwise the result is the account's own public key exactly
  -- when the signature proves, in base58 or in hex, that it signed the message. In every other case the
  -- request is refused.
  pub verify_account_signature_exact :
      (account message signature : String)
      → (account == "") ≡ false
      → (message == "") ≡ false
      → (signature == "") ≡ false
      → verify_account_signature c account message signature ≡ (elim (c.parsing_publickey account) [
        | none ↦ refused AuthError.verification_failed
        | some pkey ↦
            if calls_nil pkey message signature
            then crashed
            else if is_signed pkey message signature
            then accepted pkey
            else refused AuthError.verification_failed
      ])
  unfolding verify_account_signature
  verify_account_signature_exact account message signature a m s =
      elim (Option-cases (c.parsing_publickey account)) [
        | inl p ↦ ground (arith, p)
        | inr (pkey, p) ↦ let e = parsed account message signature a m s pkey p in cc (e, p)
      ]
