-- ===== src/Access/Library.antt =====
-- The key and signature libraries that the gateway calls, and the verdicts of its own checks.
use de_oss.Base.{◌≡◌, ◌⊎◌, inl, inr, refl, ℕ, Bool, String, List, Option, none, some}
use de_oss.Chain.{PublicKey}

abbrev pub Bytes : Type 0
Bytes = List ℕ

-- `base58.Decode`: the bytes, or an error, of which the code tells "zero length" apart.
pub data Base58 : Type 0 where
  decoded : Bytes → Base58
  zero_length : Base58
  malformed : Base58

-- Functions of sutils, keyring, sr25519, base58, hex, hexutil and crypto. `none` is an error. `from_uri`
-- tells whether `keyring.FromURI` gives a keyring for an address and not an error, and `keyring_verify`
-- is the answer of that keyring's `Verify`.
pub record Crypto : Type 0 where
  pub verity_address : String → Bool
  pub parsing_publickey : String → Option PublicKey
  pub encode_substrate : PublicKey → Option String
  pub base58_decode : String → Base58
  pub hex_decode : String → Option Bytes
  pub from_uri : String → Bool
  pub keyring_verify : String → String → Bytes → Bool
  pub sr25519_key : PublicKey → Bool
  pub sr25519_verify : PublicKey → String → Bytes → Bool
  pub keccak_256 : String → Bytes
  pub hexutil_decode : String → Option Bytes
  pub sig_to_pub : Bytes → Bytes → Option PublicKey
  pub pubkey_to_address : PublicKey → String
  pub itoa : ℕ → String
  pub check_bucket_name : String → Bool

-- The errors of node/common.go. `library` is an error that a library call returned.
pub data AuthError : Type 0 where
  missing_cess_account not_a_cess_account no_permission : AuthError
  account_missing message_missing signature_missing verification_failed : AuthError
  no_identity empty_signature not_base58 wrong_length not_verified : AuthError
  library no_public_key : AuthError

pub data Verdict (A : Type 0) : Type 0 where
  accepted : A → Verdict A
  refused : AuthError → Verdict A
  crashed : Verdict A

pub Verdict-cases :
    {A : Type 0} (v : Verdict A)
    → ((a : A) × (v ≡ accepted a)) ⊎ (((e : AuthError) × (v ≡ refused e)) ⊎ (v ≡ crashed))
Verdict-cases (accepted a) = inl (a, refl)
Verdict-cases (refused e) = inr (inl (e, refl))
Verdict-cases crashed = inr (inr refl)

infixl 5 ◌>>=◌
abbrev pub ◌>>=◌ : {A B : Type 0} → Verdict A → (A → Verdict B) → Verdict B
◌>>=◌ v f = elim v [ accepted a ↦ f a | refused e ↦ refused e | crashed ↦ crashed ]

-- `if err == nil { return v }; …`: the next attempt is made only after an error.
abbrev pub or_else : {A : Type 0} → Verdict A → Verdict A → Verdict A
or_else v w = elim v [ accepted a ↦ accepted a | refused _ ↦ w | crashed ↦ crashed ]

abbrev pub or_error : {A : Type 0} → Option A → AuthError → Verdict A
or_error o e = elim o [ none ↦ refused e | some a ↦ accepted a ]
