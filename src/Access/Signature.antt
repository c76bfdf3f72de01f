-- ===== src/Access/Signature.antt =====
-- The four verifiers of node/common.go, `VerifyAccountSignature` that tries them in turn, and
-- `VerifyEthSign`.
pub mod Exact
use Prim.Native.String.{len, slice}
use text.Mathlib.Text.{starts_with}
use de_oss.Base.{ℕ, suc, ◌-◌, String, ◌<>◌, Bool, true, false, Option, none, some, List, [], ◌∷◌}
use de_oss.Base.{length, get_elem?, set, eqb, ltb, ◌==◌, string_eq, if◌then◌else◌, ◌&&◌, ◌||◌}
use de_oss.Chain.{PublicKey}
use de_oss.Access.Library.{
  Crypto, Bytes, Base58, decoded, zero_length, malformed, Verdict, accepted, refused, crashed,
  AuthError, ◌>>=◌, or_else, or_error,
}

abbrev pub wrap : String → String
wrap message = "<Bytes>" <> message <> "</Bytes>"

-- `strings.HasSuffix`
abbrev ends_with : String → String → Bool
ends_with s t = if ltb (len s) (len t) then false else slice s (len s - len t) (len s) == t

abbrev pub is_wrapped : String → Bool
is_wrapped message = starts_with message "<Bytes>" && ends_with message "</Bytes>"

-- `strings.TrimPrefix(signature, "0x")`
abbrev pub trim_0x : String → String
trim_0x s = if starts_with s "0x" then slice s 2 (len s) else s

module _ (c : Crypto) where
  -- The common beginning: the public key, and its Substrate address.
  unfoldable pub account_key : String → Verdict (PublicKey × String)
  account_key account = do
    pkey ← or_error (c.parsing_publickey account) AuthError.library
    ss58 ← or_error (c.encode_substrate pkey) AuthError.library
    accepted (pkey, ss58)

  unfoldable pub base58_signature : String → Verdict Bytes
  base58_signature signature = elim (c.base58_decode signature) [
    | decoded b ↦ if eqb (length b) 64 then accepted b else refused AuthError.wrong_length
    | zero_length ↦ refused AuthError.empty_signature
    | malformed ↦ refused AuthError.not_base58
  ]

  unfoldable pub hex_signature : String → Verdict Bytes
  hex_signature signature = do
    b ← or_error (c.hex_decode (trim_0x signature)) AuthError.library
    if eqb (length b) 64 then accepted b else refused AuthError.wrong_length

  -- `verkr, _ := keyring.FromURI(ss58, …)` and `verkr.Verify(…)`: where the dropped error leaves no
  -- keyring, the call panics.
  abbrev keyring_check : String → String → Bytes → Verdict Bool
  keyring_check ss58 message sign =
      if c.from_uri ss58 then accepted (c.keyring_verify ss58 message sign) else crashed

  -- The tail of the two Js verifiers: a wrapped message is tried as it is, and any one wrapped.
  unfoldable pub verify_wrapped : String → String → Bytes → Verdict Bool
  verify_wrapped ss58 message sign = do
    as_it_is ← if is_wrapped message then keyring_check ss58 message sign else accepted false
    if as_it_is then accepted true else keyring_check ss58 (wrap message) sign

  unfoldable pub verify_js_signature_base58 : String → String → String → Verdict PublicKey
  unfolding account_key base58_signature verify_wrapped
  verify_js_signature_base58 account message signature =
      if account == "" || signature == "" then refused AuthError.no_identity else (do
        (pkey, ss58) ← account_key account
        sign ← base58_signature signature
        signed ← verify_wrapped ss58 message sign
        if signed then accepted pkey else refused AuthError.not_verified)

  unfoldable pub verify_js_signature_hex : String → String → String → Verdict PublicKey
  unfolding account_key hex_signature verify_wrapped
  verify_js_signature_hex account message signature =
      if account == "" || signature == "" then refused AuthError.no_identity else (do
        (pkey, ss58) ← account_key account
        sign ← hex_signature signature
        signed ← verify_wrapped ss58 message sign
        if signed then accepted pkey else refused AuthError.not_verified)

  unfoldable pub verify_signature : String → String → String → Verdict PublicKey
  unfolding account_key base58_signature verify_js_signature_base58 verify_js_signature_hex
  verify_signature account message signature = do
    (pkey, ss58) ← account_key account
    sign ← base58_signature signature
    signed ← keyring_check ss58 message sign
    if signed
        then accepted pkey
        else or_else (verify_js_signature_base58 account message signature) (
            or_else (verify_js_signature_hex account message signature)
              (refused AuthError.not_verified))

  -- The only verifier that does not look at the signature's length.
  unfoldable pub verify_sr25519_signature : String → String → String → Verdict PublicKey
  verify_sr25519_signature account message signature =
      if account == "" || signature == "" then refused AuthError.no_identity else (do
        pkey ← or_error (c.parsing_publickey account) AuthError.library
        if c.sr25519_key pkey
            then elim (c.base58_decode signature) [
              | decoded b ↦
                  if c.sr25519_verify pkey (wrap message) b
                  then accepted pkey
                  else refused AuthError.not_verified
              | _ ↦ refused AuthError.library
            ]
            else refused AuthError.library)

  unfoldable pub verify_account_signature : String → String → String → Verdict PublicKey
  unfolding verify_signature verify_sr25519_signature verify_js_signature_hex
  verify_account_signature account message signature =
      if account == ""
      then refused AuthError.account_missing
      else if message == ""
      then refused AuthError.message_missing
      else if signature == ""
      then refused AuthError.signature_missing
      else or_else (verify_signature account message signature) (
          or_else (verify_sr25519_signature account message signature) (
            or_else (verify_js_signature_hex account message signature) (
              or_else (verify_js_signature_base58 account message signature)
                (refused AuthError.verification_failed))))

  -- EIP-191
  abbrev eth_message : String → String
  eth_message message = "\u{19}Ethereum Signed Message:\n" <> c.itoa (len message) <> message

  -- `decodedMessage[64] -= 27` for 27 and 28. Reading past the end panics.
  unfoldable pub normalise : Bytes → Verdict Bytes
  normalise b = elim (get_elem? b 64) [
    | none ↦ crashed
    | some v ↦ accepted (if eqb v 27 || eqb v 28 then set b 64 (v - 27) else b)
  ]

  unfoldable pub verify_eth_sign : String → String → Verdict String
  unfolding normalise
  verify_eth_sign message sign = do
    decoded_message ← or_error (c.hexutil_decode sign) AuthError.library
    b ← normalise decoded_message
    key ← or_error (c.sig_to_pub (c.keccak_256 (eth_message message)) b) AuthError.no_public_key
    accepted (c.pubkey_to_address key)
