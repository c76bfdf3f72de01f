-- ===== src/Access/Params.antt =====
-- `checkUserParamsAndGetPubkey` of node/putChunksHandle.go: who sends the request, and to which bucket.
pub mod Laws
use Prim.Native.String.{len}
use text.Mathlib.Text.{find?}
use de_oss.Base.{
  ℕ, String, Bool, true, false, Option, none, some, ltb, not, ◌==◌, string_eq, if◌then◌else◌,
}
use de_oss.Chain.{PublicKey}
use de_oss.Access.{AccessList, access_control}
use de_oss.Access.Library.{Crypto, Verdict, accepted, refused, crashed, AuthError, or_error}
use de_oss.Access.Signature.{verify_account_signature, verify_eth_sign}
use de_oss.Http.{
  Action, Body, ok, done, panic, branch, ◌>>=◌, ◌>>◌, pure, reply, reply_if, status_bad_request,
  status_forbidden,
}

-- The headers that the check reads.
pub record UserParams : Type 0 where
  pub account : String
  pub eth_account : String
  pub message : String
  pub signature : String
  pub bucket_name : String
  pub cipher : String

-- `err.Error()`; the text of a library's error is not modelled.
abbrev pub error_text : AuthError → String
error_text AuthError.missing_cess_account = "missing CESS account"
error_text AuthError.not_a_cess_account = "not a CESS account, no permissions"
error_text AuthError.no_permission = "your account does not have permissions"
error_text AuthError.account_missing = "Account is missing in request header"
error_text AuthError.message_missing = "Message is missing in request header"
error_text AuthError.signature_missing = "Signature is missing in request header"
error_text AuthError.verification_failed = "Signature verification failed"
error_text AuthError.no_public_key = "Could not get a public get from the message signature"
error_text _ = "library error"

-- An error ends the request with the given status.
abbrev pub or_reply : {S A : Type 0} → Verdict A → ℕ → (AuthError → Body) → Action S A
or_reply v status body s = elim v [
  | accepted a ↦ (ok a, s)
  | refused e ↦ (done (record { status = status; body = body e }), s)
  | crashed ↦ (panic, s)
]

abbrev pub invalid_bucket_name : Body
invalid_bucket_name = Body.text "HeaderErr_InvalidBucketName"

abbrev pub contains_space : String → Bool
contains_space s = elim (find? s " ") [ none ↦ false | some _ ↦ true ]

module _ (c : Crypto) (l : AccessList) {S : Type 0} where
  -- The two ways to prove who one is: by an Ethereum key, or by the account's own key.
  unfoldable pub authenticate : UserParams → Action S PublicKey
  authenticate r =
      branch (not (r.eth_account == ""))
        (do
          signer ←
              or_reply (verify_eth_sign c r.message r.signature) status_bad_request
                (λ e. Body.text (error_text e))
          reply_if (not (signer == r.eth_account)) status_bad_request
              (Body.text "ETH signature verification failed")
          or_reply (or_error (c.parsing_publickey r.account) AuthError.library) status_bad_request
              (λ _. Body.text "invalid cess account"))
        (or_reply (verify_account_signature c r.account r.message r.signature) status_bad_request
          (λ e. Body.text (error_text e)))

  unfoldable pub check_user_params : UserParams → Action S PublicKey
  unfolding authenticate
  check_user_params r = do
    or_reply (access_control c l r.account) status_forbidden (λ e. Body.text (error_text e))
    pkey ← authenticate r
    reply_if (not (c.check_bucket_name r.bucket_name)) status_bad_request invalid_bucket_name
    reply_if (ltb 32 (len r.cipher)) status_bad_request
        (Body.text "The length of cipher cannot exceed 32")
    reply_if (contains_space r.bucket_name) status_bad_request invalid_bucket_name
    pure pkey
