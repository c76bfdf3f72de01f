-- ===== src/Access.antt =====
-- node/common.go: the access list and the verification of account signatures; and
-- `checkUserParamsAndGetPubkey` of node/putChunksHandle.go, which puts them before every upload.
pub mod Library
pub mod Signature
pub mod Params
use de_oss.Base.{String, Bool, true, false, List, contains, ◌==◌, string_eq, if◌then◌else◌, not}
use de_oss.Access.Library.{Crypto, Verdict, accepted, refused, AuthError}

-- What `Confile` gives the check: `Access` and `Accounts`.
pub record AccessList : Type 0 where
  pub access : String
  pub accounts : List String

-- `configs.Access_Public` and `configs.Access_Private`
abbrev pub access_public : String
access_public = "public"

abbrev pub access_private : String
access_private = "private"

module _ (c : Crypto) where
  unfoldable pub access_control : AccessList → String → Verdict (Unit {0})
  access_control l account =
      if account == ""
      then refused AuthError.missing_cess_account
      else if not (c.verity_address account)
      then refused AuthError.not_a_cess_account
      else if l.access == access_public
      then (if contains l.accounts account then refused AuthError.no_permission else accepted tt)
      else if l.access == access_private
      then (if contains l.accounts account then accepted tt else refused AuthError.no_permission)
      else refused AuthError.no_permission
