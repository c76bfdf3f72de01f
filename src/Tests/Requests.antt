-- ===== src/Tests/Requests.antt =====
-- Requests: node/common.go and the checks of node/putChunksHandle.go.
use Prim.Native.String.{len}
use de_oss.Base.{
  ◌≡◌, ◌≢◌, ◌⊎◌, ◌↔◌, ◌≤◌, ◌<◌, ◌+◌, ◌*◌, ◌/◌, ◌%◌, refl, ℕ, true, false, List, [], ◌∷◌, some,
  arith, string_eq, contains,
}
use de_oss.Base.Word.{two_32, two_63}
use de_oss.Access.{access_control, access_public, access_private}
use de_oss.Access.Library.{accepted}
use de_oss.Access.Signature.{verify_account_signature, verify_eth_sign}
use de_oss.Access.Signature.Exact.{verify_account_signature_exact}
use de_oss.Access.Params.{UserParams, check_user_params, contains_space}
use de_oss.Access.Params.Laws.{
  check_user_params-ok, check_user_params-panic_iff, IsCrash, access_control-accepted_iff,
}
use de_oss.Admission.{check_space, check_auth, check_capacity, max_mem_used, disk_margin}
use de_oss.Admission.Laws.{check_space-ok_iff, check_auth-ok_iff, check_capacity-ok_iff}
use de_oss.Chain.{PublicKey, found}
use de_oss.Http.{ok, panic}
use de_oss.Tests.Sample.{user, chain, crypto, open_access}

abbrev state : ℕ
state = 7

abbrev alice : UserParams
alice = record {
  account = "alice";
  eth_account = "";
  message = "m";
  signature = "good";
  bucket_name = "bucket";
  cipher = "";
}

check_user_params-ok_example :
    (state ≡ state)
    × (access_control crypto open_access "alice" ≡ accepted tt)
    × (true ≡ true)
    × (contains_space "bucket" ≡ false)
    × (len "" ≤ 32)
    × (((verify_eth_sign crypto "m" "good" ≡ accepted "") × (some user ≡ some user))
        ⊎ (verify_account_signature crypto "alice" "m" "good" ≡ accepted "alice"))
unfolding check_user_params string_eq access_control verify_account_signature
check_user_params-ok_example =
    check_user_params-ok crypto open_access alice state state "alice" refl

verify_account_signature_exact_example :
    verify_account_signature crypto "alice" "m" "good" ≡ accepted "alice"
unfolding string_eq
verify_account_signature_exact_example =
    verify_account_signature_exact crypto "alice" "m" "good" refl refl refl

access_control-accepted_iff_example : (access_control crypto open_access "alice" ≡ accepted tt) ↔ (
    (user ≢ "")
    × (true ≡ true)
    × (((access_public ≡ access_public) × (contains open_access.accounts "alice" ≡ false))
        ⊎ ((access_public ≡ access_private) × (contains open_access.accounts "alice" ≡ true))))
access_control-accepted_iff_example = access_control-accepted_iff crypto open_access "alice"

abbrev short : UserParams
short = record alice { eth_account = "0xA"; signature = "0x00" }

check_user_params-panic_iff_example :
    ((check_user_params crypto open_access short state).0 ≡ panic)
    ↔ ((access_control crypto open_access "alice" ≡ accepted tt) × IsCrash crypto short)
check_user_params-panic_iff_example = check_user_params-panic_iff crypto open_access short state

check_space-ok_iff_example :
    ((check_space chain "alice" 10 30 0).0 ≡ ok tt)
    ↔ (((100 + 30) % two_32 ≤ 5000) × (10 ≤ 1000) × (1000 < two_63))
check_space-ok_iff_example =
    check_space-ok_iff chain "alice" 10 30 100 (record { deadline = 5000; remaining_space = 1000 })
      0 (refl, refl) (omega arith) (omega arith)

check_auth-ok_iff_example : ((check_auth chain "gateway" "alice" 0).0 ≡ ok tt) ↔ (
    (accounts : List PublicKey) × (found ("gateway" ∷ []) ≡ found accounts)
    × (contains accounts "gateway" ≡ true))
check_auth-ok_iff_example = check_auth-ok_iff chain "gateway" "alice" 0

check_capacity-ok_iff_example : (check_capacity 10 (some 100) (some 5) state ≡ (ok tt, state)) ↔ (
    ((10 ≤ 100 * 90 / 100) ⊎ (max_mem_used ≤ 10)) × ((10 ≤ max_mem_used) ⊎ (10 + disk_margin ≤ 5)))
check_capacity-ok_iff_example = check_capacity-ok_iff 10 100 5 state (omega arith) (omega arith)
