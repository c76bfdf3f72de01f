-- ===== src/Admission.antt =====
-- node/putChunksHandle.go and node/putHandle.go: may the gateway take this upload? `checkSapce`,
-- `checkAuth`, `checkDeOSSStatus`, and the tests of memory and disk that both upload handlers make.
pub mod Laws
use de_oss.Base.{
  ℕ, ◌+◌, ◌*◌, ◌/◌, ◌%◌, String, Bool, true, false, Option, none, some, List, ltb, leb, contains,
  not, ◌&&◌, string_eq, if◌then◌else◌,
}
use de_oss.Base.Word.{two_32, two_63, two_64, lt_i64, add_32, add_64}
use de_oss.Chain.{Chain, PublicKey, Reply, found, empty, failed, UserSpace}
use de_oss.Http.{
  Action, Body, ok, done, panic, ◌>>=◌, ◌>>◌, pure, reply_if, status_forbidden,
  status_internal_server_error,
}

-- A query that failed ends the request; `ERR_Empty` may have its own answer.
abbrev pub or_deny :
    {S A : Type 0} → (S → Reply A × S) → ℕ × Body → (String → ℕ × Body) → Action S A
or_deny q none_found other s =
    let (r, t) = q s in
    elim r [
      | found a ↦ (ok a, t)
      | empty ↦ (done (record { status = none_found.0; body = none_found.1 }), t)
      | failed e ↦ (done (record { status = (other e).0; body = (other e).1 }), t)
    ]

abbrev pub rpc_failed : ℕ × Body
rpc_failed = (status_forbidden, Body.text "rpc connection failed")

abbrev pub internal_error : Body
internal_error = Body.text "InternalError"

abbrev pub not_authorized : Body
not_authorized = Body.text "space is not authorized"

-- `MaxMemUsed` and 16 * `sconfig.SIZE_1MiB`
abbrev pub max_mem_used : ℕ
max_mem_used = 536870912

abbrev pub disk_margin : ℕ
disk_margin = 16777216

module _ (C : Chain) where
  -- `used` is an `int64` pattern and `dead_line` a `uint32`. The height and the deadline are `uint32`
  -- too, so their sum wraps around; the remaining space is a `u128` that must parse as a `uint64`.
  unfoldable pub check_space : PublicKey → ℕ → ℕ → Action C.State (Unit {0})
  check_space pkey used dead_line = do
    user_info ←
        or_deny (C.query_user_owned_space pkey)
          (status_forbidden, Body.text "please purchase space first") (λ _. rpc_failed)
    height ← or_deny C.query_block_number rpc_failed (λ _. rpc_failed)
    reply_if (ltb (user_info.deadline % two_32) (add_32 height dead_line)) status_forbidden
        (Body.text "space expires soon")
    reply_if (leb two_64 user_info.remaining_space) status_internal_server_error internal_error
    reply_if (lt_i64 user_info.remaining_space used) status_forbidden
        (Body.text "not enough account space")

  -- `own` is `GetSignatureAccPulickey`.
  unfoldable pub check_auth : PublicKey → PublicKey → Action C.State (Unit {0})
  check_auth own pkey = do
    accounts ←
        or_deny (C.query_authority_list pkey) (status_forbidden, not_authorized)
          (λ e. (status_internal_server_error, Body.text e))
    reply_if (not (contains accounts own)) status_forbidden
        (Body.text "please authorize your space usage")

  unfoldable pub check_de_oss_status : Action C.State (Unit {0})
  check_de_oss_status w =
      (do
        reply_if (leb (C.balances w) 1) status_internal_server_error
            (Body.text "service balance is insufficient, please try again later.")
        reply_if (not (C.rpc_state w)) status_internal_server_error
            (Body.text "service rpc connection failed, please try again later."))
        w

-- `contentLength` is an `int64` pattern, and so its own `uint64`. `mem` is `GetSysMemAvailable`, and
-- `free` is `GetDirFreeSpace("/tmp")`, both `none` on an error. 90 * mem may wrap around.
unfoldable pub check_capacity : {S : Type 0} → ℕ → Option ℕ → Option ℕ → Action S (Unit {0})
check_capacity content_length mem free = do
  reply_if
      (elim mem [
        | none ↦ false
        | some m ↦ ltb (m * 90 % two_64 / 100) content_length && ltb content_length max_mem_used
      ])
      status_forbidden (Body.text "server unsupported file size")
  reply_if
      (elim free [
        | none ↦ false
        | some f ↦ lt_i64 max_mem_used content_length && ltb f (add_64 content_length disk_margin)
      ])
      status_forbidden (Body.text "no space left on the server device")
