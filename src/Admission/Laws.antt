-- ===== src/Admission/Laws.antt =====
-- Which uploads the checks of node/putChunksHandle.go let in.
use de_oss.Base.{
  ℕ, ◌+◌, ◌*◌, ◌/◌, ◌%◌, ◌^◌, ◌≤◌, ◌<◌, ◌≡◌, ◌↔◌, ◌⊎◌, true, some, List, contains, arith, string_eq,
}
use de_oss.Base.Word.{two_32, two_63}
use de_oss.Chain.{Chain, PublicKey, found, UserSpace}
use de_oss.Http.{ok}
use de_oss.Admission.{check_space, check_auth, check_capacity, max_mem_used, disk_margin}

module _ (C : Chain) where
  -- What the chain answers to the two queries of `checkSapce`, made one after the other.
  abbrev pub Answers : PublicKey → C.State → UserSpace → ℕ → Type 0
  Answers pkey w u height =
      ((C.query_user_owned_space pkey w).0 ≡ found u)
      × ((C.query_block_number (C.query_user_owned_space pkey w).1).0 ≡ found height)

  -- When the chain answers, a space request for `used` bytes below 2 ^ 63 is let in exactly if the
  -- space does not expire before height + dead_line (the sum taken modulo 2 ^ 32), and what remains
  -- of it is at least `used` and below 2 ^ 63.
  pub check_space-ok_iff :
      (pkey : PublicKey) (used dead_line height : ℕ) (u : UserSpace) (w : C.State)
      → Answers pkey w u height
      → u.deadline < two_32
      → used < two_63
      → ((check_space C pkey used dead_line w).0 ≡ ok tt) ↔ (
          ((height + dead_line) % two_32 ≤ u.deadline)
          × (used ≤ u.remaining_space)
          × (u.remaining_space < two_63))
  unfolding check_space
  check_space-ok_iff pkey used dead_line height u w a d s =
      (λ h. ground (arith, a.0, a.1), λ h. ground (arith, a.0, a.1))

  -- Authorisation is exactly the presence of the gateway's own key in the user's list.
  pub check_auth-ok_iff :
      (own pkey : PublicKey) (w : C.State)
      → ((check_auth C own pkey w).0 ≡ ok tt) ↔ (
          (accounts : List PublicKey) × ((C.query_authority_list pkey w).0 ≡ found accounts)
          × (contains accounts own ≡ true))
  unfolding check_auth
  check_auth-ok_iff own pkey w = (λ h. ground arith, λ h. ground arith)

-- An upload of known length is let in by the tests of memory and disk exactly if it is small enough
-- for nine tenths of the memory or at least 512 MiB, and if in the second case, when more than 512 MiB,
-- it fits the free disk with 16 MiB to spare. The numbers are below 2 ^ 57, so nothing wraps around.
pub check_capacity-ok_iff :
    {S : Type 0} (n mem free : ℕ) (s : S)
    → n < 2 ^ 57
    → mem < 2 ^ 57
    → (check_capacity n (some mem) (some free) s ≡ (ok tt, s)) ↔ (
        ((n ≤ mem * 90 / 100) ⊎ (max_mem_used ≤ n))
        × ((n ≤ max_mem_used) ⊎ (n + disk_margin ≤ free)))
unfolding check_capacity
check_capacity-ok_iff n mem free s hn hm = (λ h. ground arith, λ h. ground arith)
