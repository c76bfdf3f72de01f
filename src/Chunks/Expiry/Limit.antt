-- ===== src/Chunks/Expiry/Limit.antt =====
-- The result of `checkExpiredFiles` of node/putChunksHandle.go.
use de_oss.Base.{
  ℕ, suc, ◌+◌, ◌<◌, ◌≡◌, ◌↔◌, ◌⊎◌, refl, ap, Bool, true, false, String, [], ◌∷◌, Option, none, some,
  leb, arith, Bool-cases, inl, inr, if◌then◌else◌, string_eq,
}
use de_oss.Access.Library.{Bytes}
use de_oss.Chunks.Save.{ChunksInfo, SaveDir, entry_eq}
use de_oss.Chunks.Expiry.{
  upload_limit, AccountDir, is_open, is_expired, check_loop, check_expired_files,
}

abbrev pub count_open : AccountDir → ℕ
count_open [] = 0
count_open ((_, d) ∷ es) = if is_open d then suc (count_open es) else count_open es

-- The list after a removal of the entries that pass the test.
abbrev pub remove_if :
    (String × SaveDir → Bool) → (String → SaveDir → Option SaveDir) → AccountDir → AccountDir
remove_if p removal [] = []
remove_if p removal ((n, d) ∷ es) =
    if p (n, d)
    then (elim (removal n d) [
      | none ↦ remove_if p removal es
      | some left ↦ (n, left) ∷ remove_if p removal es
    ])
    else (n, d) ∷ remove_if p removal es

module _ (unmarshal : Bytes → Option ChunksInfo) (readable : String → Bool)
    (removal : String → SaveDir → Option SaveDir) (now : ℕ) where
  check_loop-true_iff :
      (count : ℕ) (es : AccountDir)
      → count < upload_limit
      → ((check_loop unmarshal readable removal now count es).0 ≡ true)
        ↔ (count + count_open es < upload_limit)
  unfolding check_loop
  check_loop-true_iff count [] h = (λ _. omega arith, λ _. refl)
  check_loop-true_iff count ((n, d) ∷ es) h = elim (Bool-cases (is_open d)) [
    | inl o ↦ elim (Bool-cases (leb upload_limit (count + 1))) [
      | inl full ↦ (λ e. ground arith, λ e. ground arith)
      | inr room ↦
          let ih = check_loop-true_iff (count + 1) es (ground arith) in
          (λ e. ground (arith, ih.0), λ e. ground (arith, ih.1))
    ]
    | inr c ↦
        let ih = check_loop-true_iff count es h in
        (λ e. ground (arith, ih.0), λ e. ground (arith, ih.1))
  ]

  check_loop-dropped :
      (count : ℕ) (es : AccountDir)
      → (check_loop unmarshal readable removal now count es).0 ≡ true
      → (check_loop unmarshal readable removal now count es).1
        ≡ remove_if (is_expired unmarshal readable now) removal es
  unfolding check_loop
  check_loop-dropped count [] h = refl
  check_loop-dropped count ((n, d) ∷ es) h =
      ground (arith, check_loop-dropped count es, check_loop-dropped (count + 1) es)

  -- On a list of uploads, `checkExpiredFiles` returns true exactly if fewer than ten of them are open.
  -- Either it returns false, or of exactly the uploads whose readable record is a day old or older only
  -- that is left which `os.RemoveAll` leaves, and the others are as they were, in the same order.
  pub check_expired_files_exact :
      (es : AccountDir)
      → let (r, t) = check_expired_files unmarshal readable removal now (some es) in
        ((r ≡ true) ↔ (count_open es < upload_limit))
        × ((r ≡ false) ⊎ (t ≡ some (remove_if (is_expired unmarshal readable now) removal es)))
  unfolding check_expired_files
  check_expired_files_exact es =
      let h = check_loop-true_iff 0 es (omega arith) in
      (
        (λ e. omega (arith, h.0 e), λ lt. h.1 (omega arith)),
        elim (Bool-cases (check_loop unmarshal readable removal now 0 es).0) [
          | inl e ↦ inr (ap some (check_loop-dropped 0 es e))
          | inr e ↦ inl e
        ],
      )
