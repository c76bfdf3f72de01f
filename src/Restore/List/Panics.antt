-- ===== src/Restore/List/Panics.antt =====
-- The panics of `getRestoreHandle` of node/getRestore.go.
use de_oss.Base.{
  ℕ, suc, ◌+◌, ◌<◌, ◌≤◌, ◌≡◌, ◌≢◌, ◌⊎◌, ◌↔◌, ◌<>◌, refl, String, List, [], ◌∷◌, none, some, length,
  get_elem?, get_elem?-none, get_elem?-some, ◌==◌, string_eq, arith, Option-cases, inl, inr,
}
use de_oss.Restore.List.{
  read, owned, repeats_at, deleted_from, deleted_files, combine_records, restore_list, Records,
  get_restore,
}
use de_oss.Access.{AccessList, access_control}
use de_oss.Access.Library.{Crypto, accepted, Verdict-cases}
use de_oss.Access.Params.{UserParams, authenticate}
use de_oss.Access.Params.Laws.{IsCrash, authenticate-panic_iff, access_control-not-crashed}
use de_oss.Chain.{PublicKey}
use de_oss.Http.{Outcome-cases, ok, panic}

repeats_at-cons :
    (all : List String) (i : ℕ) (f g : String) (j : String) (js : List String)
    → get_elem? all i ≡ some g
    → repeats_at all i f (j ∷ js) ≡ some (f == g)
unfolding repeats_at
repeats_at-cons all i f g j [] e = ground (arith, e)
repeats_at-cons all i f g j (k ∷ js) e = ground (arith, e, repeats_at-cons all i f g k js e)

repeats_at-none_iff :
    (all : List String) (i : ℕ) (f j : String) (js : List String)
    → (repeats_at all i f (j ∷ js) ≡ none) ↔ (length all ≤ i)
unfolding repeats_at
repeats_at-none_iff all i f j js = elim (Option-cases (get_elem? all i)) [
  | inl e ↦ (λ _. get_elem?-none all i e, λ _. ground (arith, e))
  | inr (g, e) ↦ (
    λ h. absurd (ground (arith, repeats_at-cons all i f g j js e)),
    λ h. absurd (omega (arith, get_elem?-some all i e)),
  )
]

deleted_from-none_iff :
    (j : String) (js : List String) (i : ℕ) (fs : List String)
    → (deleted_from (j ∷ js) i fs ≡ none) ↔ ((fs ≢ []) × (length (j ∷ js) < i + length fs))
unfolding deleted_from
deleted_from-none_iff j js i [] = (λ h. cc, λ h. absurd (h.0 refl))
deleted_from-none_iff j js i (f ∷ fs) =
    let a = repeats_at-none_iff (j ∷ js) i f j js in
    let ih = deleted_from-none_iff j js (suc i) fs in
    (λ h. ground (arith, a.0, ih.0), λ h. ground (arith, a.1, ih.1))

deleted_from-nil : (i : ℕ) (fs : List String) → deleted_from [] i fs ≡ some fs
unfolding deleted_from repeats_at
deleted_from-nil i [] = refl
deleted_from-nil i (f ∷ fs) = ground (arith, deleted_from-nil (suc i) fs)

deleted_from-start :
    (all fs : List String)
    → (deleted_from all 0 fs ≡ none) ↔ ((all ≢ []) × (length all < length fs))
deleted_from-start [] fs = (λ h. ground (arith, deleted_from-nil 0 fs), λ h. absurd (h.0 refl))
deleted_from-start (j ∷ js) [] =
    (λ h. ground (arith, (deleted_from-none_iff j js 0 []).0), λ h. absurd (omega arith))
deleted_from-start (j ∷ js) (f ∷ fs) =
    let h = deleted_from-none_iff j js 0 (f ∷ fs) in
    (λ e. (λ n. cc, omega (arith, (h.0 e).1)), λ lt. h.1 (λ n. cc, omega (arith, lt.1)))

-- The combination of the records has no result exactly if the user's file of deleted names is not empty,
-- and shorter than the list of deleted names that the cache holds under the user's name.
restore_list-none_iff :
    (account : String) (r : Records)
    → let file = (read r.decode (r.read_dfile account)).files in
      let cache = owned account (read r.decode (r.get ("userdeletefiles:" <> account))) in
      (restore_list account r ≡ none) ↔ ((file ≢ []) × (length file < length cache))
unfolding restore_list combine_records deleted_files
restore_list-none_iff account r =
    let file = (read r.decode (r.read_dfile account)).files in
    let cache = owned account (read r.decode (r.get ("userdeletefiles:" <> account))) in
    let h = deleted_from-start file cache in
    elim (Option-cases (deleted_from file 0 cache)) [
      | inl e ↦ (λ _. h.0 e, λ _. no_result e)
      | inr (fs, e) ↦ (λ n. absurd (some_result fs e n), λ m. absurd (cc (e, h.1 m)))
    ]
  where
    no_result :
        deleted_from
            (read r.decode (r.read_dfile account)).files
            0
            (owned account (read r.decode (r.get ("userdeletefiles:" <> account))))
          ≡ none
        → restore_list account r ≡ none
    no_result e = ground (arith, e)

    some_result :
        (fs : List String)
        → deleted_from
            (read r.decode (r.read_dfile account)).files
            0
            (owned account (read r.decode (r.get ("userdeletefiles:" <> account))))
          ≡ some fs
        → restore_list account r ≡ none
        → ⊥
    some_result fs e n = ground (arith, e, n)

-- The handler panics exactly if the account has access, and either the proof of who it is panics, or the
-- proof is accepted, the account's file of deleted names is not empty, and the list of deleted names that
-- the cache holds under the account's name is longer.
pub get_restore-panic_iff :
    (c : Crypto) (l : AccessList) {S : Type 0} (p : UserParams) (r : Records) (s : S)
    → let file = (read r.decode (r.read_dfile p.account)).files in
      let cache = owned p.account (read r.decode (r.get ("userdeletefiles:" <> p.account))) in
      ((get_restore c l p r s).0 ≡ panic) ↔ (
        (access_control c l p.account ≡ accepted tt)
        × (IsCrash c p
            ⊎ (((key : PublicKey) × ((authenticate c l p s).0 ≡ ok key))
                × (file ≢ [])
                × (length file < length cache))))
unfolding get_restore
get_restore-panic_iff c l p r s =
    let crash = authenticate-panic_iff c l p s in
    let lists = restore_list-none_iff p.account r in
    elim (Verdict-cases (access_control c l p.account)) [
      | inl (u, a) ↦ elim (Outcome-cases (authenticate c l p s).0) [
        | inl (key, q) ↦ (
          λ h. let x = lists.0 (ground (arith, a, q, h)) in (a, inr ((key, q), x.0, x.1)),
          λ h. elim h.1 [
            | inl x ↦ let y = crash.1 x in absurd (cc (y, q))
            | inr x ↦ let y = lists.1 (x.1, x.2) in ground (arith, a, q, y)
          ],
        )
        | inr (inl (y, q)) ↦ (
          λ h. absurd (ground (arith, a, q, h)),
          λ h. elim h.1 [
            | inl x ↦ let z = crash.1 x in absurd (cc (z, q))
            | inr x ↦ absurd (cc (x.0.1, q))
          ],
        )
        | inr (inr q) ↦ (λ _. (a, inl (crash.0 q)), λ _. ground (arith, a, q))
      ]
      | inr (inl (e, a)) ↦ (λ h. absurd (ground (arith, a, h)), λ h. absurd (cc (a, h.0)))
      | inr (inr a) ↦
          (λ _. absurd (access_control-not-crashed c l p.account a), λ h. absurd (cc (a, h.0)))
    ]
