-- ===== src/Download/Answers.antt =====
-- How often, and with what, the downloads of node/getHandle.go and node/download_file.go answer.
use de_oss.Base.{
  ◌≡◌, ◌+◌, refl, ap, subst, sym, ◌∙◌, ◌⊎◌, inl, inr, ℕ, Bool, true, String, List, [], ◌∷◌, ◌++◌,
  Option, none, some, length, if◌then◌else◌, ◌==◌, string_eq, arith, Option-cases, Bool-cases,
  length-append,
}
use de_oss.Base.Dict
use de_oss.Base.Dict.{Dict}
use de_oss.Access.Library.{Bytes}
use de_oss.Peers.{PeerList, get_peer}
use de_oss.Download.{Remote, Sizes, Files, Site}
use de_oss.Download.Fetch.{
  Fetched, user_file, owner_file, not_fetched, crashed, exited, fetch_files,
}
use de_oss.Download.Handle.{
  Answer, file, serve, Ending, returned, panicked, program_exit, Download, FileCache, Known, known,
  unknown, answer, at, not_found, being_stored, download_failed, look_up, ask_gateways, from_miners,
  without_cache, download_file_handle,
}
use de_oss.Download.Serve.{get_without_cache}
use de_oss.Download.Get.{get_download}

fetched_elim :
    {A : Type 0} {f : String → A} {g : String → String → A} {x y z : A} (P : A → Type 0)
    (r : Fetched)
    → ((p : String) → P (f p))
    → ((acc p : String) → P (g acc p))
    → P x
    → P y
    → P z
    → P (elim r [
      | user_file p ↦ f p
      | owner_file acc p ↦ g acc p
      | not_fetched ↦ x
      | crashed ↦ y
      | exited ↦ z
    ])
fetched_elim P (user_file p) f g x y z = f p
fetched_elim P (owner_file acc p) f g x y z = g acc p
fetched_elim P not_fetched f g x y z = x
fetched_elim P crashed f g x y z = y
fetched_elim P exited f g x y z = z

Cached-cases :
    (o : Option (Option Bytes))
    → (o ≡ none)
      ⊎ ((o ≡ some none)
          ⊎ ((o ≡ some (some [])) ⊎ ((x : ℕ) × (b : Bytes) × (o ≡ some (some (x ∷ b))))))
Cached-cases none = inl refl
Cached-cases (some none) = inr (inl refl)
Cached-cases (some (some [])) = inr (inr (inl refl))
Cached-cases (some (some (x ∷ b))) = inr (inr (inr (x, b, refl)))

pub Known-cases :
    (k : Known) → ((a : Answer) × (k ≡ unknown a)) ⊎ ((n : ℕ) × (b : Bool) × (k ≡ known n b))
Known-cases (unknown a) = inl (a, refl)
Known-cases (known n b) = inr (n, b, refl)

module _ (R : Remote) (cache : FileCache R.State) (sizes : Sizes) (os : Files) (peers : PeerList)
    (own_id fid : String) (owned : String → Option Bytes) where
  -- The loop over the gateways answers once if it ends early, and not at all otherwise.
  ask_gateways-answers :
      (size : ℕ) (vs : List String) (s : Download R.State)
      → let r = ask_gateways R cache sizes os peers own_id fid owned size vs s in
        length r.1.answers ≡ (if r.0 then length s.answers + 1 else length s.answers)
  unfolding ask_gateways get_peer
  ask_gateways-answers size [] s = refl
  ask_gateways-answers size (v ∷ vs) s =
      let run : List String → Download R.State → Bool × Download R.State =
        ask_gateways R cache sizes os peers own_id fid owned size in
      let P : Bool × Download R.State → Type 0 =
        λ r. length r.1.answers ≡ (if r.0 then length s.answers + 1 else length s.answers) in
      elim (Option-cases (get_peer v peers)) [
        | inl n ↦
            subst P {x = run vs s} {y = run (v ∷ vs) s} (ground (arith, n))
              (ask_gateways-answers size vs s)
        | inr (a, n) ↦ elim (Bool-cases (own_id == v)) [
          | inl o ↦
              subst P {x = run vs s} {y = run (v ∷ vs) s} (ground (arith, n, o))
                (ask_gateways-answers size vs s)
          | inr o ↦
              let w = (R.connect a s.site.world).1 in
              elim (Bool-cases (R.connect a s.site.world).0) [
                | inr c ↦
                    subst P {x = run vs (at w s)} {y = run (v ∷ vs) s} (ground (arith, n, o, c))
                      (ask_gateways-answers size vs (at w s))
                | inl c ↦
                    let r = R.read_data_action a.id fid size w in
                    let files = elim r.0.contents as (λ _. Dict String Bytes) [
                      | none ↦ s.site.files
                      | some b ↦ Dict.insert fid b s.site.files
                    ] in
                    let s' : Download R.State = record s {
                      site = record { files = files; world = r.1 };
                    } in
                    elim (Bool-cases r.0.success) [
                      | inr d ↦
                          subst P {x = run vs s'} {y = run (v ∷ vs) s} (ground (arith, n, o, c, d))
                            (ask_gateways-answers size vs s')
                      | inl d ↦
                          subst P
                            {x = (
                              true,
                              serve R cache sizes os peers own_id fid owned (Dict.lookup fid files)
                                  s',
                            )}
                            {y = run (v ∷ vs) s} (ground (arith, n, o, c, d))
                            (length-append s.answers (file (Dict.lookup fid files) ∷ []))
                    ]
              ]
        ]
      ]

  -- The ways in which the storage nodes are left: with one more answer, by a panic, or by an exit.
  from_miners_elim :
      (P : Ending × Download R.State → Type 0) (s : Download R.State)
      → ((a : Answer) (d : Download R.State) → d.answers ≡ s.answers ++ (a ∷ []) → P (returned, d))
      → ((d : Download R.State) → P (panicked, d))
      → ((d : Download R.State) → P (program_exit, d))
      → P (from_miners R cache sizes os peers own_id fid owned s)
  unfolding from_miners
  from_miners_elim P s f g h =
      let t = fetch_files R sizes os peers fid owned s.site in
      let s' : Download R.State = record s { site = t.1 } in
      fetched_elim P t.0
        (λ p.
          f (file (Dict.lookup fid t.1.files))
            (serve R cache sizes os peers own_id fid owned (Dict.lookup fid t.1.files) s') refl)
        (λ acc p.
          f (file (owned acc)) (serve R cache sizes os peers own_id fid owned (owned acc) s') refl)
        (f download_failed (answer download_failed s') refl) (g s') (h s')

  from_miners-answers :
      (s : Download R.State)
      → let r = from_miners R cache sizes os peers own_id fid owned s in
        r.0 ≡ returned → length r.1.answers ≡ length s.answers + 1
  unfolding from_miners
  from_miners-answers s e =
      let t = fetch_files R sizes os peers fid owned s.site in
      let P : Ending × Download R.State → Type 0 =
        λ r. r.0 ≡ returned → length r.1.answers ≡ length s.answers + 1 in
      from_miners_elim P s (λ a d eq _. ap length eq ∙ length-append s.answers (a ∷ []))
        (λ d q. absurd (ground (arith, q))) (λ d q. absurd (ground (arith, q))) e

  -- What follows the search for the record: a refusal, or the gateways and then the storage nodes.
  without_cache-cases :
      (s : Download R.State)
      → let r = without_cache R cache sizes os peers own_id fid owned s in
        ((a : Answer) × (d : Download R.State) × (length d.answers ≡ length s.answers)
          × (r ≡ (returned, answer a d)))
        ⊎ (((d : Download R.State) × (length d.answers ≡ length s.answers + 1)
              × (r ≡ (returned, d)))
            ⊎ ((d : Download R.State) × (length d.answers ≡ length s.answers)
                × (r ≡ from_miners R cache sizes os peers own_id fid owned d)))
  unfolding without_cache
  without_cache-cases s =
      let t = look_up R cache sizes os peers own_id fid owned s.site.world in
      elim (Known-cases t.0) [
        | inl (a, k) ↦ inl (a, at t.1 s, refl, ground (arith, k))
        | inr (size, stored, k) ↦
            let q = R.query_all_oss_peer_id t.1 in
            let run = ask_gateways R cache sizes os peers own_id fid owned size q.0 (at q.1 s) in
            let count = ask_gateways-answers size q.0 (at q.1 s) in
            elim (Bool-cases run.0) [
              | inl g ↦ inr (inl (run.1, ground (arith, count, g), ground (arith, k, g)))
              | inr g ↦ elim (Bool-cases stored) [
                | inl f ↦ inr (inr (run.1, ground (arith, count, g), ground (arith, k, g, f)))
                | inr f ↦
                    inl (being_stored, run.1, ground (arith, count, g), ground (arith, k, g, f))
              ]
            ]
      ]

  without_cache-answers :
      (s : Download R.State)
      → let r = without_cache R cache sizes os peers own_id fid owned s in
        r.0 ≡ returned → length r.1.answers ≡ length s.answers + 1
  without_cache-answers s e = elim (without_cache-cases s) [
    | inl (a, d, n, q) ↦
        ap (λ r. length r.1.answers) q ∙ length-append d.answers (a ∷ []) ∙ ap (λ k. k + 1) n
    | inr (inl (d, n, q)) ↦ ap (λ r. length r.1.answers) q ∙ n
    | inr (inr (d, n, q)) ↦
        ap (λ r. length r.1.answers) q
        ∙ from_miners-answers d (sym (ap (λ r. r.0) q) ∙ e)
        ∙ ap (λ k. k + 1) n
  ]

  -- The cache has the file, or both handlers go on from the same state, which has an answer already if
  -- the cache failed.
  pub downloads-cases :
      (site : Site R.State)
      → let d = download_file_handle R cache sizes os peers own_id fid owned site in
        let g = get_download R cache sizes os peers own_id fid owned site in
        let count = elim (cache.get_cache_record fid site.world) as (λ _. ℕ) [
          | none ↦ 2
          | some _ ↦ 1
        ] in
        ((b : Bytes) × (g ≡ d)
          × (count ≡ 1)
          × (d ≡ (returned, record { site = site; answers = file (some b) ∷ [] })))
        ⊎ ((s : Download R.State) × (length s.answers + 1 ≡ count)
            × (d ≡ without_cache R cache sizes os peers own_id fid owned s)
            × (g ≡ get_without_cache R cache sizes os peers own_id fid owned s))
  unfolding download_file_handle get_download
  downloads-cases site =
      let start : R.State → List Answer → Download R.State =
        λ w l. record { site = record site { world = w }; answers = l } in
      elim (Cached-cases (cache.get_cache_record fid site.world)) [
        | inl q ↦ inr (
          start site.world (not_found ∷ []),
          ground (arith, q),
          ground (arith, q),
          ground (arith, q),
        )
        | inr (inl q) ↦
            inr (start site.world [], ground (arith, q), ground (arith, q), ground (arith, q))
        | inr (inr (inl q)) ↦ inr (
          start (cache.remove fid site.world) [],
          ground (arith, q),
          ground (arith, q),
          ground (arith, q),
        )
        | inr (inr (inr (x, b, q))) ↦
            inl (x ∷ b, ground (arith, q), ground (arith, q), ground (arith, q))
      ]

  -- When `downloadFileHandle` returns, it has answered once, wherever the file comes from and whatever
  -- fails, but for one case: if the cache returns an error, it has answered twice, first with 404 and
  -- then as if the cache had nothing.
  pub download_file_handle_answers :
      (site : Site R.State)
      → let r = download_file_handle R cache sizes os peers own_id fid owned site in
        r.0 ≡ returned
        → length r.1.answers
          ≡ elim (cache.get_cache_record fid site.world) [ none ↦ 2 | some _ ↦ 1 ]
  download_file_handle_answers site e = elim (downloads-cases site) [
    | inl (b, g, n, d) ↦ ap (λ r. length r.1.answers) d ∙ sym n
    | inr (s, n, d, g) ↦
        ap (λ r. length r.1.answers) d ∙ without_cache-answers s (sym (ap (λ r. r.0) d) ∙ e) ∙ n
  ]
