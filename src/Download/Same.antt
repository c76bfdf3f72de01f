-- ===== src/Download/Same.antt =====
-- The operation "download" of node/getHandle.go, and node/download_file.go.
use de_oss.Base.{
  ◌≡◌, refl, sym, ◌∙◌, ◌⊎◌, inl, inr, ℕ, Bool, true, false, String, List, [], ◌∷◌, Option,
  string_eq, arith, Bool-cases,
}
use de_oss.Access.Library.{Bytes}
use de_oss.Peers.{PeerList}
use de_oss.Download.{Remote, Sizes, Files, Site}
use de_oss.Download.Fetch.{}
use de_oss.Download.Handle.{
  Answer, Ending, Known, known, returned, Download, FileCache, answer, at, being_stored,
  order_under_way, look_up, ask_gateways, from_miners, without_cache, download_file_handle,
}
use de_oss.Download.Serve.{
  Looked, answered, stored, ordered, get_query, get_from_gateway, get_from_gateways,
  get_from_miners, get_from_others, get_without_cache,
}
use de_oss.Download.Get.{get_download}
use de_oss.Download.Answers.{downloads-cases}

Looked-cases :
    (k : Looked)
    → ((a : Answer) × (k ≡ answered a))
      ⊎ (((size : ℕ) × (k ≡ stored size)) ⊎ ((size : ℕ) × (k ≡ ordered size)))
Looked-cases (answered a) = inl (a, refl)
Looked-cases (stored size) = inr (inl (size, refl))
Looked-cases (ordered size) = inr (inr (size, refl))

module _ (R : Remote) (cache : FileCache R.State) (sizes : Sizes) (os : Files) (peers : PeerList)
    (own_id fid : String) (owned : String → Option Bytes) where
  abbrev asked : ℕ → List String → Download R.State → Bool × Download R.State
  asked = ask_gateways R cache sizes os peers own_id fid owned

  abbrev asked_one : ℕ → String → Download R.State → Bool × Download R.State
  asked_one = get_from_gateway R cache sizes os peers own_id fid owned

  abbrev asked_all : ℕ → List String → Download R.State → Bool × Download R.State
  asked_all = get_from_gateways R cache sizes os peers own_id fid owned

  -- A turn of the one loop is a turn of the other.
  ask_gateways-turn :
      (size : ℕ) (v : String) (vs : List String) (s : Download R.State)
      → asked size (v ∷ vs) s ≡ (elim (asked_one size v s).0 as (λ _. Bool × Download R.State) [
        | true ↦ (true, (asked_one size v s).1)
        | false ↦ asked size vs (asked_one size v s).1
      ])
  unfolding ask_gateways get_from_gateway
  ask_gateways-turn size v vs s = ground arith

  gateways-same :
      (size : ℕ) (l : List String) (s : Download R.State) → asked_all size l s ≡ asked size l s
  unfolding get_from_gateways ask_gateways
  gateways-same size [] s = refl
  gateways-same size (v ∷ vs) s =
      let turn = ask_gateways-turn size v vs s in
      let rest = gateways-same size vs (asked_one size v s).1 in ground (arith, turn, rest)

  -- `if len(peerList) > 0` around the loop changes nothing.
  guarded :
      (size : ℕ) (l : List String) (s : Download R.State)
      → (elim l as (λ _. Bool × Download R.State) [
        | [] ↦ (false, s)
        | v ∷ vs ↦ asked_all size (v ∷ vs) s
      ])
        ≡ asked size l s
  unfolding get_from_gateways
  guarded size [] s = gateways-same size [] s
  guarded size (v ∷ vs) s = gateways-same size (v ∷ vs) s

  miners-same :
      (s : Download R.State)
      → get_from_miners R cache sizes os peers own_id fid owned s
        ≡ from_miners R cache sizes os peers own_id fid owned s
  unfolding get_from_miners from_miners
  miners-same s = ground arith

  -- What the one handler finds out from the chain, in the words of the other.
  abbrev translate : Looked → Known
  translate (answered a) = Known.unknown a
  translate (stored size) = known size true
  translate (ordered size) = known size false

  queries-same :
      (w : R.State)
      → let q = get_query R cache sizes os peers own_id fid owned w in
        look_up R cache sizes os peers own_id fid owned w ≡ (translate q.0, q.1)
  unfolding get_query look_up
  queries-same w = ground arith

  -- Either the two handlers go on in the same way, or they answer with their own texts.
  abbrev IsSame : Ending × Download R.State → Ending × Download R.State → Type 0
  IsSame g d =
      (g ≡ d)
      ⊎ ((t : Download R.State) × (d ≡ (returned, answer being_stored t))
          × (g ≡ (returned, answer order_under_way t)))

  get_without_cache-IsSame :
      (s : Download R.State)
      → IsSame
          (get_without_cache R cache sizes os peers own_id fid owned s)
          (without_cache R cache sizes os peers own_id fid owned s)
  unfolding without_cache get_without_cache get_from_others
  get_without_cache-IsSame s =
      let q = get_query R cache sizes os peers own_id fid owned s.site.world in
      let e = queries-same s.site.world in
      let l = R.query_all_oss_peer_id q.1 in
      elim (Looked-cases q.0) [
        | inl (a, k) ↦ inl (ground (arith, k, e))
        | inr (inl (size, k)) ↦
            let guard = guarded size l.0 (at l.1 s) in
            let miners = miners-same (asked size l.0 (at l.1 s)).1 in
            inl (ground (arith, k, e, guard, miners))
        | inr (inr (size, k)) ↦
            let guard = guarded size l.0 (at l.1 s) in
            let run = asked size l.0 (at l.1 s) in
            elim (Bool-cases run.0) [
              | inl g ↦ inl (ground (arith, k, e, g, guard))
              | inr g ↦ inr (run.1, ground (arith, k, e, g, guard), ground (arith, k, e, g, guard))
            ]
      ]

  -- The operation "download" of `getHandle` does what `downloadFileHandle` does, to the disk, the
  -- cache, the network and the connection, however it ends; only if the file is not stored yet and no
  -- gateway has it, their last answers differ: 500 and 404, each with a text of its own.
  pub get_download-download_file_handle :
      (site : Site R.State)
      → let d = download_file_handle R cache sizes os peers own_id fid owned site in
        let g = get_download R cache sizes os peers own_id fid owned site in
        (g ≡ d)
        ⊎ ((t : Download R.State) × (d ≡ (returned, answer being_stored t))
            × (g ≡ (returned, answer order_under_way t)))
  get_download-download_file_handle site =
      elim (downloads-cases R cache sizes os peers own_id fid owned site) [
        | inl (b, same, n, q) ↦ inl same
        | inr (s, n, d, g) ↦ elim (get_without_cache-IsSame s) [
          | inl same ↦ inl (g ∙ same ∙ sym d)
          | inr (t, e, f) ↦ inr (t, d ∙ e, g ∙ f)
        ]
      ]
