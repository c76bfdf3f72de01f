-- ===== src/Download/Fetch/Segments.antt =====
-- The loop over the segments in `fetchFiles` of node/getHandle.go.
use de_oss.Base.{
  ◌≡◌, ◌≢◌, refl, ap, subst, sym, ◌∙◌, ◌⊎◌, inl, inr, suc, String, List, [], ◌∷◌, Option, length,
  string_eq, arith, Option-cases,
}
use de_oss.Base.Dict
use de_oss.Access.Library.{Bytes}
use de_oss.Peers.{PeerList}
use de_oss.Download.{FragmentMeta, SegmentMeta, Remote, Sizes, Files, Site}
use de_oss.Download.Fetch.{
  Loop, go, stopped, out_of_range, exits, contents_at, fetch_fragments, fetch_segments,
}
use de_oss.Download.Fetch.Parts.{
  fragment_hashes, segment_hashes, IsKept, Delivers, IsCoded, insert-IsKept, contents_at-Agrees,
  fetch_fragments-IsKept, fetch_fragments-paths,
}

pub Loop-cases :
    {A : Type 0} (l : Loop A)
    → ((a : A) × (l ≡ go a)) ⊎ ((l ≡ stopped) ⊎ ((l ≡ out_of_range) ⊎ (l ≡ exits)))
Loop-cases (go a) = inl (a, refl)
Loop-cases stopped = inr (inl refl)
Loop-cases out_of_range = inr (inr (inl refl))
Loop-cases exits = inr (inr (inr refl))

length-fragment_hashes : (fs : List FragmentMeta) → length (fragment_hashes fs) ≡ length fs
length-fragment_hashes [] = refl
length-fragment_hashes (f ∷ fs) = ap suc (length-fragment_hashes fs)

module _ (content : String → Bytes) (R : Remote) (sizes : Sizes) (os : Files) (peers : PeerList)
    (root : String) (part : String → Type 0) (apart : (h : String) → part h → h ≢ root) where
  abbrev pub AllCoded : List SegmentMeta → Type 0
  AllCoded [] = Unit
  AllCoded (m ∷ ms) = IsCoded content R sizes part root m × AllCoded ms

  -- When the loop over the segments ends well, the paths are those of the segments.
  pub fetch_segments-IsKept :
      (b : Option Bytes) (ms : List SegmentMeta) (paths names : List String) (s : Site R.State)
      → Delivers content R sizes os
      → AllCoded ms
      → length paths ≡ sizes.shards
      → IsKept content R sizes os peers root part apart b s
      → (fetch_segments R sizes os peers root ms paths s).0 ≡ go names
      → (names ≡ segment_hashes ms)
        × IsKept content R sizes os peers root part apart b
            (fetch_segments R sizes os peers root ms paths s).1
  unfolding fetch_segments
  fetch_segments-IsKept b [] paths names s net c n k e = (ground (arith, e), k)
  fetch_segments-IsKept b (m ∷ ms) paths names s net c n k e =
      let t = fetch_fragments R sizes os peers root m.fragments 0 paths s in
      elim (Loop-cases t.0) [
        | inr q ↦ absurd (ground (arith, q, e))
        | inl (after, i) ↦
            let all : after ≡ fragment_hashes m.fragments =
              fetch_fragments-paths content R sizes os peers root part apart m.fragments [] paths s
                after (n ∙ sym c.0.complete) i in
            let k' =
              fetch_fragments-IsKept content R sizes os peers root part apart b m.fragments 0 paths
                s net c.0.each k in
            elim (Option-cases (R.rs_restore (contents_at t.1.files after))) [
              | inl o ↦ absurd (ground (arith, i, o, e))
              | inr (x, o) ↦
                  let right =
                    c.0.restores (contents_at t.1.files (fragment_hashes m.fragments)) x
                      (contents_at-Agrees content part t.1.files m.fragments k'.parts c.0.each)
                      (ap (λ l. R.rs_restore (contents_at t.1.files l)) (sym all) ∙ o) in
                  let s2 : Site R.State = record t.1 { files = Dict.insert m.hash x t.1.files } in
                  let k2 =
                    insert-IsKept content R sizes os peers root part apart b t.1 m.hash x t.1.world
                      c.0.named right k' in
                  let rest = fetch_segments R sizes os peers root ms after s2 in
                  elim (Loop-cases rest.0) [
                    | inr q ↦ absurd (ground (arith, i, o, q, e))
                    | inl (ns, j) ↦
                        let (same, kept) =
                          fetch_segments-IsKept b ms after ns s2 net c.1
                            (ap length all ∙ length-fragment_hashes m.fragments ∙ c.0.complete) k2
                            j in
                        (
                          ground (arith, e, i, o, j, same),
                          subst (IsKept content R sizes os peers root part apart b)
                              (ground (arith, i, o)) kept,
                        )
                  ]
            ]
      ]
