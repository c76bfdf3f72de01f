-- ===== src/Download/Fetch/Parts.antt =====
-- The loops over the segments and their fragments, in `fetchFiles` of node/getHandle.go.
use de_oss.Base.{
  ◌≡◌, ◌≢◌, ap, subst, sym, ◌∙◌, inl, inr, ℕ, suc, true, String, List, [], ◌∷◌, ◌++◌, Option, some,
  length, replicate, set, leb, ◌==◌, string_eq, arith, contains, not, ◌||◌, Bool-cases,
  Option-cases, length-append, set-append, append_one,
}
use de_oss.Base.Dict
use de_oss.Base.Dict.{Dict}
use de_oss.Access.Library.{Bytes}
use de_oss.Chain.{Reply-cases}
use de_oss.Peers.{PeerList, get_peer}
use de_oss.Download.{FragmentMeta, SegmentMeta, Remote, Sizes, Files, Site}
use de_oss.Download.Fetch.{
  go, contents_at, read_fragment, fetch_fragment, fetch_fragments, zero_hash,
}

abbrev pub fragment_hashes : List FragmentMeta → List String
fragment_hashes [] = []
fragment_hashes (f ∷ fs) = f.hash ∷ fragment_hashes fs

abbrev pub segment_hashes : List SegmentMeta → List String
segment_hashes [] = []
segment_hashes (m ∷ ms) = m.hash ∷ segment_hashes ms

-- What each hash stands for.
module _ (content : String → Bytes) where
  -- A file under one of the names, if there is one, has the content of its name.
  abbrev pub IsTrue : (String → Type 0) → Dict String Bytes → Type 0
  IsTrue part d =
      (name : String) (b : Bytes) → part name → Dict.lookup name d ≡ some b → b ≡ content name

  -- What is found at the paths is right, where something is found.
  abbrev pub Agrees : List (Option Bytes) → List String → Type 0
  Agrees [] [] = Unit
  Agrees (o ∷ os) (h ∷ hs) = ((b : Bytes) → o ≡ some b → b ≡ content h) × Agrees os hs
  Agrees _ _ = ⊥

  -- A fragment arrives as it is, or not at all; and the zero fragment is one of zeros.
  pub record Delivers (R : Remote) (sizes : Sizes) (os : Files) : Type 0 where
    pub whole : (b : Bytes) → os.written b ≡ b
    pub zeros : content zero_hash ≡ replicate sizes.fragment_size 0
    pub fragment :
        (peer root hash : String) (w : R.State) (b : Bytes)
        → (R.read_file_action peer root hash w).0.contents ≡ some b
        → b ≡ content hash

  -- From fragments of the segment, the erasure code restores the segment or nothing; it has the number
  -- of fragments that the code is made for; and no part has the name of the file.
  pub record IsCoded (R : Remote) (sizes : Sizes) (part : String → Type 0) (root : String)
      (m : SegmentMeta) : Type 0 where
    pub complete : length m.fragments ≡ sizes.shards
    pub named : part m.hash
    pub each : (f : String) → contains (fragment_hashes m.fragments) f ≡ true → part f × (f ≢ "")
    pub restores :
        (l : List (Option Bytes)) (b : Bytes)
        → Agrees l (fragment_hashes m.fragments)
        → R.rs_restore l ≡ some b
        → b ≡ content m.hash

  insert-IsTrue :
      (part : String → Type 0) (h : String) (b : Bytes) (d : Dict String Bytes)
      → b ≡ content h
      → IsTrue part d
      → IsTrue part (Dict.insert h b d)
  insert-IsTrue part h b d e t name c p f =
      ground (arith, Dict.lookup-insert name h b d, f, e, t name c p)

  pub contents_at-Agrees :
      (part : String → Type 0) (d : Dict String Bytes) (fs : List FragmentMeta)
      → IsTrue part d
      → ((f : String) → contains (fragment_hashes fs) f ≡ true → part f × (f ≢ ""))
      → Agrees (contents_at d (fragment_hashes fs)) (fragment_hashes fs)
  unfolding contents_at
  contents_at-Agrees part d [] t p = tt
  contents_at-Agrees part d (f ∷ fs) t p =
      let (q, given) = p f.hash (ground arith) in
      (
        (λ b e. t f.hash b q (ground (arith, e, given))),
        contents_at-Agrees part d fs t (λ g h. p g (ground (arith, h))),
      )

  module _ (R : Remote) (sizes : Sizes) (os : Files) (peers : PeerList) (root : String)
      (part : String → Type 0) (apart : (h : String) → part h → h ≢ root) where
    -- The parts on disk are true, and the file of name `root` is as it was, `b`.
    pub record IsKept (b : Option Bytes) (s : Site R.State) : Type 0 where
      pub parts : IsTrue part s.files
      pub file : Dict.lookup root s.files ≡ b

    pub insert-IsKept :
        (b : Option Bytes) (s : Site R.State) (h : String) (c : Bytes) (w : R.State)
        → part h
        → c ≡ content h
        → IsKept b s
        → IsKept b (record { files = Dict.insert h c s.files; world = w })
    insert-IsKept b s h c w p e k = record {
      parts = insert-IsTrue part h c s.files e k.parts;
      file = ground (arith, Dict.lookup-insert root h c s.files, apart h p, k.file);
    }

    moved-IsKept :
        (b : Option Bytes) (s : Site R.State) (w : R.State)
        → IsKept b s
        → IsKept b (record s { world = w })
    moved-IsKept b s w k = record { parts = k.parts; file = k.file }

    read_fragment-IsKept :
        (b : Option Bytes) (peerid hash : String) (s : Site R.State)
        → Delivers R sizes os
        → part hash
        → IsKept b s
        → IsKept b (read_fragment R sizes os peers root peerid hash s)
    unfolding read_fragment get_peer
    read_fragment-IsKept b peerid hash s net p k = elim (Option-cases (get_peer peerid peers)) [
      | inl n ↦ subst (IsKept b) (ground (arith, n)) k
      | inr (a, n) ↦
          let w = (R.connect a s.world).1 in
          elim (Bool-cases (R.connect a s.world).0) [
            | inl c ↦
                let r = R.read_file_action a.id root hash w in
                elim (Option-cases r.0.contents) [
                  | inl e ↦ subst (IsKept b) (ground (arith, n, c, e)) (moved-IsKept b s r.1 k)
                  | inr (x, e) ↦
                      subst (IsKept b) (ground (arith, n, c, e))
                        (insert-IsKept b s hash x r.1 p (net.fragment a.id root hash w x e) k)
                ]
            | inr c ↦ subst (IsKept b) (ground (arith, n, c)) (moved-IsKept b s w k)
          ]
    ]

    fetch_fragment-IsKept :
        (b : Option Bytes) (f : FragmentMeta) (s : Site R.State)
        → Delivers R sizes os
        → part f.hash
        → IsKept b s
        → IsKept b (fetch_fragment R sizes os peers root f s).1
    unfolding fetch_fragment
    fetch_fragment-IsKept b f s net p k = elim (Bool-cases (f.hash == zero_hash)) [
      | inl z ↦ elim (Bool-cases (Dict.member f.hash s.files || not (os.creates f.hash))) [
        | inl e ↦ subst (IsKept b) (ground (arith, z, e)) k
        | inr e ↦
            let zeros : Bytes = replicate sizes.fragment_size 0 in
            let same : f.hash ≡ zero_hash = ground (arith, z) in
            subst (IsKept b) (ground (arith, z, e)) (
              insert-IsKept b s f.hash (os.written zeros) s.world p
                (net.whole zeros ∙ sym net.zeros ∙ sym (ap content same)) k)
      ]
      | inr z ↦
          let q = R.query_miner_items f.miner s.world in
          let s' : Site R.State = record s { world = q.1 } in
          elim (Reply-cases q.0) [
            | inl (id, e) ↦ subst (IsKept b) (ground (arith, z, e)) (
                read_fragment-IsKept b (R.base58_encode id) f.hash s' net p
                  (moved-IsKept b s q.1 k))
            | inr (inl e) ↦ subst (IsKept b) (ground (arith, z, e)) (moved-IsKept b s q.1 k)
            | inr (inr (x, e)) ↦ subst (IsKept b) (ground (arith, z, e)) (moved-IsKept b s q.1 k)
          ]
    ]

    pub fetch_fragments-IsKept :
        (b : Option Bytes) (fs : List FragmentMeta) (i : ℕ) (paths : List String) (s : Site R.State)
        → Delivers R sizes os
        → ((f : String) → contains (fragment_hashes fs) f ≡ true → part f × (f ≢ ""))
        → IsKept b s
        → IsKept b (fetch_fragments R sizes os peers root fs i paths s).1
    unfolding fetch_fragments
    fetch_fragments-IsKept b [] i paths s net p k = k
    fetch_fragments-IsKept b (f ∷ fs) i paths s net p k =
        let t = fetch_fragment R sizes os peers root f s in
        let k' = fetch_fragment-IsKept b f s net (p f.hash (ground arith)).0 k in
        elim (Bool-cases (leb (length paths) i)) [
          | inl e ↦ subst (IsKept b) (ground (arith, e)) k
          | inr e ↦ elim (Bool-cases t.0) [
            | inl o ↦ subst (IsKept b) (ground (arith, e, o)) (
                fetch_fragments-IsKept b fs (suc i) (set paths i f.hash) t.1 net
                  (λ g h. p g (ground (arith, h))) k')
            | inr o ↦ subst (IsKept b) (ground (arith, e, o)) k'
          ]
        ]

    -- The loop leaves the hashes of the fragments in the slice.
    pub fetch_fragments-paths :
        (fs : List FragmentMeta) (pre suf : List String) (s : Site R.State) (paths : List String)
        → length suf ≡ length fs
        → (fetch_fragments R sizes os peers root fs (length pre) (pre ++ suf) s).0 ≡ go paths
        → paths ≡ pre ++ fragment_hashes fs
    unfolding fetch_fragments
    fetch_fragments-paths [] pre [] s paths n e = ground (arith, e)
    fetch_fragments-paths [] pre (x ∷ suf) s paths n e = absurd (omega (arith, n))
    fetch_fragments-paths (f ∷ fs) pre [] s paths n e = absurd (omega (arith, n))
    fetch_fragments-paths (f ∷ fs) pre (x ∷ suf) s paths n e =
        let t = fetch_fragment R sizes os peers root f s in
        let room = length-append pre (x ∷ suf) in
        let step = set-append pre x f.hash suf in
        let pre' = pre ++ f.hash ∷ [] in
        let one = length-append pre (f.hash ∷ []) in
        elim (Bool-cases t.0) [
          | inl o ↦
              let run : (fetch_fragments R sizes os peers root fs (length pre') (pre' ++ suf) t.1).0
                  ≡ go paths =
                ground (arith, e, o, room, step, one) in
              fetch_fragments-paths fs pre' suf t.1 paths (omega (arith, n)) run
              ∙ append_one pre f.hash (fragment_hashes fs)
          | inr o ↦ absurd (ground (arith, e, o, room))
        ]
