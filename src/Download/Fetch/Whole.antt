-- ===== src/Download/Fetch/Whole.antt =====
-- `fetchFiles` of node/getHandle.go from end to end.
use de_oss.Base.{
  ◌≡◌, ◌≢◌, ◌≤◌, ◌<◌, ◌+◌, refl, ap, sym, ◌∙◌, inl, inr, suc, ℕ, true, String, List, [], ◌∷◌,
  Option, none, some, length, replicate, length-replicate, contains, string_eq, arith,
}
use de_oss.Base.Dict
use de_oss.Base.Dict.{Dict}
use de_oss.Base.Word.{two_64}
use de_oss.Access.Library.{Bytes}
use de_oss.Chain.{Reply-cases, found}
use de_oss.Peers.{PeerList}
use de_oss.Download.{FragmentMeta, SegmentMeta, FileMetadata, Remote, Sizes, Files, Site}
use de_oss.Download.Fetch.{
  Loop, user_file, not_fetched, take, remove_fragments, remove_parts, owner_copy, fetch_segments,
  write_segments, fetch_parts, fetch_files,
}
use de_oss.Download.Fetch.Parts.{fragment_hashes, segment_hashes, IsTrue, IsKept, Delivers}
use de_oss.Download.Fetch.Segments.{AllCoded, Loop-cases, fetch_segments-IsKept}
use de_oss.Download.Fetch.Exact.{joined, AllFull, write_segments-exact}

length-segment_hashes : (ms : List SegmentMeta) → length (segment_hashes ms) ≡ length ms
length-segment_hashes [] = refl
length-segment_hashes (m ∷ ms) = ap suc (length-segment_hashes ms)

module _ (content : String → Bytes) (R : Remote) (sizes : Sizes) (os : Files) (peers : PeerList)
    (root : String) (part : String → Type 0) (apart : (h : String) → part h → h ≢ root) where
  -- The deferred function leaves the user's file.
  remove_fragments-root :
      (fs : List FragmentMeta) (d : Dict String Bytes)
      → ((f : String) → contains (fragment_hashes fs) f ≡ true → part f × (f ≢ ""))
      → Dict.lookup root (remove_fragments fs d) ≡ Dict.lookup root d
  unfolding remove_fragments
  remove_fragments-root [] d p = refl
  remove_fragments-root (f ∷ fs) d p = ground (
    arith,
    remove_fragments-root fs (Dict.erase f.hash d) (λ g h. p g (ground (arith, h))),
    Dict.lookup-erase root f.hash d,
    apart f.hash (p f.hash (ground arith)).0,
  )

  remove_parts-root :
      (ms : List SegmentMeta) (d : Dict String Bytes)
      → AllCoded content R sizes os peers root part apart ms
      → Dict.lookup root (remove_parts ms d) ≡ Dict.lookup root d
  unfolding remove_parts
  remove_parts-root [] d c = refl
  remove_parts-root (m ∷ ms) d c = ground (
    arith,
    remove_parts-root ms (remove_fragments m.fragments (Dict.erase m.hash d)) c.1,
    remove_fragments-root m.fragments (Dict.erase m.hash d) c.0.each,
    Dict.lookup-erase root m.hash d,
    apart m.hash c.0.named,
  )

  fetch_parts-exact :
      (m : FileMetadata) (s : Site R.State) (p : String)
      → Delivers content R sizes os
      → AllCoded content R sizes os peers root part apart m.segments
      → AllFull content R sizes os peers root part apart (segment_hashes m.segments)
      → IsKept content R sizes os peers root part apart (some []) s
      → m.file_size ≤ length (joined content (segment_hashes m.segments))
      → length (joined content (segment_hashes m.segments)) ≤ m.file_size + sizes.segment_size
      → m.file_size < two_64
      → (fetch_parts R sizes os peers root m s).0 ≡ user_file p
      → Dict.lookup root (fetch_parts R sizes os peers root m s).1.files
        ≡ some (take m.file_size (joined content (segment_hashes m.segments)))
  unfolding fetch_parts
  fetch_parts-exact m s p net coded full kept up most fit ok =
      let hs = segment_hashes m.segments in
      let t = fetch_segments R sizes os peers root m.segments (replicate sizes.shards "") s in
      elim (Loop-cases t.0) [
        | inr q ↦ absurd (ground (arith, q, ok))
        | inl (names, i) ↦
            let (same, k) =
              fetch_segments-IsKept content R sizes os peers root part apart (some []) m.segments
                (replicate sizes.shards "") names s net coded
                (length-replicate {A = String} sizes.shards "") kept i in
            let written : List String → Loop ℕ × Dict String Bytes = λ l.
              write_segments R sizes os peers root m.file_size (length m.segments) 0 l t.1.files in
            let q = written names in
            elim (Loop-cases q.0) [
              | inr e ↦ absurd (ground (arith, i, e, ok))
              | inl (c, e) ↦
                  let e' = ap (λ l. (written l).0) (sym same) ∙ e in
                  let exact =
                    write_segments-exact content R sizes os peers root part apart m.file_size
                      (length m.segments) 0 c hs [] t.1.files net.whole full k.parts k.file
                      (omega (arith, length-segment_hashes m.segments)) (omega arith)
                      (omega (arith, up)) (omega (arith, most)) fit e' in
                  let after : (fetch_parts R sizes os peers root m s).1.files ≡ q.1 =
                    ground (arith, i, e, ok, same, length-segment_hashes m.segments) in
                  ap (Dict.lookup root) after
                  ∙ ap (λ l. Dict.lookup root (written l).1) same
                  ∙ exact
                  ∙ ap (λ n. some (take n (joined content hs))) (omega arith)
            ]
      ]

  -- What `fetchFiles` puts together is the file: if it returns the path of a file that was not there
  -- before, then the file has the segments' contents in their order, cut to the size that the chain
  -- has for it, however many fragments came through. No owner's directory has a copy. The storage
  -- nodes deliver a fragment as it is or not at all, the erasure code restores a segment or nothing
  -- from right fragments, writes are whole, and the parts that are on the disk already are right;
  -- each segment has all its fragments and is of full size, and no part has the file's name; the size
  -- is below 2 ^ 64 and ends in the last segment.
  pub fetch_files_exact :
      (owned : String → Option Bytes) (m : FileMetadata) (s : Site R.State) (p : String)
      → Delivers content R sizes os
      → AllCoded content R sizes os peers root part apart m.segments
      → AllFull content R sizes os peers root part apart (segment_hashes m.segments)
      → IsTrue content part s.files
      → Dict.lookup root s.files ≡ none
      → (R.query_file root s.world).0 ≡ found m
      → owner_copy R sizes os peers root owned m.owner ≡ none
      → m.file_size ≤ length (joined content (segment_hashes m.segments))
      → length (joined content (segment_hashes m.segments)) ≤ m.file_size + sizes.segment_size
      → m.file_size < two_64
      → (fetch_files R sizes os peers root owned s).0 ≡ user_file p
      → Dict.lookup root (fetch_files R sizes os peers root owned s).1.files
        ≡ some (take m.file_size (joined content (segment_hashes m.segments)))
  unfolding fetch_files
  fetch_files_exact owned m s p net coded full parts absent meta alone up most fit ok =
      let begun : Site R.State = record {
        files = Dict.insert root [] s.files;
        world = (R.query_file root s.world).1;
      } in
      let kept : IsKept content R sizes os peers root part apart (some []) begun = record {
        parts = λ name b c f.
            parts name b c
              (ground (arith, Dict.lookup-insert name root [] s.files, f, apart name c));
        file = ground (arith, Dict.lookup-insert root root [] s.files);
      } in
      let run = fetch_parts R sizes os peers root m begun in
      let done : run.0 ≡ user_file p = ground (arith, ok, absent, meta, alone) in
      let after : (fetch_files R sizes os peers root owned s).1.files
          ≡ remove_parts m.segments run.1.files =
        ground (arith, ok, absent, meta, alone, done) in
      ap (Dict.lookup root) after
      ∙ remove_parts-root m.segments run.1.files coded
      ∙ fetch_parts-exact m begun p net coded full kept up most fit done

module _ (R : Remote) (sizes : Sizes) (os : Files) (peers : PeerList) (root : String) where
  -- A download that fails can spoil the file for good: if the chain does not answer for the file that
  -- is to be put together, this call returns an error, but it leaves an empty file, which the next
  -- call returns as the file, without an error.
  pub fetch_files_stale :
      (owned : String → Option Bytes) (s : Site R.State)
      → Dict.lookup root s.files ≡ none
      → os.creates root ≡ true
      → ((m : FileMetadata) → (R.query_file root s.world).0 ≢ found m)
      → let after = (fetch_files R sizes os peers root owned s).1 in
        ((fetch_files R sizes os peers root owned s).0 ≡ not_fetched)
        × (Dict.lookup root after.files ≡ some [])
        × (fetch_files R sizes os peers root owned after ≡ (user_file root, after))
  unfolding fetch_files
  fetch_files_stale owned s absent creates lost =
      let new = Dict.lookup-insert root root [] s.files in
      elim (Reply-cases (R.query_file root s.world).0) [
        | inl (m, q) ↦ absurd (lost m q)
        | inr (inl q) ↦ (
          ground (arith, absent, creates, q),
          ground (arith, absent, creates, q, new),
          ground (arith, absent, creates, q, new),
        )
        | inr (inr (e, q)) ↦ (
          ground (arith, absent, creates, q),
          ground (arith, absent, creates, q, new),
          ground (arith, absent, creates, q, new),
        )
      ]
