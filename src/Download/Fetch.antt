-- ===== src/Download/Fetch.antt =====
-- `fetchFiles` of node/getHandle.go: the fragments of each segment are read from the storage nodes, the
-- segment is restored from them, and the segments are written one after the other.
pub mod Parts
pub mod Segments
pub mod Exact
pub mod Whole
use de_oss.Base.{
  ℕ, zero, suc, ◌+◌, ◌-◌, ◌*◌, ◌%◌, Bool, true, false, String, List, ◌∷◌, ◌++◌, Option, none, some,
  ◌||◌, length, replicate, set, leb, eqb, not, if◌then◌else◌, ◌==◌, string_eq, [],
}
use de_oss.Base.Dict
use de_oss.Base.Dict.{Dict}
use de_oss.Base.Word.{two_64}
use de_oss.Access.Library.{Bytes}
use de_oss.Chain.{found}
use de_oss.Peers.{PeerList, get_peer}
use de_oss.Download.{FragmentMeta, OwnerMeta, SegmentMeta, FileMetadata, Remote, Sizes, Files, Site}

-- The hash of a fragment of zeros, which is not transferred.
abbrev pub zero_hash : String
zero_hash = "080acf35a507ac9849cfcba47dc2ad83e01b75663a516279c8b9d243b719643e"

-- The path that is returned: the user's file, or the copy in the directory of an owner.
pub data Fetched : Type 0 where
  user_file : String → Fetched
  owner_file : String → String → Fetched
  not_fetched crashed exited : Fetched

-- How a loop ends: with a value, by an error, by an index out of range, or by `os.Exit`.
pub data Loop (A : Type 0) : Type 0 where
  go : A → Loop A
  stopped out_of_range exits : Loop A

unfoldable pub take : ℕ → Bytes → Bytes
take zero b = []
take (suc n) [] = []
take (suc n) (x ∷ b) = x ∷ take n b

-- `uint64` subtraction wraps around.
abbrev pub sub_64 : ℕ → ℕ → ℕ
sub_64 a b = (a + (two_64 - b % two_64)) % two_64

-- `buf[:n]`, which may reach beyond the length, to the capacity: there the buffer is zero.
abbrev pub reslice : (Bytes → ℕ) → Bytes → ℕ → Option Bytes
reslice capacity buf n =
    if leb n (length buf)
    then some (take n buf)
    else if leb n (capacity buf)
    then some (buf ++ replicate (n - length buf) 0)
    else none

abbrev pub append_to : String → Bytes → Dict String Bytes → Dict String Bytes
append_to name b d =
    Dict.insert name (elim (Dict.lookup name d) [ none ↦ b | some old ↦ old ++ b ]) d

-- What `RSRestore` finds at the paths; "" is the path of no fragment.
unfoldable pub contents_at : Dict String Bytes → List String → List (Option Bytes)
contents_at d [] = []
contents_at d (p ∷ ps) = (if p == "" then none else Dict.lookup p d) ∷ contents_at d ps

unfoldable pub remove_fragments : List FragmentMeta → Dict String Bytes → Dict String Bytes
remove_fragments [] d = d
remove_fragments (f ∷ fs) d = remove_fragments fs (Dict.erase f.hash d)

-- The deferred function.
unfoldable pub remove_parts : List SegmentMeta → Dict String Bytes → Dict String Bytes
unfolding remove_fragments
remove_parts [] d = d
remove_parts (s ∷ ss) d = remove_parts ss (remove_fragments s.fragments (Dict.erase s.hash d))

module _ (R : Remote) (sizes : Sizes) (os : Files) (peers : PeerList) (roothash : String) where
  -- A fragment that cannot be had is passed over.
  unfoldable pub read_fragment : String → String → Site R.State → Site R.State
  unfolding get_peer
  read_fragment peerid hash s = elim (get_peer peerid peers) [
    | none ↦ s
    | some addr ↦
        let (connected, w) = R.connect addr s.world in
        elim connected [
          | false ↦ record s { world = w }
          | true ↦
              let (r, w') = R.read_file_action addr.id roothash hash w in
              record {
                files = elim r.contents [ none ↦ s.files | some b ↦ Dict.insert hash b s.files ];
                world = w';
              }
        ]
  ]

  -- The body of the inner loop; `false` is the error of the query.
  unfoldable pub fetch_fragment : FragmentMeta → Site R.State → Bool × Site R.State
  unfolding read_fragment
  fetch_fragment f s =
      if f.hash == zero_hash
      then (
        true,
        if Dict.member f.hash s.files || not (os.creates f.hash) then s else record s {
          files = Dict.insert f.hash (os.written (replicate sizes.fragment_size 0)) s.files;
        },
      )
      else let (r, w) = R.query_miner_items f.miner s.world in
        elim r [
          | found peer_id ↦
              (true, read_fragment (R.base58_encode peer_id) f.hash (record s { world = w }))
          | _ ↦ (false, record s { world = w })
        ]

  -- The inner loop, from index `k`, with the slice `fragmentpaths`.
  unfoldable pub fetch_fragments :
      List FragmentMeta → ℕ → List String → Site R.State → Loop (List String) × Site R.State
  unfolding fetch_fragment
  fetch_fragments [] k paths s = (go paths, s)
  fetch_fragments (f ∷ fs) k paths s =
      if leb (length paths) k then (out_of_range, s) else elim (fetch_fragment f s).0 [
        | false ↦ (stopped, (fetch_fragment f s).1)
        | true ↦ fetch_fragments fs (suc k) (set paths k f.hash) (fetch_fragment f s).1
      ]

  -- The outer loop; `fragmentpaths` is one slice for all segments.
  unfoldable pub fetch_segments :
      List SegmentMeta → List String → Site R.State → Loop (List String) × Site R.State
  unfolding fetch_fragments contents_at
  fetch_segments [] paths s = (go [], s)
  fetch_segments (m ∷ ms) paths s =
      let (r, s1) = fetch_fragments m.fragments 0 paths s in
      elim r [
        | go paths1 ↦ elim (R.rs_restore (contents_at s1.files paths1)) [
          | none ↦ (stopped, s1)
          | some b ↦
              let (q, s2) =
                fetch_segments ms paths1 (record s1 { files = Dict.insert m.hash b s1.files }) in
              (elim q [ go names ↦ go (m.hash ∷ names) | e ↦ e ], s2)
        ]
        | e ↦ (e, s1)
      ]

  -- The last loop, after `count` of `n` segments; the last one is cut to what is left of the size.
  unfoldable pub write_segments :
      ℕ → ℕ → ℕ → List String → Dict String Bytes → Loop ℕ × Dict String Bytes
  unfolding take
  write_segments size n count [] d = (go count, d)
  write_segments size n count (p ∷ ps) d = elim (if os.reads p then Dict.lookup p d else none) [
    | none ↦ (exits, d)
    | some buf ↦
        elim (if leb n (count + 1)
          then reslice os.capacity buf (sub_64 size (count * sizes.segment_size))
          else some buf) [
            | none ↦ (out_of_range, d)
            | some out ↦
                write_segments size n (count + 1) ps (append_to roothash (os.written out) d)
          ]
  ]

  unfoldable pub fetch_parts : FileMetadata → Site R.State → Fetched × Site R.State
  unfolding fetch_segments write_segments
  fetch_parts m s =
      let (r, s1) = fetch_segments m.segments (replicate sizes.shards "") s in
      elim r [
        | go names ↦
            if not (eqb (length names) (length m.segments))
            then (not_fetched, s1)
            else let (q, d) = write_segments m.file_size (length m.segments) 0 names s1.files in
              (
                elim q [
                  | go count ↦
                      if not (eqb count (length m.segments))
                      then not_fetched
                      else user_file roothash
                  | stopped ↦ not_fetched
                  | out_of_range ↦ crashed
                  | exits ↦ exited
                ],
                record s1 { files = d },
              )
        | stopped ↦ (not_fetched, s1)
        | out_of_range ↦ (crashed, s1)
        | exits ↦ (exited, s1)
      ]

  -- The first owner in whose directory the file is.
  unfoldable pub owner_copy : (String → Option Bytes) → List OwnerMeta → Option String
  owner_copy owned [] = none
  owner_copy owned (v ∷ vs) = elim (R.encode_account v.user) [
    | none ↦ owner_copy owned vs
    | some acc ↦ elim (owned acc) [ none ↦ owner_copy owned vs | some _ ↦ some acc ]
  ]

  -- `os.Exit` does not run the deferred function, a panic does.
  abbrev pub clear : FileMetadata → Fetched × Site R.State → Fetched × Site R.State
  clear m (exited, s) = (exited, s)
  clear m (r, s) = (r, record s { files = remove_parts m.segments s.files })

  -- `owned` has the contents of the file in the accounts' directories.
  unfoldable pub fetch_files : (String → Option Bytes) → Site R.State → Fetched × Site R.State
  unfolding owner_copy fetch_parts remove_parts
  fetch_files owned s =
      if Dict.member roothash s.files
      then (user_file roothash, s)
      else if not (os.creates roothash)
      then (not_fetched, s)
      else let s1 : Site R.State = record s { files = Dict.insert roothash [] s.files } in
        let (r, w) = R.query_file roothash s1.world in
        let s2 : Site R.State = record s1 { world = w } in
        elim r [
          | found m ↦ elim (owner_copy owned m.owner) [
            | some acc ↦ (owner_file acc roothash, s2)
            | none ↦ clear m (fetch_parts m s2)
          ]
          | _ ↦ (not_fetched, s2)
        ]
