-- ===== src/Tracker/Storage.antt =====
-- `storageData` of node/tracker.go. Batch `i` holds the fragment `i` of every segment, and is sent to
-- one storage node after the other until one takes it.
pub mod Peers
pub mod Report
use de_oss.Base.{
  ℕ, zero, suc, ◌+◌, ◌%◌, String, Bool, true, false, List, [], ◌∷◌, ◌++◌, Option, none, some,
  contains, eqb, get_elem?, length, some_of, ◌||◌, ◌==◌, string_eq, nat_eq, if◌then◌else◌,
}
use de_oss.Base.Dict
use de_oss.Base.Dict.{Dict}
use de_oss.Chain.{Chain, Reply, found, Segment, CompleteInfo}

-- `uint8(index)`
abbrev pub to_uint8 : ℕ → ℕ
to_uint8 n = n % 256

abbrev pub Groups : Type 0
Groups = Dict ℕ (List String)

abbrev group_of : ℕ → Groups → List String
group_of k g = elim (Dict.lookup k g) [ none ↦ [] | some v ↦ v ]

-- The inner loop over the segments. `none` is the panic of an index out of range.
unfoldable pub add_batch : ℕ → List Segment → Groups → Option Groups
add_batch index [] g = some g
add_batch index (s ∷ ss) g = elim (get_elem? s.fragment_hash index) [
  | none ↦ none
  | some h ↦
      let k = to_uint8 (index + 1) in
      add_batch index ss (Dict.insert k (group_of k g ++ (h ∷ [])) g)
]

-- The outer loop, from `index` on with `n` rounds left.
unfoldable pub add_batches : ℕ → ℕ → List Segment → Groups → Option Groups
add_batches zero index ss g = some g
add_batches (suc n) index ss g = elim (add_batch index ss g) [
  | none ↦ none
  | some g' ↦ add_batches n (suc index) ss g'
]

-- `segment[0]` panics on an empty slice.
unfoldable pub data_group : List Segment → Option Groups
unfolding add_batches add_batch
data_group [] = none
data_group (s ∷ ss) = add_batches (length s.fragment_hash) 0 (s ∷ ss) []

-- What the network does: does a connection come about, and does attempt `k` at sending a fragment to
-- a peer succeed?
pub record Network : Type 0 where
  pub connect : String → Bool
  pub write_file : String → String → ℕ → Bool

-- The peers that the iterator still gives, `sucPeer`, the calls of `Feedback`, the fragments that got
-- through, and the batches that were reported as transferred.
pub record Transfer : Type 0 where
  pub peers : List String
  pub suc_peer : List String
  pub feedback : List (String × Bool)
  pub delivered : List (String × String)
  pub reported : List (ℕ × String)

-- Does one of the attempts from `k` on succeed, with `n` left?
unfoldable pub any_attempt : (ℕ → Bool) → ℕ → ℕ → Bool
any_attempt try zero k = false
any_attempt try (suc n) k = try k || any_attempt try n (suc k)

abbrev pub is_completed : List CompleteInfo → ℕ → Bool
is_completed complete index = some_of (λ (c : CompleteInfo). eqb (to_uint8 c.index) index) complete

-- The feedback on a failed fragment; a batch with no fragment fails without one.
abbrev pub after_failure : List String → String → List (String × Bool)
after_failure [] p = []
after_failure (_ ∷ _) p = (p, false) ∷ []

module _ (net : Network) where
  -- `for k := 0; k < 10; k++`
  unfoldable pub sends : String → String → Bool
  unfolding any_attempt
  sends peer fragment = any_attempt (net.write_file peer fragment) 10 0

  -- The loop over the fragments of a batch, with the flag `failed` as it comes in and as it goes out,
  -- and the fragments that got through. The flag is set once for each peer, not for each fragment.
  unfoldable pub send_fragments : String → List String → Bool → Bool × List (String × String)
  send_fragments peer [] failed = (failed, [])
  send_fragments peer (v ∷ vs) failed = elim (sends peer v) [
    | true ↦ let (r, sent) = send_fragments peer vs false in (r, (peer, v) ∷ sent)
    | false ↦ elim failed [ true ↦ (true, []) | false ↦ send_fragments peer vs false ]
  ]

  -- The loop over the peers for one batch.
  unfoldable pub send_batch : ℕ → List String → List String → Transfer → Transfer
  send_batch index v [] s = record s { peers = [] }
  send_batch index v (p ∷ ps) s = elim (contains s.suc_peer p) [
    | true ↦ send_batch index v ps s
    | false ↦ elim (net.connect p) [
      | false ↦ send_batch index v ps (record s { feedback = s.feedback ++ ((p, false) ∷ []) })
      | true ↦
          let (failed, sent) = send_fragments p v true in
          elim failed [
            | true ↦ send_batch index v ps (record s {
              delivered = s.delivered ++ sent;
              feedback = s.feedback ++ after_failure v p;
            })
            | false ↦ record {
              peers = ps;
              suc_peer = p ∷ s.suc_peer;
              feedback = s.feedback ++ ((p, true) ∷ []);
              delivered = s.delivered ++ sent;
              reported = (index, p) ∷ s.reported;
            }
          ]
    ]
  ]

  -- A batch that the chain has a report for is passed over.
  unfoldable pub send_groups : List CompleteInfo → Groups → Transfer → Transfer
  unfolding send_batch send_fragments sends
  send_groups complete [] s = s
  send_groups complete ((index, v) ∷ g) s =
      send_groups complete g
        (if is_completed complete index then s else send_batch index v s.peers s)

-- Where a run begins: no report, no feedback.
abbrev pub fresh : List String → List String → Transfer
fresh peers done = record {
  peers = peers;
  suc_peer = done;
  feedback = [];
  delivered = [];
  reported = [];
}

-- `no_peers` is the error of `NewPeersIterator`, `out_of_range` a panic.
pub data StorageResult : Type 0 where
  transferred : Transfer → StorageResult
  no_peers : StorageResult
  out_of_range : StorageResult

module _ (C : Chain) where
  -- The peers of the reported batches; a miner that the chain does not answer for is skipped.
  unfoldable pub completed_peers : List CompleteInfo → C.State → List String × C.State
  completed_peers [] w = ([], w)
  completed_peers (c ∷ cs) w =
      let (r, w') = C.query_miner_items c.miner w in
      let (ps, w'') = completed_peers cs w' in (elim r [ found p ↦ p ∷ ps | _ ↦ ps ], w'')

  -- `itor` is what `NewPeersIterator` gives. Go ranges over a map in any order; `order` is the one of
  -- this run.
  unfoldable pub storage_data :
      Network
      → (Groups → Groups)
      → Option (List String)
      → List Segment
      → List CompleteInfo
      → C.State
      → StorageResult × C.State
  unfolding data_group send_groups completed_peers
  storage_data net order itor segment complete w = elim (data_group segment) [
    | none ↦ (out_of_range, w)
    | some g ↦ elim itor [
      | none ↦ (no_peers, w)
      | some peers ↦
          let (done, w') = completed_peers complete w in
          (transferred (send_groups net complete (order g) (fresh peers done)), w')
    ]
  ]
