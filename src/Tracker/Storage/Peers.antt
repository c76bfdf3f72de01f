-- ===== src/Tracker/Storage/Peers.antt =====
-- The peers and batches of one run of `storageData` of node/tracker.go.
use de_oss.Base.{
  IsDistinct, ℕ, String, true, false, List, [], ◌∷◌, ◌++◌, ◌≡◌, contains, arith, string_eq,
  Bool-cases, inl, inr, refl, Option, Option-cases, nat_eq, subst,
}
use de_oss.Chain.{Chain, Segment, CompleteInfo, Reply-cases, found}
use de_oss.Tracker.Storage.{
  Network, Transfer, Groups, send_fragments, send_batch, send_groups, after_failure, is_completed,
  fresh, storage_data, transferred, data_group, completed_peers,
}

-- The peers of the reported batches.
abbrev pub reported_peers : List (ℕ × String) → List String
reported_peers [] = []
reported_peers ((_, p) ∷ rs) = p ∷ reported_peers rs

abbrev pub reported_batches : List (ℕ × String) → List ℕ
reported_batches [] = []
reported_batches ((i, _) ∷ rs) = i ∷ reported_batches rs

module _ (complete : List CompleteInfo) (start : List String) where
  -- Every reported peer is in `sucPeer` and was not at the start, none is reported twice, and no
  -- reported batch was completed before.
  pub record IsSpread (s : Transfer) : Type 0 where
    pub distinct : IsDistinct (reported_peers s.reported)
    pub known :
        (p : String) → contains (reported_peers s.reported) p ≡ true → contains s.suc_peer p ≡ true
    pub kept : (p : String) → contains start p ≡ true → contains s.suc_peer p ≡ true
    pub new_peer :
        (p : String) → contains (reported_peers s.reported) p ≡ true → contains start p ≡ false
    pub new_batch :
        (i : ℕ) → contains (reported_batches s.reported) i ≡ true → is_completed complete i ≡ false

  -- What the records of two transfers must share.
  same-IsSpread :
      {s t : Transfer} → s.reported ≡ t.reported → s.suc_peer ≡ t.suc_peer → IsSpread s → IsSpread t
  same-IsSpread {s} {t} r q h = record {
    distinct = rw r at h.distinct;
    known = λ p k. rw q at (h.known p (rw r k));
    kept = λ p k. rw q at (h.kept p k);
    new_peer = λ p k. h.new_peer p (rw r k);
    new_batch = λ i k. h.new_batch i (rw r k);
  }

  send_batch-IsSpread :
      (net : Network) (index : ℕ) (v ps : List String) (s : Transfer)
      → is_completed complete index ≡ false
      → IsSpread s
      → IsSpread (send_batch net index v ps s)
  unfolding send_batch
  send_batch-IsSpread net index v [] s c h = same-IsSpread refl refl h
  send_batch-IsSpread net index v (p ∷ ps) s c h = elim (Bool-cases (contains s.suc_peer p)) [
    | inl e ↦ subst IsSpread (ground (arith, e)) (send_batch-IsSpread net index v ps s c h)
    | inr e ↦ elim (Bool-cases (net.connect p)) [
      | inr down ↦ subst IsSpread (ground (arith, e, down)) (
          send_batch-IsSpread net index v ps
            (record s { feedback = s.feedback ++ ((p, false) ∷ []) }) c (same-IsSpread refl refl h))
      | inl up ↦ elim (Bool-cases (send_fragments net p v true).0) [
        | inl lost ↦ subst IsSpread (ground (arith, e, up, lost)) (
            send_batch-IsSpread net index v ps
              (record s {
                delivered = s.delivered ++ (send_fragments net p v true).1;
                feedback = s.feedback ++ after_failure v p;
              })
              c (same-IsSpread refl refl h))
        | inr sent ↦
            subst IsSpread
              {x = record {
                peers = ps;
                suc_peer = p ∷ s.suc_peer;
                feedback = s.feedback ++ ((p, true) ∷ []);
                delivered = s.delivered ++ (send_fragments net p v true).1;
                reported = (index, p) ∷ s.reported;
              }}
              (ground (arith, e, up, sent))
              (record {
                distinct = ground (arith, h.distinct, h.known p);
                known = λ q k. ground (arith, h.known q);
                kept = λ q k. ground (arith, h.kept q);
                new_peer = λ q k. ground (arith, h.new_peer q, h.kept q);
                new_batch = λ i k. ground (arith, h.new_batch i);
              })
      ]
    ]
  ]

  send_groups-IsSpread :
      (net : Network) (g : Groups) (s : Transfer)
      → IsSpread s
      → IsSpread (send_groups net complete g s)
  unfolding send_groups
  send_groups-IsSpread net [] s h = h
  send_groups-IsSpread net ((index, v) ∷ g) s h = elim (Bool-cases (is_completed complete index)) [
    | inl e ↦ subst IsSpread (ground (arith, e)) (send_groups-IsSpread net g s h)
    | inr e ↦ subst IsSpread (ground (arith, e)) (
        send_groups-IsSpread net g (send_batch net index v s.peers s)
          (send_batch-IsSpread net index v s.peers s e h))
  ]

  fresh-IsSpread : (peers : List String) → IsSpread (fresh peers start)
  fresh-IsSpread peers = record {
    distinct = tt;
    known = λ p k. cc;
    kept = λ p k. k;
    new_peer = λ p k. cc;
    new_batch = λ i k. cc;
  }

-- A run that transfers begins with the peers of the completed batches.
run_of :
    (C : Chain) (net : Network) (order : Groups → Groups) (itor : Option (List String))
    (segment : List Segment) (complete : List CompleteInfo) (w : C.State) (t : Transfer)
    → (storage_data C net order itor segment complete w).0 ≡ transferred t
    → (peers : List String) × (g : Groups) × (send_groups net complete g
          (fresh peers (completed_peers C complete w).0)
        ≡ t)
unfolding storage_data
run_of C net order itor segment complete w t e = elim (Option-cases (data_group segment)) [
  | inl a ↦ absurd (ground (arith, a))
  | inr (g, a) ↦ elim (Option-cases itor) [
    | inl b ↦ absurd (ground (arith, a, b))
    | inr (peers, b) ↦ (peers, order g, ground (arith, a, b))
  ]
]

-- The chain, asked for the miners of the completed batches one after the other from the state `w` on,
-- names `p` as the peer of one of them.
pub data IsNamed (C : Chain) (p : String) : List CompleteInfo → C.State → Type 0 where
  first :
      (c : CompleteInfo) (cs : List CompleteInfo) (w : C.State)
      → (C.query_miner_items c.miner w).0 ≡ found p
      → IsNamed C p (c ∷ cs) w
  later :
      (c : CompleteInfo) (cs : List CompleteInfo) (w : C.State)
      → IsNamed C p cs (C.query_miner_items c.miner w).1
      → IsNamed C p (c ∷ cs) w

completed_peers-IsNamed :
    (C : Chain) (p : String) (complete : List CompleteInfo) (w : C.State)
    → IsNamed C p complete w
    → contains (completed_peers C complete w).0 p ≡ true
unfolding completed_peers
completed_peers-IsNamed C p _ _ (first c cs w e) = ground (arith, e)
completed_peers-IsNamed C p _ _ (later c cs w h) =
    let ih = completed_peers-IsNamed C p cs (C.query_miner_items c.miner w).1 h in
    elim (Reply-cases (C.query_miner_items c.miner w).0) [
      | inl (q, e) ↦ ground (arith, ih, e)
      | inr (inl e) ↦ ground (arith, ih, e)
      | inr (inr (x, e)) ↦ ground (arith, ih, e)
    ]

-- In whatever order the batches are taken, and whatever the network does: the peers that a run of
-- `storageData` reports batches for are distinct; none of them is a peer that the chain, asked for the
-- miners of the batches that it already had reports for, named; and no batch that the chain had a report
-- for is reported again. The peer of a miner whose query fails may be taken again.
pub storage_data_spread :
    (C : Chain) (net : Network) (order : Groups → Groups) (itor : Option (List String))
    (segment : List Segment) (complete : List CompleteInfo) (w : C.State) (t : Transfer)
    → (storage_data C net order itor segment complete w).0 ≡ transferred t
    → IsDistinct (reported_peers t.reported)
      × ((p : String) → contains (reported_peers t.reported) p ≡ true → ¬ (IsNamed C p complete w))
      × ((i : ℕ)
          → contains (reported_batches t.reported) i ≡ true
          → is_completed complete i ≡ false)
storage_data_spread C net order itor segment complete w t e =
    let (peers, g, q) = run_of C net order itor segment complete w t e in
    let before = (completed_peers C complete w).0 in
    let h = subst (IsSpread complete before) q (
      send_groups-IsSpread complete before net g (fresh peers before)
        (fresh-IsSpread complete before peers)) in
    (
      h.distinct,
      λ p k n.
          (let a = h.new_peer p k in let b = completed_peers-IsNamed C p complete w n in cc (a, b)),
      h.new_batch,
    )
