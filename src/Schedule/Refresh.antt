-- ===== src/Schedule/Refresh.antt =====
-- `refreshMiner` of node/taskMgt.go and the rounds of node/sdkMgt.go, as changes of a set of peers.
use de_oss.Base.{
  ◌≡◌, refl, ap, sym, ◌∙◌, ℕ, zero, suc, Bool, true, false, String, List, [], ◌∷◌, ◌++◌, leb,
  if◌then◌else◌, ◌==◌, string_eq, arith, inl, inr,
}
use de_oss.Base.Dict
use de_oss.Chain.{PublicKey, Reply-cases, found}
use de_oss.Schedule.{
  StoragePeers, MinerInfo, Miners, save_storage_peer, delete_storage_peer, has_storage_peer,
  refresh_each, refresh_miner, sdk_mgt,
}

-- The abstract view: which peers may be used.
abbrev pub PeerSet : Type 0
PeerSet = String → Bool

module _ (M : Miners) where
  -- What the chain's answers, in their order, say of the peers: may the peer be used?
  unfoldable pub verdicts : List PublicKey → M.State → List (String × Bool)
  verdicts [] w = []
  verdicts (m ∷ ms) w =
      let (r, w1) = M.query_miner_items m w in
      let rest = verdicts ms w1 in
      elim r [ found i ↦ (i.peer_id, leb M.fragment_size i.idle_space) ∷ rest | _ ↦ rest ]

-- The last verdict on a peer counts; a peer without one stays as it was.
unfoldable pub judged : List (String × Bool) → PeerSet → PeerSet
judged [] s peerid = s peerid
judged ((p, v) ∷ vs) s peerid = judged vs (λ q. if q == p then v else s q) peerid

judged-same :
    (vs : List (String × Bool)) (s t : PeerSet)
    → ((q : String) → s q ≡ t q)
    → (q : String) → judged vs s q ≡ judged vs t q
unfolding judged
judged-same [] s t e q = e q
judged-same ((p, v) ∷ vs) s t e q =
    judged-same vs (λ x. if x == p then v else s x) (λ x. if x == p then v else t x)
      (λ x. ap (λ b. if x == p then v else b) (e x)) q

judged-append :
    (us vs : List (String × Bool)) (s : PeerSet) (q : String)
    → judged (us ++ vs) s q ≡ judged vs (judged us s) q
unfolding judged
judged-append [] vs s q = refl
judged-append ((p, v) ∷ us) vs s q = judged-append us vs (λ x. if x == p then v else s x) q

-- The set that a map stands for.
abbrev pub set_of : StoragePeers → PeerSet
set_of p q = has_storage_peer q p

save_storage_peer-set :
    (p : String) (d : StoragePeers) (q : String)
    → set_of (save_storage_peer p d) q ≡ (if q == p then true else set_of d q)
unfolding has_storage_peer save_storage_peer
save_storage_peer-set p d q = ground (arith, Dict.lookup-insert q p tt d)

delete_storage_peer-set :
    (p : String) (d : StoragePeers) (q : String)
    → set_of (delete_storage_peer p d) q ≡ (if q == p then false else set_of d q)
unfolding has_storage_peer delete_storage_peer
delete_storage_peer-set p d q = ground (arith, Dict.lookup-erase q p d)

module _ (M : Miners) where
  -- One node's answer changes the map as its verdict changes the set.
  judge_one :
      (i : MinerInfo) (d : StoragePeers) (q : String)
      → set_of
          (if leb M.fragment_size i.idle_space
            then save_storage_peer i.peer_id d
            else delete_storage_peer i.peer_id d)
          q
        ≡ (if q == i.peer_id then leb M.fragment_size i.idle_space else set_of d q)
  judge_one i d q =
      ground (arith, save_storage_peer-set i.peer_id d q, delete_storage_peer-set i.peer_id d q)

  refresh_each-judged :
      (ms : List PublicKey) (d : StoragePeers) (w : M.State) (q : String)
      → set_of (refresh_each M ms d w).0 q ≡ judged (verdicts M ms w) (set_of d) q
  unfolding refresh_each verdicts judged
  refresh_each-judged [] d w q = refl
  refresh_each-judged (m ∷ ms) d w q =
      let t = M.query_miner_items m w in
      elim (Reply-cases t.0) [
        | inl (i, e) ↦
            let v = leb M.fragment_size i.idle_space in
            let d' = if v then save_storage_peer i.peer_id d else delete_storage_peer i.peer_id d in
            let rest =
              judged-same (verdicts M ms t.1) (set_of d')
                (λ x. if x == i.peer_id then v else set_of d x) (judge_one i d) q in
            ground (arith, e, refresh_each-judged ms d' t.1 q, rest)
        | inr (inl e) ↦ ground (arith, e, refresh_each-judged ms d t.1 q)
        | inr (inr (x, e)) ↦ ground (arith, e, refresh_each-judged ms d t.1 q)
      ]

  -- The verdicts of one round, and of `n` rounds, of which each goes on where the one before ended.
  unfoldable pub round_verdicts : M.State → List (String × Bool)
  unfolding verdicts
  round_verdicts w =
      let (r, w1) = M.query_all_miner w in elim r [ found ms ↦ verdicts M ms w1 | _ ↦ [] ]

  unfoldable pub all_verdicts : ℕ → StoragePeers → M.State → List (String × Bool)
  unfolding round_verdicts
  all_verdicts zero d w = []
  all_verdicts (suc n) d w =
      round_verdicts w ++ all_verdicts n (refresh_miner M d w).0 (refresh_miner M d w).1

  refresh_miner-judged :
      (d : StoragePeers) (w : M.State) (q : String)
      → set_of (refresh_miner M d w).0 q ≡ judged (round_verdicts w) (set_of d) q
  unfolding refresh_miner round_verdicts judged
  refresh_miner-judged d w q =
      let t = M.query_all_miner w in
      elim (Reply-cases t.0) [
        | inl (ms, e) ↦ ground (arith, e, refresh_each-judged ms d t.1 q)
        | inr (inl e) ↦ ground (arith, e)
        | inr (inr (x, e)) ↦ ground (arith, e)
      ]

  -- The map of storage peers implements a set: after any number of minutes of `sdkMgt`, a peer may be
  -- used exactly if the chain's last answer for a node with this peer gave it room for a fragment, or,
  -- if there was no such answer, if it could be used before; calls that fail change nothing.
  pub sdk_mgt-judged :
      (n : ℕ) (d : StoragePeers) (w : M.State) (q : String)
      → has_storage_peer q (sdk_mgt M n d w).0
        ≡ judged (all_verdicts n d w) (λ x. has_storage_peer x d) q
  unfolding sdk_mgt all_verdicts judged
  sdk_mgt-judged zero d w q = refl
  sdk_mgt-judged (suc n) d w q =
      let t = refresh_miner M d w in
      sdk_mgt-judged n t.0 t.1 q
      ∙ judged-same (all_verdicts n t.0 t.1) (set_of t.0) (judged (round_verdicts w) (set_of d))
          (refresh_miner-judged d w) q
      ∙ sym (judged-append (round_verdicts w) (all_verdicts n t.0 t.1) (set_of d) q)
