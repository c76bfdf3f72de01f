-- ===== src/Schedule.antt =====
-- The storage nodes that the gateway may use, and the tasks that run on a timer: the maps of
-- node/node.go, and node/taskMgt.go and node/sdkMgt.go. Each access to a map holds its lock.
pub mod Refresh
use de_oss.Base.{
  ℕ, zero, suc, ◌+◌, ◌/◌, Bool, true, false, String, List, ◌∷◌, Option, none, some, leb, ltb,
  if◌then◌else◌, string_eq, [],
}
use de_oss.Base.Dict
use de_oss.Base.Dict.{Dict}
use de_oss.Base.Word.{two_64}
use de_oss.Chain.{PublicKey, Reply, found}

-- `storagePeers` and `blacklist` of `Node`.
abbrev pub StoragePeers : Type 0
StoragePeers = Dict String (Unit {0})

abbrev pub Blacklist : Type 0
Blacklist = Dict String ℕ

unfoldable pub save_storage_peer : String → StoragePeers → StoragePeers
save_storage_peer peerid p = Dict.insert peerid tt p

unfoldable pub delete_storage_peer : String → StoragePeers → StoragePeers
delete_storage_peer peerid p = Dict.erase peerid p

unfoldable pub has_storage_peer : String → StoragePeers → Bool
has_storage_peer peerid p = Dict.member peerid p

-- The order is that of the map's iteration.
unfoldable pub get_all_storage_peer_id : StoragePeers → List String
get_all_storage_peer_id p = Dict.keys p

unfoldable pub has_blacklist : String → Blacklist → Option ℕ
has_blacklist peerid b = Dict.lookup peerid b

-- `now` is `time.Now().Unix()`. The time of a peer that is listed already stays.
unfoldable pub add_to_blacklist : ℕ → String → Blacklist → Blacklist
add_to_blacklist now peerid b = if Dict.member peerid b then b else Dict.insert peerid now b

unfoldable pub del_from_blacklist : String → Blacklist → Blacklist
del_from_blacklist peerid b = Dict.erase peerid b

-- What the chain knows of a storage node: its peer, in base58, and its idle space in 64 bits.
pub record MinerInfo : Type 0 where
  pub peer_id : String
  pub idle_space : ℕ

-- The calls of the SDK.
pub record Miners : Type 1 where
  pub State : Type 0
  pub query_all_miner : State → Reply (List PublicKey) × State
  pub query_miner_items : PublicKey → State → Reply MinerInfo × State
  pub fragment_size : ℕ

module _ (M : Miners) where
  -- The loop over the storage nodes.
  unfoldable pub refresh_each : List PublicKey → StoragePeers → M.State → StoragePeers × M.State
  unfolding save_storage_peer delete_storage_peer
  refresh_each [] p w = (p, w)
  refresh_each (m ∷ ms) p w =
      let (r, w1) = M.query_miner_items m w in
      elim r [
        | found i ↦
            refresh_each ms
              (if leb M.fragment_size i.idle_space
                then save_storage_peer i.peer_id p
                else delete_storage_peer i.peer_id p)
              w1
        | _ ↦ refresh_each ms p w1
      ]

  unfoldable pub refresh_miner : StoragePeers → M.State → StoragePeers × M.State
  unfolding refresh_each
  refresh_miner p w =
      let (r, w1) = M.query_all_miner w in elim r [ found ms ↦ refresh_each ms p w1 | _ ↦ (p, w1) ]

  -- `n` minutes of `sdkMgt`.
  unfoldable pub sdk_mgt : ℕ → StoragePeers → M.State → StoragePeers × M.State
  unfolding refresh_miner
  sdk_mgt zero p w = (p, w)
  sdk_mgt (suc n) p w = let (q, w1) = refresh_miner p w in sdk_mgt n q w1

-- What `TaskMgt` keeps: the count of its ticks, and the state of the connection.
pub record Tasks : Type 0 where
  pub count : ℕ
  pub chain_state : Bool

abbrev pub release_count : ℕ
release_count = 4320

-- One tick of `task_block`; the answer is whether `ClearBlackList` is called.
unfoldable pub block_tick : Bool → Tasks → Bool × Tasks
block_tick rpc t =
    if leb release_count (t.count + 1)
    then (true, record { count = 0; chain_state = rpc })
    else (false, record { count = t.count + 1; chain_state = rpc })

-- What the chain has of the gateway's account: its free balance as a number, if the field is not
-- empty. A quotient beyond 64 bits is cut to the largest number.
unfoldable pub balances_of : ℕ → Option ℕ → ℕ
balances_of least none = 0
balances_of least (some free) =
    let n = free / least in if ltb n two_64 then n else 18446744073709551615

-- `refreshSelf`; the answer is whether it returns without an error, with the new balances.
unfoldable pub refresh_self : ℕ → Reply (Option ℕ) → ℕ → Bool × ℕ
unfolding balances_of
refresh_self least r balances = elim r [
  | found free ↦ (true, balances_of least free)
  | _ ↦ (false, balances)
]
