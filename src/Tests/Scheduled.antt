-- ===== src/Tests/Scheduled.antt =====
-- The tasks on timers: node/taskMgt.go and node/sdkMgt.go.
use de_oss.Base.{◌≡◌, refl, ℕ, ◌+◌, true, false, [], ◌∷◌, string_eq, ◌==◌, if◌then◌else◌}
use de_oss.Chain.{found, empty}
use de_oss.Schedule.{Miners, has_storage_peer, sdk_mgt, block_tick}
use de_oss.Schedule.Refresh.{sdk_mgt-judged, judged, all_verdicts}

-- The storage node "a" has room and "b" has none, and the state counts the calls.
abbrev miners : Miners
miners = record {
  State = ℕ;
  query_all_miner = λ w. (found ("a" ∷ "b" ∷ "c" ∷ []), w + 1);
  query_miner_items = λ m w. (
    if m == "c"
        then empty
        else found (record { peer_id = m; idle_space = if m == "a" then 9 else 7 }),
    w + 1,
  );
  fragment_size = 8;
}

sdk_mgt-judged_example :
    has_storage_peer "b" (sdk_mgt miners 2 (("b", tt) ∷ []) 0).0
    ≡ judged
        (all_verdicts miners 2 (("b", tt) ∷ []) 0)
        (λ x. has_storage_peer x (("b", tt) ∷ []))
        "b"
sdk_mgt-judged_example = sdk_mgt-judged miners 2 (("b", tt) ∷ []) 0 "b"

released :
    block_tick true (record { count = 4319; chain_state = false })
    ≡ (true, record { count = 0; chain_state = true })
unfolding block_tick
released = refl
