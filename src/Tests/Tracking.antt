-- ===== src/Tests/Tracking.antt =====
-- Tracking: inter/trackfile.go and node/tracker.go.
use de_oss.Base.{
  List, IsDistinct, ◌==◌, ◌≡◌, ◌↔◌, ◌≤◌, ◌<◌, ◌++◌, refl, ℕ, String, true, false, [], ◌∷◌, none,
  some, arith, string_eq, nat_eq, contains, length,
}
use text.Mathlib.TextEquality.{eq_iff}
use de_oss.Base.Dict
use de_oss.Chain.{Segment, CompleteInfo}
use de_oss.Track.{no_fault}
use de_oss.TrackQueue.{TrackFiles, add_track_file, get_track_file_num, max_track_thread, added}
use de_oss.TrackQueue.Laws.{add_track_file-added_iff}
use de_oss.Tracker.Threads.{Threads, visit, here, next, visits, idle}
use de_oss.Tracker.Threads.Safety.{tracked_once}
use de_oss.Tracker.Storage.{Network, Transfer, fresh, send_batch, sends, storage_data, is_completed}
use de_oss.Tracker.Storage.Report.{send_batch_first_fragment, arriving}
use de_oss.Tracker.Storage.Peers.{IsNamed, storage_data_spread, reported_peers, reported_batches}
use de_oss.Tracker.Follow.{Outside, Tracking, track_file}
use de_oss.Tracker.Follow.Deletes.{IsSafe, track_file-IsSafe}
use de_oss.Upload.Process.{not_cut}
use de_oss.Tests.Sample.{chain, hash, record_bytes}

abbrev no_files : TrackFiles
no_files = []

add_track_file-added_iff_example :
    ((add_track_file "a" no_files).0 ≡ added)
    ↔ ((get_track_file_num no_files < max_track_thread) × (Dict.lookup "a" no_files ≡ none))
add_track_file-added_iff_example = add_track_file-added_iff "a" no_files

abbrev one : Threads
one = visit (λ _. true) "a" idle

tracked_once_example :
    IsDistinct one.running
    × ((fid : String) → Dict.member fid one.queue ≡ contains one.running fid)
    × (length one.running ≤ 10)
tracked_once_example = tracked_once {s = one} (next here (visits (λ _. true) "a" refl))

-- The fragment "f" always gets through, and no other.
abbrev network : Network
network = record { connect = λ _. true; write_file = λ _ fragment _. fragment == "f" }

send_batch_first_fragment_example :
    let t = send_batch network 1 ("f" ∷ "g" ∷ []) ("p" ∷ []) (fresh [] []) in
    (t.reported ≡ (1, "p") ∷ [])
    × (t.delivered ≡ [] ++ (("p", "f") ∷ arriving network "p" ("g" ∷ [])))
    × (t.peers ≡ [])
unfolding sends string_eq
send_batch_first_fragment_example =
    send_batch_first_fragment network 1 "f" ("g" ∷ []) [] "p" (fresh [] []) refl refl refl

abbrev segment : Segment
segment = record { segment_hash = "s"; fragment_hash = "f" ∷ "f" ∷ [] }

-- The first batch is on the miner "p" already.
abbrev complete : List CompleteInfo
complete = record { index = 1; miner = "p" } ∷ []

abbrev reported : Transfer
reported = record {
  peers = [];
  suc_peer = "q" ∷ "p" ∷ [];
  feedback = ("q", true) ∷ [];
  delivered = ("q", "f") ∷ [];
  reported = (2, "q") ∷ [];
}

storage_data_spread_example :
    IsDistinct (reported_peers reported.reported)
    × ((p : String)
        → contains (reported_peers reported.reported) p ≡ true
        → ¬ (IsNamed chain p complete 0))
    × ((i : ℕ)
        → contains (reported_batches reported.reported) i ≡ true
        → is_completed complete i ≡ false)
unfolding storage_data string_eq nat_eq Dict.lookup Dict.insert
storage_data_spread_example =
    storage_data_spread chain network (λ g. g) (some ("p" ∷ "q" ∷ [])) (segment ∷ []) complete 0
      reported refl

abbrev outside : Outside
outside = record {
  encode = λ _. record_bytes;
  decode = λ _. none;
  dir = λ path. path;
  join = λ a _. a;
  file_dir = "files";
  reshard = λ _. not_cut "error";
  network = network;
  peers = none;
  order = λ g. g;
}

abbrev tracking : Tracking ℕ
tracking = record { net = 0; track = (hash, record_bytes) ∷ []; calls = [] }

track_file-IsSafe_example :
    IsSafe chain outside "gateway" no_fault "tmp" hash record_bytes tracking.net
      (track_file chain outside "gateway" no_fault "tmp" hash tracking)
unfolding Dict.lookup string_eq
track_file-IsSafe_example =
    track_file-IsSafe chain outside "gateway" no_fault "tmp" hash record_bytes tracking
      (ground (arith, eq_iff hash "tmp")) refl
