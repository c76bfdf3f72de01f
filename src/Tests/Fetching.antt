-- ===== src/Tests/Fetching.antt =====
-- Downloads: node/getHandle.go and node/download_file.go.
use de_oss.Base.{
  ◌≡◌, ◌≢◌, ◌⊎◌, refl, true, false, Bool, String, List, [], ◌∷◌, Option, none, some, arith,
  string_eq, ◌==◌, if◌then◌else◌, length, contains, ◌||◌,
}
use text.Mathlib.TextEquality.{eq_iff}
use de_oss.Base.Dict
use de_oss.Base.Dict.{Dict}
use de_oss.Access.Library.{Bytes}
use de_oss.Chain.{found, empty}
use de_oss.Peers.{AddrInfo, PeerList}
use de_oss.Download.{FileMetadata, Remote, Sizes, Files, Site}
use de_oss.Download.Fetch.{fetch_files, user_file, not_fetched, take}
use de_oss.Download.Fetch.Parts.{segment_hashes, Agrees, Delivers, IsCoded}
use de_oss.Download.Fetch.Exact.{joined}
use de_oss.Download.Fetch.Whole.{fetch_files_exact, fetch_files_stale}
use de_oss.Download.Handle.{
  FileCache, returned, Download, download_file_handle, answer, being_stored, order_under_way,
}
use de_oss.Download.Get.{get_download}
use de_oss.Download.Answers.{download_file_handle_answers}
use de_oss.Download.Same.{get_download-download_file_handle}

-- A file of three bytes in two segments of two, each with one fragment.
abbrev parts : List String
parts = "f1" ∷ "f2" ∷ "s1" ∷ "s2" ∷ []

abbrev Part : String → Type 0
Part h = contains parts h ≡ true

abbrev content : String → Bytes
content h =
    if h == "f1" || h == "s1"
    then 1 ∷ 2 ∷ []
    else if h == "f2" || h == "s2"
    then 3 ∷ 0 ∷ []
    else 0 ∷ 0 ∷ []

abbrev pub file : FileMetadata
file = record {
  completion = 100;
  state = 0;
  owner = record { user = "key"; file_name = "notes"; bucket_name = "bucket" } ∷ [];
  file_size = 3;
  segments =
      record { hash = "s1"; fragments = record { hash = "f1"; avail = true; miner = "m" } ∷ [] }
      ∷ record { hash = "s2"; fragments = record { hash = "f2"; avail = true; miner = "m" } ∷ [] }
      ∷ [];
}

abbrev restore : List (Option Bytes) → Option Bytes
restore (some b ∷ []) = some b
restore _ = none

-- The chain answers for the file while the state is `true`, and one storage node has all fragments.
abbrev pub remote : Remote
remote = record {
  State = Bool;
  query_file = λ _ w. (if w then found file else empty, w);
  query_deal_map = λ _ w. (
    found (record {
      user = record { user = "key"; file_name = "notes"; bucket_name = "bucket" };
      file_size = 3;
    }),
    w,
  );
  query_bucket = λ _ _ w. (empty, w);
  query_all_bucket_name = λ _ w. (empty, w);
  query_all_oss_peer_id = λ w. ([], w);
  query_miner_items = λ _ w. (found "peer", w);
  connect = λ _ w. (true, w);
  read_data_action = λ _ _ _ w. (record { success = false; contents = none }, w);
  read_file_action = λ _ _ h w. (record { success = true; contents = some (content h) }, w);
  rs_restore = restore;
  encode_account = λ key. some key;
  base58_encode = λ id. id;
}

abbrev pub sizes : Sizes
sizes = record { fragment_size = 2; segment_size = 2; shards = 1 }

abbrev pub disk : Files
disk = record { creates = λ _. true; reads = λ _. true; written = λ b. b; capacity = length }

abbrev node : AddrInfo
node = record { id = "peer"; addrs = some [] }

abbrev pub peers : PeerList
peers = some (("peer", node) ∷ [])

abbrev pub site : Site Bool
site = record { files = []; world = true }

abbrev pub cache : FileCache Bool
cache = record {
  get_cache_record = λ _ _. none;
  reads = λ _ _. true;
  remove = λ _ w. w;
  move_file_to_cache = λ fid s. (true, record s { files = Dict.erase fid s.files });
}

apart : (h : String) → Part h → h ≢ "root"
apart h p e =
    ground (arith, eq_iff "root" "f1", eq_iff "root" "f2", eq_iff "root" "s1", eq_iff "root" "s2")

remote-Delivers : Delivers content remote sizes disk
unfolding string_eq
remote-Delivers = record {
  whole = λ b. refl;
  zeros = refl;
  fragment = λ peer root h w b e. ground (arith, e);
}

restores_one :
    (f h : String) (l : List (Option Bytes)) (b : Bytes)
    → content f ≡ content h
    → Agrees content l (f ∷ [])
    → restore l ≡ some b
    → b ≡ content h
restores_one f h (some c ∷ []) b same a e = ground (arith, e, a.0 c, same)
restores_one f h (none ∷ []) b same a e = absurd (ground (arith, e))
restores_one f h [] b same a e = elim a [ ]
restores_one f h (o ∷ p ∷ l) b same a e = elim a.1 [ ]

segment-IsCoded :
    (f h : String)
    → Part f
    → Part h
    → f ≢ ""
    → content f ≡ content h
    → IsCoded content remote sizes Part "root"
        (record { hash = h; fragments = record { hash = f; avail = true; miner = "m" } ∷ [] })
segment-IsCoded f h p q given same = record {
  complete = refl;
  named = q;
  each = λ g k. (ground (arith, p, k), ground (arith, given, k));
  restores = λ l b a e. restores_one f h l b same a e;
}

fetch_files_exact_example :
    Dict.lookup "root" (fetch_files remote sizes disk peers "root" (λ _. none) site).1.files
    ≡ some (take 3 (joined content (segment_hashes file.segments)))
unfolding Dict.lookup string_eq fetch_files Dict.insert
fetch_files_exact_example =
    fetch_files_exact content remote sizes disk peers "root" Part apart (λ _. none) file site "root"
      remote-Delivers
      (
        segment-IsCoded "f1" "s1" refl refl (ground (arith, eq_iff "f1" "")) refl,
        (segment-IsCoded "f2" "s2" refl refl (ground (arith, eq_iff "f2" "")) refl, tt),
      )
      ((refl, refl), ((refl, refl), tt)) (λ name b p e. ground (arith, e)) refl refl refl
      (omega arith) (omega arith) (omega arith) refl

abbrev lost_site : Site Bool
lost_site = record { files = []; world = false }

fetch_files_stale_example :
    let after = (fetch_files remote sizes disk peers "root" (λ _. none) lost_site).1 in
    ((fetch_files remote sizes disk peers "root" (λ _. none) lost_site).0 ≡ not_fetched)
    × (Dict.lookup "root" after.files ≡ some [])
    × (fetch_files remote sizes disk peers "root" (λ _. none) after ≡ (user_file "root", after))
unfolding Dict.lookup
fetch_files_stale_example =
    fetch_files_stale remote sizes disk peers "root" (λ _. none) lost_site refl refl
      (λ m e. ground (arith, e))

download_file_handle_answers_example :
    length
      (download_file_handle remote cache sizes disk peers "own" "root" (λ _. none) site).1.answers
    ≡ 2
unfolding Dict.lookup string_eq download_file_handle Dict.insert
download_file_handle_answers_example =
    download_file_handle_answers remote cache sizes disk peers "own" "root" (λ _. none) site refl

get_download-download_file_handle_example :
    let d = download_file_handle remote cache sizes disk peers "own" "root" (λ _. none) lost_site in
    let g = get_download remote cache sizes disk peers "own" "root" (λ _. none) lost_site in
    (g ≡ d)
    ⊎ ((t : Download Bool) × (d ≡ (returned, answer being_stored t))
        × (g ≡ (returned, answer order_under_way t)))
get_download-download_file_handle_example =
    get_download-download_file_handle remote cache sizes disk peers "own" "root" (λ _. none)
      lost_site
