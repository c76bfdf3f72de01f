-- ===== src/Tests/Chunked.antt =====
-- Uploads in chunks: node/putChunksHandle.go.
use de_oss.Base.{◌≡◌, ◌↔◌, ◌⊎◌, ◌<◌, refl, true, false, [], ◌∷◌, none, some, arith, string_eq}
use de_oss.Base.Dict
use native.Mathlib.Decide.{ℕ_discrete}
use de_oss.Chunks.Save.{ChunksInfo, chunk_info, chunk_file, named, entry_eq, SaveDir}
use de_oss.Chunks.Accept.{ChunkRequest, accept_chunk, assembled}
use de_oss.Chunks.Accept.Record.{IsProgress}
use de_oss.Chunks.Accept.Complete.{IsSmooth, full_dir, accept_chunk_complete}
use de_oss.Chunks.Expiry.{check_expired_files, is_expired, upload_limit, AccountDir}
use de_oss.Chunks.Expiry.Limit.{check_expired_files_exact, count_open, remove_if}
use de_oss.Http.{ok}
use de_oss.Tests.Sample.{library, no_faults}

-- Three chunks of two bytes, of which the one in the middle has come.
abbrev info : ChunksInfo
info = record {
  block_num = 3;
  saved_blocks = false ∷ true ∷ false ∷ [];
  finished = 1;
  saved_file_size = 2;
  file_name = "a.txt";
  total_size = 6;
  flush_time = 5;
}

abbrev dir : SaveDir
dir = (chunk_info, 0 ∷ []) ∷ (chunk_file 1, 3 ∷ 4 ∷ []) ∷ []

abbrev first : ChunkRequest
first = record { block_idx = 0; filename = "a.txt"; now = 9 }

-- Two chunks, of which the second has come.
abbrev late : ChunksInfo
late = record info { block_num = 2; saved_blocks = false ∷ true ∷ []; total_size = 4 }

late-IsProgress : IsProgress late dir
unfolding Dict.lookup entry_eq ℕ_discrete
late-IsProgress = record {
  blocks = refl;
  counted = refl;
  unfinished = omega arith;
  stored = (λ e. ground (arith, e), tt);
  sized = refl;
  fits = omega arith;
}

late-IsSmooth : IsSmooth library no_faults late first (1 ∷ 2 ∷ []) "a.txt"
late-IsSmooth = record {
  written = refl;
  created = refl;
  listed = refl;
  read = λ _. refl;
  plain_name = refl;
  no_index = refl;
  short_name = omega arith;
}

accept_chunk_complete_example : accept_chunk library no_faults late first (1 ∷ 2 ∷ []) dir ≡ (
  ok (assembled (1 ∷ 2 ∷ 3 ∷ 4 ∷ [])),
  Dict.insert
      (named "a.txt")
      (1 ∷ 2 ∷ 3 ∷ 4 ∷ [])
      (Dict.insert (named "a.txt") [] (full_dir library no_faults late first (1 ∷ 2 ∷ []) dir)),
)
unfolding Dict.lookup Dict.insert entry_eq ℕ_discrete
accept_chunk_complete_example =
    accept_chunk_complete library no_faults late first (1 ∷ 2 ∷ []) dir late-IsProgress refl refl
      "a.txt" late-IsSmooth (tt, (tt, tt)) (omega arith) (omega arith) (omega arith)

abbrev account : AccountDir
account = ("up", dir) ∷ []

check_expired_files_exact_example :
    let (r, t) = check_expired_files (λ _. none) (λ _. true) (λ _ _. none) 7 (some account) in
    ((r ≡ true) ↔ (count_open account < upload_limit))
    × ((r ≡ false)
        ⊎ (t ≡ some (remove_if (is_expired (λ _. none) (λ _. true) 7) (λ _ _. none) account)))
check_expired_files_exact_example =
    check_expired_files_exact (λ _. none) (λ _. true) (λ _ _. none) 7 account
