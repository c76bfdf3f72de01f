-- ===== src/Tests/Opened.antt =====
-- The opening of a file: node/open_file.go.
use de_oss.Base.{◌≡◌, ◌↔◌, refl, false, Bool, [], ◌∷◌, none, some, some_of, string_eq}
use de_oss.Download.Handle.{FileCache, panicked}
use de_oss.Download.Open.{Texts}
use de_oss.Download.Open.Handle.{Paths, open_file_handle}
use de_oss.Download.Open.Panics.{has_extension, open_file_handle-panicked_iff}
use de_oss.Tests.Fetching.{file, remote, sizes, disk, peers, site, cache}

-- No name has a dot.
abbrev texts : Texts
texts = record {
  split_dot = λ s. s ∷ [];
  to_lower = λ s. s;
  calc_md5 = λ _. "md5";
  length_of = λ _. "3";
  mtime = "2024-01-01 00:00:00";
}

abbrev paths : Paths
paths = record { cached = λ fid. fid; file = λ fid. fid; owner_copy = λ _ fid. fid }

-- The cache has every file.
abbrev full_cache : FileCache Bool
full_cache = record cache { get_cache_record = λ _ _. some (some (1 ∷ 2 ∷ 3 ∷ [])) }

open_file_handle-panicked_iff_example :
    ((open_file_handle remote texts paths full_cache sizes disk peers "own" "root"
        (λ _. none)
        (λ _. none)
        site).0
      ≡ panicked)
    ↔ (some_of (has_extension texts) file.owner ≡ false)
open_file_handle-panicked_iff_example =
    open_file_handle-panicked_iff remote texts paths full_cache sizes disk peers "own" "root"
      (λ _. none) (λ _. none) site file 1 (2 ∷ 3 ∷ []) refl refl refl refl
