-- ===== src/Tests/Restoring.antt =====
-- Restoring files: node/postRestore.go.
use de_oss.Base.{◌≡◌, refl, [], ◌∷◌, none, some, arith, string_eq, if◌then◌else◌, ◌==◌}
use text.Mathlib.TextEquality.{eq_iff}
use de_oss.Base.Dict
use de_oss.Track.{no_fault}
use de_oss.Restore.Request.{Disk, restore_files}
use de_oss.Restore.Request.Recorded.{restore_files-recorded}
use de_oss.Tests.Sample.{hash, record_bytes}

abbrev disk : Disk
disk = record {
  size = λ name. if name == hash then some 3 else none;
  fault = λ _. no_fault;
  tmp = λ _. "tmp";
  encode = λ _. record_bytes;
  segment_size = 1024;
}

restore_files-recorded_example :
    Dict.lookup hash (restore_files disk "alice" "bucket" (hash ∷ "gone" ∷ []) []).1
    ≡ some record_bytes
unfolding restore_files string_eq
restore_files-recorded_example =
    restore_files-recorded disk "alice" "bucket" hash 3 refl
      (λ _. ground (arith, eq_iff hash "tmp")) (hash ∷ "gone" ∷ []) [] refl refl
