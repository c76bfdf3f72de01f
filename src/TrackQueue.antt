-- ===== src/TrackQueue.antt =====
-- The bounded set of files that are being tracked: `TrackFileType` of inter/trackfile.go. Each method
-- holds the lock from its first access to its last, so it is one atomic function of the map.
pub mod Laws
use de_oss.Base.{ℕ, String, length, leb, if◌then◌else◌, string_eq}
use de_oss.Base.Dict
use de_oss.Base.Dict.{Dict}

-- `configs.MaxTrackThread`
abbrev pub max_track_thread : ℕ
max_track_thread = 10

-- `map[string]struct{}`
abbrev pub TrackFiles : Type 0
TrackFiles = Dict String (Unit {0})

-- The two errors of `AddTrackFile`, and `nil`.
pub data AddResult : Type 0 where
  added queue_full already_in_track : AddResult

unfoldable pub add_track_file : String → TrackFiles → AddResult × TrackFiles
add_track_file fid t =
    if leb max_track_thread (length t)
    then (queue_full, t)
    else if Dict.member fid t
    then (already_in_track, t)
    else (added, Dict.insert fid tt t)

unfoldable pub get_track_file_num : TrackFiles → ℕ
get_track_file_num t = length t

unfoldable pub del_track_file : String → TrackFiles → TrackFiles
del_track_file fid t = Dict.erase fid t
