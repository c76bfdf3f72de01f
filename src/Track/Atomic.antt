-- ===== src/Track/Atomic.antt =====
-- Lemmas on `WriteTrackFile` of node/node.go.
use de_oss.Base.{◌≡◌, ◌≢◌, String, some, string_eq, ◌==◌, ◌&&◌, if◌then◌else◌, arith}
use de_oss.Base.Dict
use de_oss.Base.Dict.{lookup-insert, lookup-erase}
use de_oss.Access.Library.{Bytes}
use de_oss.Track.{
  TrackDir, WriteFault, no_create, no_write, no_rename, no_fault, replace_file, write_track_file,
}

replace_file_lem :
    (o : WriteFault) (tmp hash : String) (content : Bytes) (t : TrackDir) (name : String)
    → name ≢ tmp
    → let (r, t') = replace_file o tmp hash content t in
      Dict.lookup name t' ≡ (if r && (name == hash) then some content else Dict.lookup name t)
replace_file_lem no_create tmp hash content t name ne = ground (arith, ne, lookup-erase name tmp t)
replace_file_lem (no_write p) tmp hash content t name ne =
    let a = Dict.erase tmp t in
    ground (
      arith,
      ne,
      lookup-erase name tmp (Dict.insert tmp p a),
      lookup-insert name tmp p a,
      lookup-erase name tmp t,
    )
replace_file_lem no_rename tmp hash content t name ne =
    let a = Dict.erase tmp t in
    ground (
      arith,
      ne,
      lookup-erase name tmp (Dict.insert tmp content a),
      lookup-insert name tmp content a,
      lookup-erase name tmp t,
    )
replace_file_lem no_fault tmp hash content t name ne =
    let a = Dict.erase tmp t in
    let b = Dict.erase tmp (Dict.insert tmp content a) in
    ground (
      arith,
      ne,
      lookup-erase name tmp (Dict.insert hash content b),
      lookup-insert name hash content b,
      lookup-erase name tmp (Dict.insert tmp content a),
      lookup-insert name tmp content a,
      lookup-erase name tmp t,
    )

-- Whatever call fails, a write changes no track file but the one it is for, and that one is either
-- what it was, if an error is returned, or has the whole new content, if none is. `tmp` is the name of
-- the temporary file, which is the only other name that may change.
pub write_track_file-atomic :
    (o : WriteFault) (tmp hash : String) (content : Bytes) (t : TrackDir) (name : String)
    → name ≢ tmp
    → let (r, t') = write_track_file o tmp hash content t in
      Dict.lookup name t' ≡ (if r && (name == hash) then some content else Dict.lookup name t)
unfolding write_track_file
write_track_file-atomic o tmp hash content t name ne =
    ground (arith, replace_file_lem o tmp hash content t name ne)
