-- ===== src/TrackQueue/Laws.antt =====
-- Lemmas on the methods of inter/trackfile.go.
use de_oss.Base.{◌≤◌, ◌<◌, ◌≡◌, String, true, false, none, arith}
use de_oss.Base.{suc, if◌then◌else◌, ◌==◌, string_eq, ◌↔◌}
use de_oss.Base.Dict
use de_oss.Base.Dict.{NodupKeys}
use de_oss.TrackQueue.{TrackFiles, max_track_thread, added}
use de_oss.TrackQueue.{add_track_file, get_track_file_num, del_track_file}

-- What every method keeps: no name twice, and no more than `MaxTrackThread` names.
pub record IsBounded (t : TrackFiles) : Type 0 where
  pub distinct : NodupKeys t
  pub bounded : get_track_file_num t ≤ max_track_thread

pub add_track_file-IsBounded :
    (fid : String) (t : TrackFiles) → IsBounded t → IsBounded (add_track_file fid t).1
unfolding add_track_file get_track_file_num
add_track_file-IsBounded fid t b =
    let d = b.distinct in
    ground (arith, Dict.insert-NodupKeys fid tt t d, Dict.length-insert_new fid tt t)

pub del_track_file-IsBounded :
    (fid : String) (t : TrackFiles) → IsBounded t → IsBounded (del_track_file fid t)
unfolding del_track_file get_track_file_num
del_track_file-IsBounded fid t b = record {
  distinct = Dict.erase-NodupKeys fid t b.distinct;
  bounded = let h = b.bounded in omega (arith, Dict.length-erase-le fid t);
}

-- `AddTrackFile` succeeds exactly when fewer names than the limit are tracked and the name is new.
pub add_track_file-added_iff :
    (fid : String) (t : TrackFiles)
    → ((add_track_file fid t).0 ≡ added)
      ↔ ((get_track_file_num t < max_track_thread) × (Dict.lookup fid t ≡ none))
unfolding add_track_file get_track_file_num
add_track_file-added_iff fid t = (λ h. ground arith, λ h. ground arith)

-- Which names a call of each method leaves in the set.
pub member-add_track_file :
    (fid other : String) (t : TrackFiles)
    → Dict.member other (add_track_file fid t).1 ≡ (elim (add_track_file fid t).0 [
      | added ↦ if other == fid then true else Dict.member other t
      | _ ↦ Dict.member other t
    ])
unfolding add_track_file
member-add_track_file fid other t = ground (arith, Dict.lookup-insert other fid tt t)

pub member-del_track_file :
    (fid other : String) (t : TrackFiles)
    → Dict.member other (del_track_file fid t)
      ≡ (if other == fid then false else Dict.member other t)
unfolding del_track_file
member-del_track_file fid other t = ground (arith, Dict.lookup-erase other fid t)

pub num-add_track_file :
    (fid : String) (t : TrackFiles)
    → get_track_file_num (add_track_file fid t).1 ≡ (elim (add_track_file fid t).0 [
      | added ↦ suc (get_track_file_num t)
      | _ ↦ get_track_file_num t
    ])
unfolding add_track_file get_track_file_num
num-add_track_file fid t = ground (arith, Dict.length-insert_new fid tt t)

pub num-del_track_file :
    (fid : String) (t : TrackFiles)
    → NodupKeys t
    → Dict.member fid t ≡ true
    → suc (get_track_file_num (del_track_file fid t)) ≡ get_track_file_num t
unfolding del_track_file get_track_file_num
num-del_track_file fid t d h = Dict.length-erase_present fid t d (ground arith)
