-- ===== src/Tracker/Threads.antt =====
-- `tracker` starts a thread for a listed file if `AddTrackFile` accepts its name; `trackFileThread`
-- takes the name out again when its file is done. The scheduler chooses the order of these steps:
-- between two iterations of the loop any running thread may end.
pub mod Safety
use de_oss.Base.{String, Bool, true, false, List, [], ◌∷◌, ◌≡◌, contains, ◌==◌, string_eq}
use de_oss.Base.{if◌then◌else◌}
use de_oss.TrackQueue.{TrackFiles, AddResult, added, add_track_file, del_track_file}

-- The queue, and the names that the running threads were started with.
pub record Threads : Type 0 where
  pub queue : TrackFiles
  pub running : List String

-- One iteration of `for _, v := range trackFiles`: is the file still there, and is its name taken?
unfoldable pub visit : (String → Bool) → String → Threads → Threads
visit exists fid s =
    if exists fid
    then (let (r, q) = add_track_file fid s.queue in
        elim r [
          | added ↦ record { queue = q; running = fid ∷ s.running }
          | _ ↦ record { queue = q; running = s.running }
        ])
    else s

-- The loop over the listed files, with no thread ending in between.
unfoldable pub visit_all : (String → Bool) → List String → Threads → Threads
visit_all exists [] s = s
visit_all exists (fid ∷ fids) s = visit_all exists fids (visit exists fid s)

-- One occurrence of the name leaves the list.
unfoldable pub remove : String → List String → List String
remove fid [] = []
remove fid (r ∷ rs) = if fid == r then rs else r ∷ remove fid rs

-- The deferred call of `trackFileThread`.
unfoldable pub finish : String → Threads → Threads
finish fid s = record { queue = del_track_file fid s.queue; running = remove fid s.running }

pub data Step (s : Threads) : Threads → Type 0 where
  visits : (exists : String → Bool) (fid : String) {t : Threads} → t ≡ visit exists fid s → Step s t
  finishes :
      (fid : String) {t : Threads} → contains s.running fid ≡ true → t ≡ finish fid s → Step s t

pub data Reach (s : Threads) : Threads → Type 0 where
  here : Reach s s
  next : {t u : Threads} → Reach s t → Step t u → Reach s u

-- `NewTeeRecord`, before any thread runs.
abbrev pub idle : Threads
idle = record { queue = []; running = [] }
