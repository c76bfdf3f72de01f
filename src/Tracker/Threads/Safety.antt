-- ===== src/Tracker/Threads/Safety.antt =====
-- The queue and the threads of node/tracker.go, under every interleaving.
use de_oss.Base.{
  IsDistinct, suc, ◌≤◌, ◌≡◌, refl, sym, ◌∙◌, String, Bool, true, false, List, [], ◌∷◌, arith,
}
use de_oss.Base.{length, if◌then◌else◌, contains, ◌==◌, string_eq}
use de_oss.Base.Dict
use de_oss.Base.Dict.{NodupKeys}
use de_oss.TrackQueue.{get_track_file_num}
use de_oss.TrackQueue.Laws.{IsBounded, add_track_file-IsBounded, del_track_file-IsBounded}
use de_oss.TrackQueue.Laws.{num-add_track_file, num-del_track_file}
use de_oss.TrackQueue.Laws.{member-add_track_file, member-del_track_file, add_track_file-added_iff}
use de_oss.Tracker.Threads.{Threads, visit, visit_all, remove, finish, Step, visits, finishes}
use de_oss.Tracker.Threads.{Reach, here, next, idle}

-- The queue holds exactly the names of the running threads.
pub record IsTracked (s : Threads) : Type 0 where
  pub bounded : IsBounded s.queue
  pub distinct : IsDistinct s.running
  pub agree : (fid : String) → contains s.running fid ≡ Dict.member fid s.queue
  pub counted : length s.running ≡ get_track_file_num s.queue

contains-remove :
    (fid other : String) (rs : List String)
    → IsDistinct rs
    → contains (remove fid rs) other ≡ (if other == fid then false else contains rs other)
unfolding remove
contains-remove fid other [] d = ground arith
contains-remove fid other (r ∷ rs) d = ground (arith, contains-remove fid other rs d.1)

remove-IsDistinct : (fid : String) (rs : List String) → IsDistinct rs → IsDistinct (remove fid rs)
unfolding remove
remove-IsDistinct fid [] d = tt
remove-IsDistinct fid (r ∷ rs) d =
    ground (arith, remove-IsDistinct fid rs d.1, contains-remove fid r rs d.1)

length-remove :
    (fid : String) (rs : List String)
    → contains rs fid ≡ true
    → suc (length (remove fid rs)) ≡ length rs
unfolding remove
length-remove fid [] h = ground arith
length-remove fid (r ∷ rs) h = ground (arith, length-remove fid rs)

-- A visit starts a thread, or it leaves the running ones as they are.
visit-IsTracked :
    (exists : String → Bool) (fid : String) (s : Threads)
    → IsTracked s
    → IsTracked (visit exists fid s)
unfolding visit
visit-IsTracked exists fid s h = record {
  bounded = let b = h.bounded in ground (arith, add_track_file-IsBounded fid s.queue b);
  distinct = ground (arith, h.distinct, h.agree fid, (add_track_file-added_iff fid s.queue).0);
  agree = λ other. ground (arith, h.agree other, member-add_track_file fid other s.queue);
  counted = let c = h.counted in ground (arith, num-add_track_file fid s.queue);
}

finish-IsTracked :
    (fid : String) (s : Threads)
    → contains s.running fid ≡ true
    → IsTracked s
    → IsTracked (finish fid s)
unfolding finish
finish-IsTracked fid s on h = record {
  bounded = del_track_file-IsBounded fid s.queue h.bounded;
  distinct = remove-IsDistinct fid s.running h.distinct;
  agree = λ other. ground (
    arith,
    h.agree other,
    member-del_track_file fid other s.queue,
    contains-remove fid other s.running h.distinct,
  );
  counted = omega (
    arith,
    h.counted,
    length-remove fid s.running on,
    num-del_track_file fid s.queue h.bounded.distinct (sym (h.agree fid) ∙ on),
  );
}

Step-IsTracked : {s t : Threads} → Step s t → IsTracked s → IsTracked t
Step-IsTracked {s} (visits exists fid e) h = rw e (visit-IsTracked exists fid s h)
Step-IsTracked {s} (finishes fid on e) h = rw e (finish-IsTracked fid s on h)

idle-IsTracked : IsTracked idle
unfolding get_track_file_num Dict.lookup
idle-IsTracked = record {
  bounded = record { distinct = tt; bounded = omega arith };
  distinct = tt;
  agree = λ fid. refl;
  counted = refl;
}

Reach-IsTracked : {s : Threads} → Reach idle s → IsTracked s
Reach-IsTracked here = idle-IsTracked
Reach-IsTracked (next r st) = Step-IsTracked st (Reach-IsTracked r)

-- In every state that the tracker reaches from its start, by visits of its loop and ends of its
-- threads in any order, no two threads run for one name, the queue holds a name exactly when a
-- thread runs for it, and at most ten threads run.
pub tracked_once :
    {s : Threads}
    → Reach idle s
    → IsDistinct s.running
      × ((fid : String) → Dict.member fid s.queue ≡ contains s.running fid)
      × (length s.running ≤ 10)
tracked_once r =
    let h = Reach-IsTracked r in
    (h.distinct, λ fid. sym (h.agree fid), (let b = h.bounded.bounded in omega (arith, h.counted)))

visit_all-IsTracked :
    (exists : String → Bool) (fids : List String) (s : Threads)
    → IsTracked s
    → IsTracked (visit_all exists fids s)
unfolding visit_all
visit_all-IsTracked exists [] s h = h
visit_all-IsTracked exists (fid ∷ fids) s h =
    visit_all-IsTracked exists fids (visit exists fid s) (visit-IsTracked exists fid s h)
