-- ===== src/Tracker/Storage/Report.antt =====
-- When a batch is reported as transferred.
use de_oss.Base.{
  ℕ, String, true, false, List, [], ◌∷◌, ◌++◌, ◌≡◌, contains, arith, string_eq, if◌then◌else◌, refl,
}
use de_oss.Tracker.Storage.{Network, Transfer, sends, send_fragments, send_batch}

-- The fragments that get through in ten attempts each.
abbrev pub arriving : Network → String → List String → List (String × String)
arriving net p [] = []
arriving net p (v ∷ vs) = if sends net p v then (p, v) ∷ arriving net p vs else arriving net p vs

send_fragments-false :
    (net : Network) (p : String) (vs : List String)
    → send_fragments net p vs false ≡ (false, arriving net p vs)
unfolding send_fragments
send_fragments-false net p [] = refl
send_fragments-false net p (v ∷ vs) = ground (arith, send_fragments-false net p vs)

-- Let the next peer be a new one that can be reached. The batch is reported as transferred to it as
-- soon as its first fragment gets through, whatever becomes of the others: of those just the ones
-- that get through in ten attempts are delivered.
pub send_batch_first_fragment :
    (net : Network) (index : ℕ) (v : String) (vs ps : List String) (p : String) (s : Transfer)
    → contains s.suc_peer p ≡ false
    → net.connect p ≡ true
    → sends net p v ≡ true
    → let t = send_batch net index (v ∷ vs) (p ∷ ps) s in
      (t.reported ≡ (index, p) ∷ s.reported)
      × (t.delivered ≡ s.delivered ++ ((p, v) ∷ arriving net p vs))
      × (t.peers ≡ ps)
unfolding send_batch send_fragments
send_batch_first_fragment net index v vs ps p s fresh up first =
    ground (arith, send_fragments-false net p vs)
