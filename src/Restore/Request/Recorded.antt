-- ===== src/Restore/Request/Recorded.antt =====
-- The track files that `postRestoreHandle` of node/postRestore.go writes.
use de_oss.Base.{
  ◌⊎◌, sym, ◌≡◌, ◌≢◌, ℕ, String, true, List, [], ◌∷◌, some, contains, string_eq, arith,
  Option-cases, inl, inr,
}
use de_oss.Base.Dict
use de_oss.Chain.{PublicKey}
use de_oss.Track.{TrackDir, write_track_file}
use de_oss.Track.Atomic.{write_track_file-atomic}
use de_oss.Restore.Request.{Disk, restore_record, restore_files}

module _ (d : Disk) (pkey : PublicKey) (bucket hash : String) (n : ℕ) (s : d.size hash ≡ some n)
    (apart : (j : String) → hash ≢ d.tmp j) where
  same_record :
      (j : String) (m : ℕ)
      → hash ≡ j
      → d.size j ≡ some m
      → d.encode (restore_record pkey bucket j m) ≡ d.encode (restore_record pkey bucket hash n)
  same_record j m p e = let q : m ≡ n = ground (arith, p, e, s) in rw (sym p, q)

  -- One write, after which the record is there if it was, or if the file is the one and no call failed.
  write-keeps :
      (j : String) (m : ℕ) (t : TrackDir)
      → d.size j ≡ some m
      → let w =
          write_track_file (d.fault j) (d.tmp j) j (d.encode (restore_record pkey bucket j m)) t in
        (Dict.lookup hash t ≡ some (d.encode (restore_record pkey bucket hash n)))
          ⊎ ((w.0 ≡ true) × (hash ≡ j))
        → Dict.lookup hash w.1 ≡ some (d.encode (restore_record pkey bucket hash n))
  write-keeps j m t e h =
      let at =
        write_track_file-atomic (d.fault j) (d.tmp j) j (d.encode (restore_record pkey bucket j m))
          t hash (apart j) in
      elim (string_eq.dec hash j) [
        | yes p ↦ ground (arith, at, h, p, same_record j m p e)
        | no p ↦ ground (arith, at, h, p)
      ]

  -- A record that is there stays, or is written again.
  restore_files-keeps :
      (hs : List String) (t : TrackDir)
      → Dict.lookup hash t ≡ some (d.encode (restore_record pkey bucket hash n))
      → Dict.lookup hash (restore_files d pkey bucket hs t).1
        ≡ some (d.encode (restore_record pkey bucket hash n))
  unfolding restore_files
  restore_files-keeps [] t h = h
  restore_files-keeps (j ∷ hs) t h = elim (Option-cases (d.size j)) [
    | inl e ↦ ground (arith, e, restore_files-keeps hs t h)
    | inr (m, e) ↦
        let w =
          write_track_file (d.fault j) (d.tmp j) j (d.encode (restore_record pkey bucket j m)) t in
        ground (arith, e, restore_files-keeps hs w.1 (write-keeps j m t e (inl h)))
  ]

  -- If all the writes of a restoring succeed, every listed file that the gateway has gets a track file
  -- with its record, whatever the other files are. No temporary file is named like the file.
  pub restore_files-recorded :
      (hs : List String) (t : TrackDir)
      → (restore_files d pkey bucket hs t).0 ≡ true
      → contains hs hash ≡ true
      → Dict.lookup hash (restore_files d pkey bucket hs t).1
        ≡ some (d.encode (restore_record pkey bucket hash n))
  unfolding restore_files
  restore_files-recorded [] t r k = absurd (ground (arith, k))
  restore_files-recorded (j ∷ hs) t r k = elim (Option-cases (d.size j)) [
    | inl e ↦ ground (arith, e, s, k, r, restore_files-recorded hs t)
    | inr (m, e) ↦
        let w =
          write_track_file (d.fault j) (d.tmp j) j (d.encode (restore_record pkey bucket j m)) t in
        elim (string_eq.dec hash j) [
          | yes p ↦ ground (arith, e, r, restore_files-keeps hs w.1, write-keeps j m t e)
          | no p ↦ ground (arith, e, r, k, p, restore_files-recorded hs w.1)
        ]
  ]
