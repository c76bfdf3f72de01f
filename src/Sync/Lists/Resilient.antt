-- ===== src/Sync/Lists/Resilient.antt =====
-- Where an event of node/syncBlock.go ends up, under failures of the database.
use de_oss.Base.{
  ◌≡◌, ◌≢◌, ◌⊎◌, String, Bool, true, false, List, [], ◌∷◌, ◌++◌, Option, none, some, ◌<>◌,
  string_eq, contains, inl, inr, arith, Option-cases,
}
use de_oss.Base.Dict
use de_oss.Base.Dict.{Dict, lookup-insert}
use de_oss.Restore.List.{UserFiles}
use de_oss.Sync.Lists.{
  whole, Lists, EventFaults, only, and_file, save_to_file, extend, record_event,
}

-- Does the list under a name have the file?
abbrev pub has_file : {B : Type 0} → (B → Option UserFiles) → String → Option B → Bool
has_file decode hash o = elim o [
  | none ↦ false
  | some b ↦ elim (decode b) [ none ↦ false | some u ↦ contains u.files hash ]
]

module _ {B : Type 0} (encode : UserFiles → B) (decode : B → Option UserFiles)
    (round : (u : UserFiles) → decode (encode u) ≡ some u) (f : EventFaults B) where
  contains-last : (hash : String) (fs : List String) → contains (fs ++ (hash ∷ [])) hash ≡ true
  contains-last hash [] = ground arith
  contains-last hash (g ∷ fs) = ground (arith, contains-last hash fs)

  save_to_file-has_file :
      (owner hash : String) (d : Dict String B)
      → f.write ≡ whole
      → f.rename ≡ false
      → ((b : B) → Dict.lookup owner d ≡ some b → decode b ≢ none)
      → has_file decode hash (Dict.lookup owner (save_to_file encode decode f owner hash d)) ≡ true
  unfolding save_to_file
  save_to_file-has_file owner hash d w n ok = elim (Option-cases (Dict.lookup owner d)) [
    | inl e ↦ ground (
      arith,
      e,
      w,
      n,
      round (only owner hash),
      lookup-insert owner owner (encode (only owner hash)) d,
    )
    | inr (b, e) ↦ elim (Option-cases (decode b)) [
      | inl g ↦ absurd (ok b e g)
      | inr (u, g) ↦
          let moved = Dict.insert u.user b (Dict.erase owner d) in
          ground (
            arith,
            e,
            g,
            w,
            n,
            round (only owner hash),
            round (and_file u hash),
            contains-last hash u.files,
            lookup-insert owner owner (encode (only owner hash)) moved,
            lookup-insert owner owner (encode (and_file u hash)) d,
          )
    ]
  ]

  abbrev pub IsListed : String → String → String → Lists B → Type 0
  IsListed prefix owner hash s =
      (has_file decode hash (Dict.lookup (prefix <> owner) s.db) ≡ true)
      ⊎ (has_file decode hash (Dict.lookup owner s.dir) ≡ true)

  module _ (prefix owner hash : String) (w : f.write ≡ whole) (n : f.rename ≡ false) where
    extend-IsListed :
        (b : B) (s : Lists B)
        → ((c : B) → Dict.lookup owner s.dir ≡ some c → decode c ≢ none)
        → IsListed prefix owner hash (extend encode decode f prefix owner hash b s)
    unfolding extend
    extend-IsListed b s ok =
        let file = save_to_file-has_file owner hash s.dir w n ok in
        elim (Option-cases (decode b)) [
          | inl e ↦ ground (arith, e, file)
          | inr (u, e) ↦ ground (
            arith,
            e,
            file,
            round (and_file u hash),
            contains-last hash u.files,
            lookup-insert (prefix <> owner) (prefix <> owner) (encode (and_file u hash)) s.db,
          )
        ]

    -- After an event, the file is in the user's list in the database or in the one in the file system,
    -- whatever calls of the database fail, but for one case: if the user has no list in the database,
    -- its write must succeed. The file system does its part: its writes are whole, its renamings
    -- succeed, and the user's file, if there is one, can be decoded. `decode` reads what `encode` wrote.
    pub record_event-IsListed :
        (s : Lists B)
        → ((c : B) → Dict.lookup owner s.dir ≡ some c → decode c ≢ none)
        → (Dict.lookup (prefix <> owner) s.db ≡ none → f.put ≡ false)
        → IsListed prefix owner hash (record_event encode decode f prefix owner hash s)
    unfolding record_event
    record_event-IsListed s ok p =
        let file = save_to_file-has_file owner hash s.dir w n ok in
        elim (Option-cases (Dict.lookup (prefix <> owner) s.db)) [
          | inl e ↦ ground (
            arith,
            e,
            p e,
            file,
            round (only owner hash),
            lookup-insert (prefix <> owner) (prefix <> owner) (encode (only owner hash)) s.db,
          )
          | inr (b, e) ↦ ground (arith, e, file, extend-IsListed b s ok)
        ]
