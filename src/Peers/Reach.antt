-- ===== src/Peers/Reach.antt =====
-- The peer record and its backup file, in all states that `SavePeer`, `BackupPeer` and `LoadPeer` of
-- node/record_peer.go reach together.
use de_oss.Base.{
  ◌≡◌, ◌≢◌, ◌⊎◌, inl, inr, refl, subst, String, List, [], none, some, arith, ◌==◌, string_eq,
  Bool-cases, Option-cases,
}
use de_oss.Base.Dict
use de_oss.Base.Dict.{Dict, NodupKeys}
use de_oss.Access.Library.{Bytes}
use de_oss.Peers.{
  AddrInfo, PeerList, Codec, Write, Disk, insert_all, save_peer, backup_peer, load_peer,
  new_peer_record,
}
use de_oss.Peers.Backup.{lookup-insert_all, insert_all-NodupKeys, IsJson, ReadsBack}

-- Every entry stands under its own ID, and has addresses.
pub record IsGood (d : Dict String AddrInfo) : Type 0 where
  pub distinct : NodupKeys d
  pub own : (k : String) (a : AddrInfo) → Dict.lookup k d ≡ some a → a.id ≡ k
  pub given : (k : String) (a : AddrInfo) → Dict.lookup k d ≡ some a → a.addrs ≢ none

pub record PeerState : Type 0 where
  pub peers : PeerList
  pub disk : Disk

-- A write that changes nothing, or is whole.
abbrev pub IsWhole : (Bytes → Write) → Type 0
IsWhole write = (b : Bytes) → ((write b).contents ≡ none) ⊎ ((write b).contents ≡ some b)

module _ (json : Codec) (path : String) where
  -- The calls, with the backup at one path.
  pub data Step : PeerState → PeerState → Type 0 where
    save : (a : AddrInfo) (s : PeerState) → Step s (record s { peers = (save_peer a s.peers).1 })
    backup :
        (write : Bytes → Write) (s : PeerState)
        → IsWhole write
        → Step s (record s { disk = (backup_peer json write path s.peers s.disk).1 })
    load : (s : PeerState) → Step s (record s { peers = (load_peer json path s.peers s.disk).1 })

  -- From the empty record, with no backup file.
  pub data Reach : PeerState → Type 0 where
    start :
        (disk : Disk)
        → Dict.lookup path disk ≡ none
        → Reach (record { peers = new_peer_record; disk = disk })
    next : {s t : PeerState} → Reach s → Step s t → Reach t

  pub record IsKept (s : PeerState) : Type 0 where
    pub memory : (d : Dict String AddrInfo) × (s.peers ≡ some d) × IsGood d
    pub file :
        (b : Bytes)
        → Dict.lookup path s.disk ≡ some b
        → (d : Dict String AddrInfo) × IsJson json d b × IsGood d

nil-IsGood : IsGood []
unfolding Dict.lookup
nil-IsGood = record { distinct = tt; own = λ k a e. ground arith; given = λ k a e. ground arith }

insert-IsGood :
    (a : AddrInfo) (d : Dict String AddrInfo) (l : List String)
    → a.addrs ≡ some l
    → IsGood d
    → IsGood (Dict.insert a.id a d)
insert-IsGood a d l e g = record {
  distinct = Dict.insert-NodupKeys a.id a d g.distinct;
  own = λ k b f. ground (arith, Dict.lookup-insert k a.id a d, f, g.own k b);
  given = λ k b f. ground (arith, Dict.lookup-insert k a.id a d, f, g.given k b, e);
}

insert_all-IsGood : (e d : Dict String AddrInfo) → IsGood e → IsGood d → IsGood (insert_all e d)
insert_all-IsGood e d h g = record {
  distinct = insert_all-NodupKeys e d g.distinct;
  own = λ k b f. ground (arith, lookup-insert_all k e d h.distinct, f, g.own k b, h.own k b);
  given = λ k b f. ground (arith, lookup-insert_all k e d h.distinct, f, g.given k b, h.given k b);
}

-- Entries in another order are as good.
same-IsGood :
    (e d : Dict String AddrInfo)
    → NodupKeys e
    → ((k : String) → Dict.lookup k e ≡ Dict.lookup k d)
    → IsGood d
    → IsGood e
same-IsGood e d u same g = record {
  distinct = u;
  own = λ k b f. g.own k b (ground (arith, same k, f));
  given = λ k b f. g.given k b (ground (arith, same k, f));
}

module _ (json : Codec) (path : String) where
  save_peer-IsKept :
      (a : AddrInfo) (s : PeerState)
      → IsKept json path s
      → IsKept json path (record s { peers = (save_peer a s.peers).1 })
  unfolding save_peer
  save_peer-IsKept a s k =
      let (d, m, g) = k.memory in
      record {
        memory = elim (Bool-cases (a.id == "")) [
          | inl e ↦ (d, ground (arith, e, m), g)
          | inr e ↦ elim (Option-cases a.addrs) [
            | inl n ↦ (d, ground (arith, e, m, n), g)
            | inr (l, n) ↦ (Dict.insert a.id a d, ground (arith, e, m, n), insert-IsGood a d l n g)
          ]
        ];
        file = k.file;
      }

  load_peer-IsKept :
      (s : PeerState)
      → IsKept json path s
      → IsKept json path (record s { peers = (load_peer json path s.peers s.disk).1 })
  unfolding load_peer
  load_peer-IsKept s k =
      let (d, m, g) = k.memory in
      record {
        memory = elim (Option-cases (Dict.lookup path s.disk)) [
          | inl n ↦ (d, ground (arith, n, m), g)
          | inr (b, f) ↦
              let (x, j, h) = k.file b f in
              let (e, dec, fresh, same) = j in
              (
                insert_all e d,
                ground (arith, f, m, dec),
                insert_all-IsGood e d (same-IsGood e x fresh same h) g,
              )
        ];
        file = k.file;
      }

  backup_peer-IsKept :
      ReadsBack json
      → (write : Bytes → Write) (s : PeerState) → IsWhole write
      → IsKept json path s
      → IsKept json path (record s { disk = (backup_peer json write path s.peers s.disk).1 })
  unfolding backup_peer
  backup_peer-IsKept reads write s whole k =
      let (d, m, g) = k.memory in
      record {
        memory = k.memory;
        file = λ b f. elim (Option-cases (json.marshal s.peers)) [
          | inl n ↦ k.file b (ground (arith, f, n))
          | inr (c, n) ↦ elim (whole c) [
            | inl u ↦ k.file b (ground (arith, f, n, u))
            | inr u ↦
                let same : c ≡ b = ground (arith, f, n, u, Dict.lookup-insert path path c s.disk) in
                (d, subst (IsJson json d) same (reads d c g.distinct (ground (arith, n, m))), g)
          ]
        ];
      }

  -- In every state that the record and its backup reach by saving, backing up and loading in any
  -- order: the map is not nil, no key occurs twice, every peer stands under its own ID and has
  -- addresses; and the backup, if there is one, holds such a map. Each write of the backup is whole
  -- or changes nothing, and `Unmarshal` reads what `Marshal` writes.
  pub Reach-IsKept : (s : PeerState) → ReadsBack json → Reach json path s → IsKept json path s
  Reach-IsKept _ reads (start disk absent) = record {
    memory = ([], refl, nil-IsGood);
    file = λ b f. absurd (ground (arith, absent, f));
  }
  Reach-IsKept _ reads (next r (save a s)) = save_peer-IsKept a s (Reach-IsKept s reads r)
  Reach-IsKept _ reads (next r (backup write s whole)) =
      backup_peer-IsKept reads write s whole (Reach-IsKept s reads r)
  Reach-IsKept _ reads (next r (load s)) = load_peer-IsKept s (Reach-IsKept s reads r)
