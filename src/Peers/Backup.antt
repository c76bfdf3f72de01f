-- ===== src/Peers/Backup.antt =====
-- `BackupPeer`, `LoadPeer` and `GetAllPeerId` of node/record_peer.go.
use de_oss.Base.{
  ◌≡◌, ◌↔◌, ◌≤◌, ◌<◌, ◌+◌, refl, ℕ, suc, true, String, List, [], ◌∷◌, ◌++◌, none, some, arith,
  Bool-cases, Option-cases, inl, inr, length-append, string_eq, length, replicate, set, leb,
  length-replicate, length-set, sym, ap, set-append, append_one, ◌∙◌,
}
use de_oss.Base.Dict
use de_oss.Base.Dict.{Dict, NodupKeys, keys}
use de_oss.Access.Library.{Bytes}
use de_oss.Peers.{
  AddrInfo, PeerList, Codec, Write, Disk, object, insert_all, backup_peer, load_peer, get_peer,
  fill_ids, get_all_peer_id, entries_of,
}

pub lookup-insert_all :
    (k : String) (e d : Dict String AddrInfo)
    → NodupKeys e
    → Dict.lookup k (insert_all e d)
      ≡ elim (Dict.lookup k e) [ none ↦ Dict.lookup k d | some a ↦ some a ]
unfolding insert_all Dict.lookup
lookup-insert_all k [] d _ = refl
lookup-insert_all k ((j, a) ∷ e) d (fresh, u) =
    ground (arith, lookup-insert_all k e (Dict.insert j a d) u, Dict.lookup-insert k j a d)

pub insert_all-NodupKeys : (e d : Dict String AddrInfo) → NodupKeys d → NodupKeys (insert_all e d)
unfolding insert_all
insert_all-NodupKeys [] d u = u
insert_all-NodupKeys ((k, a) ∷ e) d u =
    insert_all-NodupKeys e (Dict.insert k a d) (Dict.insert-NodupKeys k a d u)

-- `b` is JSON for the map `d`: it is read as an object with the same entries, in some order.
abbrev pub IsJson : Codec → Dict String AddrInfo → Bytes → Type 0
IsJson json d b =
    (e : Dict String AddrInfo) × (json.unmarshal b ≡ object e true)
    × NodupKeys e
    × ((k : String) → Dict.lookup k e ≡ Dict.lookup k d)

-- `json.Unmarshal` reads what `json.Marshal` writes.
abbrev pub ReadsBack : Codec → Type 0
ReadsBack json =
    (d : Dict String AddrInfo) (b : Bytes)
    → NodupKeys d
    → json.marshal (some d) ≡ some b
    → IsJson json d b

-- What a gateway has backed up, another one loads: if both calls return without an error, then every
-- peer of the backup is found with its addresses, and any other peer as it was before the loading,
-- in a record that need not be empty. The write is whole if it returns no error, and `Unmarshal`
-- reads what `Marshal` writes.
pub backup_peer-load_peer :
    (json : Codec) (write : Bytes → Write) (path : String) (d e : Dict String AddrInfo)
    (disk : Disk)
    → NodupKeys d
    → ((b : Bytes) → (write b).success ≡ true → (write b).contents ≡ some b)
    → ReadsBack json
    → (backup_peer json write path (some d) disk).0 ≡ true
    → let after = load_peer json path (some e) (backup_peer json write path (some d) disk).1 in
      (after.0 ≡ true)
      × ((k : String)
          → get_peer k after.1
            ≡ elim (get_peer k (some d)) [ none ↦ get_peer k (some e) | some a ↦ some a ])
unfolding backup_peer load_peer get_peer
backup_peer-load_peer json write path d e disk u whole decoded ok =
    elim (Option-cases (json.marshal (some d))) [
      | inl n ↦ absurd (ground (arith, n))
      | inr (b, m) ↦
          let w = whole b (ground (arith, m)) in
          let (x, dec, fresh, same) = decoded d b u m in
          let found = Dict.lookup-insert path path b disk in
          (
            ground (arith, m, w, dec, found),
            λ k. ground (arith, m, w, dec, found, lookup-insert_all k x e fresh, same k),
          )
    ]

length-keys : (d : Dict String AddrInfo) → length (keys d) ≡ length d
unfolding keys
length-keys [] = refl
length-keys (_ ∷ d) = ap suc (length-keys d)

fill_ids_exact :
    (ks pre suf : List String)
    → length suf ≡ length ks
    → fill_ids ks (length pre) (pre ++ suf) ≡ some (pre ++ ks)
unfolding fill_ids
fill_ids_exact [] pre [] e = refl
fill_ids_exact [] pre (x ∷ suf) e = absurd (omega (arith, e))
fill_ids_exact (k ∷ ks) pre [] e = absurd (omega (arith, e))
fill_ids_exact (k ∷ ks) pre (x ∷ suf) e = ground (
  arith,
  set-append pre x k suf,
  append_one pre k ks,
  length-append pre (x ∷ suf),
  length-append pre (k ∷ []),
  fill_ids_exact ks (pre ++ k ∷ []) suf (omega (arith, e)),
)

fill_ids-none :
    (ks : List String) (i : ℕ) (r : List String)
    → i ≤ length r
    → (fill_ids ks i r ≡ none) ↔ (length r < i + length ks)
unfolding fill_ids
fill_ids-none [] i r h = ((λ e. absurd (ground arith)), (λ l. absurd (omega (arith, l, h))))
fill_ids-none (k ∷ ks) i r h = elim (Bool-cases (leb (length r) i)) [
  | inl b ↦ ((λ e. ground (arith, b, h)), (λ l. ground (arith, b)))
  | inr b ↦
      let rest = fill_ids-none ks (suc i) (set r i k) (ground (arith, length-set r i k, b)) in
      (
        (λ e. ground (arith, b, rest.0, length-set r i k, e)),
        (λ l. ground (arith, b, rest.1, length-set r i k, l)),
      )
]

-- `GetAllPeerId` returns the IDs of all peers when no peer is saved between its reading of the length
-- and its taking of the lock; in general it panics exactly if the map has grown in between.
pub get_all_peer_id_exact :
    (before p : PeerList)
    → (get_all_peer_id p p ≡ some (keys (entries_of p)))
      × ((get_all_peer_id before p ≡ none) ↔ (length (entries_of before) < length (entries_of p)))
unfolding get_all_peer_id
get_all_peer_id_exact before p =
    let d = entries_of p in
    let n = length (entries_of before) in
    let room = length-replicate {A = String} n "" in
    let none_iff = fill_ids-none (keys d) 0 (replicate n "") (omega arith) in
    (
      fill_ids_exact (keys d) [] (replicate (length d) "")
          (length-replicate {A = String} (length d) "" ∙ sym (length-keys d)),
      (
        (λ e. omega (arith, none_iff.0 e, length-keys d, room)),
        (λ l. none_iff.1 (omega (arith, l, length-keys d, room))),
      ),
    )
