-- ===== src/Tests/Discovered.antt =====
-- Discovered peers: node/record_peer.go.
use de_oss.Base.{
  ◌≡◌, ◌↔◌, ◌<◌, refl, inr, ap, sym, true, String, [], ◌∷◌, Option, none, some, arith, string_eq,
  ◌==◌, if◌then◌else◌, ◌&&◌,
}
use de_oss.Base.Dict
use de_oss.Base.Dict.{Dict, NodupKeys}
use de_oss.Access.Library.{Bytes}
use de_oss.Peers.{
  AddrInfo, Codec, Write, Decoded, invalid, object, save_peer, backup_peer, load_peer, get_peer,
  new_peer_record, get_all_peer_id,
}
use de_oss.Peers.Backup.{ReadsBack, backup_peer-load_peer, get_all_peer_id_exact}
use de_oss.Peers.Reach.{PeerState, start, next, save, backup, load, IsKept, Reach-IsKept}

abbrev peer : AddrInfo
peer = record { id = "p"; addrs = some [] }

abbrev other : AddrInfo
other = record { id = "q"; addrs = some ("tcp" ∷ []) }

abbrev known : Dict String AddrInfo
known = ("p", peer) ∷ []

-- A codec for the empty map and for `known`.
abbrev marshal_entries : Dict String AddrInfo → Option Bytes
marshal_entries [] = some []
marshal_entries ((k, a) ∷ []) = elim a.addrs [
  | some [] ↦ if k == "p" && a.id == "p" then some (1 ∷ []) else none
  | _ ↦ none
]
marshal_entries (_ ∷ _ ∷ _) = none

abbrev unmarshal_bytes : Bytes → Decoded
unmarshal_bytes [] = object [] true
unmarshal_bytes (_ ∷ []) = object known true
unmarshal_bytes (_ ∷ _ ∷ _) = invalid

abbrev codec : Codec
codec = record {
  marshal = λ p. elim p [ none ↦ none | some d ↦ marshal_entries d ];
  unmarshal = unmarshal_bytes;
}

codec-ReadsBack : ReadsBack codec
unfolding Dict.lookup
codec-ReadsBack [] b u e = ([], ground (arith, e), tt, λ k. refl)
codec-ReadsBack ((k, a) ∷ []) b u e =
    let key : k ≡ "p" = ground (arith, e) in
    let id : a.id ≡ "p" = ground (arith, e) in
    let addrs : a.addrs ≡ some [] = ground (arith, e) in
    let same : known ≡ (k, a) ∷ [] =
      λ i. (sym key i, record { id = sym id i; addrs = sym addrs i }) ∷ [] in
    (known, ground (arith, e), (refl, tt), λ j. ap (Dict.lookup j) same)
codec-ReadsBack (_ ∷ _ ∷ _) b u e = absurd (ground (arith, e))

abbrev write_all : Bytes → Write
write_all b = record { success = true; contents = some b }

backup_peer-load_peer_example :
    let after =
      load_peer codec "peers"
        (some (("q", other) ∷ []))
        (backup_peer codec write_all "peers" (some known) []).1 in
    (after.0 ≡ true)
    × ((k : String)
        → get_peer k after.1 ≡ elim (get_peer k (some known)) [
          | none ↦ get_peer k (some (("q", other) ∷ []))
          | some a ↦ some a
        ])
unfolding Dict.lookup string_eq backup_peer
backup_peer-load_peer_example =
    backup_peer-load_peer codec write_all "peers" known (("q", other) ∷ []) [] (refl, tt)
      (λ b h. refl) codec-ReadsBack refl

get_all_peer_id_exact_example :
    (get_all_peer_id (some known) (some known) ≡ some (Dict.keys known))
    × ((get_all_peer_id new_peer_record (some known) ≡ none) ↔ (0 < 1))
get_all_peer_id_exact_example = get_all_peer_id_exact new_peer_record (some known)

-- A peer is saved, backed up, and loaded again.
abbrev first : PeerState
first = record { peers = new_peer_record; disk = [] }

abbrev second : PeerState
second = record first { peers = (save_peer peer first.peers).1 }

abbrev third : PeerState
third = record second { disk = (backup_peer codec write_all "peers" second.peers second.disk).1 }

abbrev fourth : PeerState
fourth = record third { peers = (load_peer codec "peers" third.peers third.disk).1 }

Reach-IsKept_example : IsKept codec "peers" fourth
unfolding Dict.lookup
Reach-IsKept_example = Reach-IsKept codec "peers" fourth codec-ReadsBack (
    next (next (next (start [] refl) (save peer first)) (backup write_all second (λ b. inr refl)))
      (load third))
