-- ===== src/Peers.antt =====
-- The peers that were discovered: `PeerRecordType` of node/record_peer.go. The lock is held around each
-- access to the map, so a method is one atomic function, but for `GetAllPeerId` and `LoadPeer`, which
-- also touch the map without it.
pub mod Backup
pub mod Reach
use de_oss.Base.{
  ℕ, suc, Bool, true, false, String, List, ◌∷◌, Option, none, some, length, replicate, set, leb,
  if◌then◌else◌, ◌==◌, string_eq, [],
}
use de_oss.Base.Dict
use de_oss.Base.Dict.{Dict}
use de_oss.Access.Library.{Bytes}

-- `peer.AddrInfo`, with the ID as text; `none` is the nil slice.
pub record AddrInfo : Type 0 where
  pub id : String
  pub addrs : Option (List String)

-- `map[string]peer.AddrInfo`; `none` is the nil map.
abbrev pub PeerList : Type 0
PeerList = Option (Dict String AddrInfo)

-- `NewPeerRecord`
abbrev pub new_peer_record : PeerList
new_peer_record = some []

-- A read of the nil map finds nothing.
abbrev pub entries_of : PeerList → Dict String AddrInfo
entries_of none = []
entries_of (some d) = d

-- `assigned_to_nil` is the panic of a write to the nil map.
pub data SaveResult : Type 0 where
  saved empty_id nil_addrs assigned_to_nil : SaveResult

unfoldable pub save_peer : AddrInfo → PeerList → SaveResult × PeerList
save_peer addr p = if addr.id == "" then (empty_id, p) else elim addr.addrs [
  | none ↦ (nil_addrs, p)
  | some _ ↦ elim p [
    | none ↦ (assigned_to_nil, none)
    | some d ↦ (saved, some (Dict.insert addr.id addr d))
  ]
]

unfoldable pub has_peer : String → PeerList → Bool
has_peer peerid p = Dict.member peerid (entries_of p)

unfoldable pub get_peer : String → PeerList → Option AddrInfo
get_peer peerid p = Dict.lookup peerid (entries_of p)

-- The loop of `GetAllPeerId` over the keys, from index `i`; `none` is an index out of range.
unfoldable pub fill_ids : List String → ℕ → List String → Option (List String)
fill_ids [] i result = some result
fill_ids (k ∷ ks) i result =
    if leb (length result) i then none else fill_ids ks (suc i) (set result i k)

-- The length is read before the lock is taken, so it may be that of another map, `before`.
unfoldable pub get_all_peer_id : PeerList → PeerList → Option (List String)
unfolding fill_ids
get_all_peer_id before p =
    fill_ids (Dict.keys (entries_of p)) 0 (replicate (length (entries_of before)) "")

-- What encoding/json makes of a file: a syntax error, `null`, or an object, whose entries are put
-- into the map up to the end also if one of them is of a wrong type (`false`).
pub data Decoded : Type 0 where
  invalid null : Decoded
  object : Dict String AddrInfo → Bool → Decoded

-- encoding/json, and what `sutils.WriteBufToFile` does to a file: the result, and the new contents,
-- if it is not as it was.
pub record Codec : Type 0 where
  pub marshal : PeerList → Option Bytes
  pub unmarshal : Bytes → Decoded

pub record Write : Type 0 where
  pub success : Bool
  pub contents : Option Bytes

abbrev pub Disk : Type 0
Disk = Dict String Bytes

-- An object is read into the map that is there.
unfoldable pub insert_all : Dict String AddrInfo → Dict String AddrInfo → Dict String AddrInfo
insert_all [] d = d
insert_all ((k, a) ∷ e) d = insert_all e (Dict.insert k a d)

module _ (json : Codec) where
  unfoldable pub backup_peer : (Bytes → Write) → String → PeerList → Disk → Bool × Disk
  backup_peer write path p disk = elim (json.marshal p) [
    | none ↦ (false, disk)
    | some buf ↦ (
      (write buf).success,
      elim (write buf).contents [ none ↦ disk | some b ↦ Dict.insert path b disk ],
    )
  ]

  -- `oldPeer` is the same map as `p.peerList`, so that putting it back takes away no entry; but a new
  -- map, made because the old one was nil, is dropped.
  unfoldable pub load_peer : String → PeerList → Disk → Bool × PeerList
  unfolding insert_all
  load_peer path p disk = elim (Dict.lookup path disk) [
    | none ↦ (false, p)
    | some buf ↦ elim (json.unmarshal buf) [
      | invalid ↦ (false, p)
      | null ↦ (true, none)
      | object e ok ↦ elim p [
        | none ↦ (ok, if ok then some (insert_all e []) else none)
        | some d ↦ (ok, some (insert_all e d))
      ]
    ]
  ]
