-- ===== src/Server.antt =====
-- What the handlers change: the chain, the directories of the accounts, the track files, the file
-- cache, and the table `chunkReq`. Handlers of one part run on that part alone.
use de_oss.Base.{String, [], ◌∷◌, none, some, string_eq, ℕ}
use de_oss.Base.Dict
use de_oss.Base.Dict.{Dict}
use de_oss.Chunks.Save.{SaveDir}
use de_oss.Chunks.Expiry.{AccountDir}
use de_oss.Http.{Action}
use de_oss.Track.{TrackDir}

-- `N` is the state of the chain, `K` that of the file cache.
pub record Server (N K : Type 0) : Type 0 where
  pub net : N
  pub cache : K
  pub files : Dict String AccountDir
  pub track : TrackDir
  pub chunk_req : Dict String ℕ

-- `filepath.Join(n.GetDirs().FileDir, account)`
abbrev pub account_dir : String → Dict String AccountDir → AccountDir
account_dir account fs = elim (Dict.lookup account fs) [ none ↦ [] | some d ↦ d ]

abbrev pub save_dir : String → String → Dict String AccountDir → SaveDir
save_dir account name fs = elim (Dict.lookup name (account_dir account fs)) [
  | none ↦ []
  | some d ↦ d
]

abbrev pub put_dir : String → String → SaveDir → Dict String AccountDir → Dict String AccountDir
put_dir account name d fs = Dict.insert account (Dict.insert name d (account_dir account fs)) fs

-- `os.RemoveAll` of an upload's directory.
abbrev pub remove_dir : String → String → Dict String AccountDir → Dict String AccountDir
remove_dir account name fs = elim (Dict.lookup account fs) [
  | none ↦ fs
  | some a ↦ Dict.insert account (Dict.erase name a) fs
]

module _ {N K : Type 0} where
  abbrev pub on_net : {A : Type 0} → Action N A → Action (Server N K) A
  on_net m s = let (r, w) = m s.net in (r, record s { net = w })

  -- A handler of one upload's directory. An empty directory counts as one that is not there.
  abbrev pub on_dir : {A : Type 0} → String → String → Action SaveDir A → Action (Server N K) A
  on_dir account name m s =
      let (r, d) = m (save_dir account name s.files) in
      (
        r,
        record s {
          files = elim d [
            | [] ↦ remove_dir account name s.files
            | e ∷ es ↦ put_dir account name (e ∷ es) s.files
          ];
        },
      )
