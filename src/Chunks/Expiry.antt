-- ===== src/Chunks/Expiry.antt =====
-- `checkExpiredFiles` of node/putChunksHandle.go: an account has fewer than ten open uploads, and those
-- that were not written to for a day are removed.
pub mod Limit
use de_oss.Base.{
  ℕ, suc, ◌+◌, ◌-◌, Bool, true, false, String, List, [], ◌∷◌, Option, none, some, leb, ◌==◌,
  string_eq, if◌then◌else◌,
}
use de_oss.Base.Dict
use de_oss.Base.Dict.{Dict}
use de_oss.Access.Library.{Bytes}
use de_oss.Chunks.Save.{ChunksInfo, chunk_info, entry_eq, SaveDir}

abbrev pub upload_limit : ℕ
upload_limit = 10

-- Seconds in `time.Hour * 24`; times are in seconds, and a flush time lies in the past.
abbrev pub day : ℕ
day = 86400

-- The directories of an account, in the order of `os.ReadDir`.
abbrev pub AccountDir : Type 0
AccountDir = Dict String SaveDir

abbrev pub is_open : SaveDir → Bool
is_open d = Dict.member chunk_info d

-- The record can be read and parsed, and is at least a day old. `readable` tells whether `os.ReadFile`
-- succeeds; an unreadable record counts as an upload, and stays.
abbrev pub is_expired : (Bytes → Option ChunksInfo) → (String → Bool) → ℕ → String × SaveDir → Bool
is_expired unmarshal readable now (name, d) = elim (Dict.lookup chunk_info d) [
  | none ↦ false
  | some b ↦
      if readable name
      then (elim (unmarshal b) [ none ↦ false | some i ↦ leb day (now - i.flush_time) ])
      else false
]

-- `removal` tells what `os.RemoveAll` leaves of a directory, `none` being nothing; its error is ignored.
module _ (unmarshal : Bytes → Option ChunksInfo) (readable : String → Bool)
    (removal : String → SaveDir → Option SaveDir) (now : ℕ) where
  -- What is left of a directory once its upload is looked at.
  abbrev kept : String × SaveDir → Option SaveDir
  kept (name, d) = if is_expired unmarshal readable now (name, d) then removal name d else some d

  -- The loop over the entries, after `count` open uploads: the result, and the directories left.
  unfoldable pub check_loop : ℕ → AccountDir → Bool × AccountDir
  check_loop count [] = (true, [])
  check_loop count (e ∷ es) = elim (is_open e.1) [
    | false ↦ let (r, t) = check_loop count es in (r, e ∷ t)
    | true ↦ elim (leb upload_limit (count + 1)) [
      | true ↦ (false, e ∷ es)
      | false ↦
          let (r, t) = check_loop (count + 1) es in
          (r, elim (kept e) [ none ↦ t | some d ↦ (e.0, d) ∷ t ])
    ]
  ]

  -- A directory that cannot be read counts as no uploads.
  unfoldable pub check_expired_files : Option AccountDir → Bool × Option AccountDir
  unfolding check_loop
  check_expired_files none = (true, none)
  check_expired_files (some es) = let (r, t) = check_loop 0 es in (r, some t)
