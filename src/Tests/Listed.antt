-- ===== src/Tests/Listed.antt =====
-- Lists of files: node/syncBlock.go and node/getRestore.go.
use de_oss.Base.{
  if◌then◌else◌, eqb, ◌==◌, ◌≡◌, ◌≢◌, ◌↔◌, ◌≤◌, ◌<◌, ◌+◌, refl, ℕ, String, true, false, List, [],
  ◌∷◌, Option, none, some, arith, string_eq, contains, inr, length, ◌⊎◌,
}
use de_oss.Base.Dict
use de_oss.Sync.Lists.{Lists, EventFaults, whole, record_event}
use de_oss.Sync.Lists.Resilient.{IsListed, record_event-IsListed}
use de_oss.Sync.Block.{Codec, BlockFaults, Synced, FileEvent, WantFile, start_block, sync_block}
use de_oss.Sync.Block.Progress.{read_of, saved, sync_block-start_block}
use de_oss.Restore.List.{UserFiles, Records, restore_list, get_restore}
use de_oss.Restore.List.Exact.{restore_list-exact}
use de_oss.Restore.List.Panics.{get_restore-panic_iff}
use de_oss.Access.{access_control}
use de_oss.Access.Library.{accepted}
use de_oss.Access.Params.{UserParams, authenticate}
use de_oss.Access.Params.Laws.{IsCrash}
use de_oss.Chain.{PublicKey}
use de_oss.Http.{ok, panic}
use de_oss.Tests.Sample.{user, crypto, open_access}

abbrev files : List String → UserFiles
files fs = record { user = "alice"; files = fs }

abbrev deleted : List String
deleted = "b" ∷ []

-- Two files in the cache, one of them deleted.
abbrev records : Records
records = record {
  get = λ k. if k == "userfiles:alice" then some (1 ∷ []) else none;
  read_ufile = λ _. none;
  read_dfile = λ _. some (2 ∷ 3 ∷ []);
  decode = λ b. if eqb (length b) 1 then files ("a" ∷ "b" ∷ []) else files ("b" ∷ []);
}

abbrev answer : UserFiles
answer = files ("a" ∷ [])

restore_list-exact_example : (answer.user ≡ user) × (contains answer.files "a" ≡ true)
unfolding restore_list string_eq
restore_list-exact_example = restore_list-exact "alice" records answer "a" refl refl refl refl refl

abbrev alice : UserParams
alice = record {
  account = "alice";
  eth_account = "";
  message = "m";
  signature = "good";
  bucket_name = "";
  cipher = "";
}

abbrev request_state : ℕ
request_state = 7

get_restore-panic_iff_example :
    ((get_restore crypto open_access alice records request_state).0 ≡ panic) ↔ (
      (access_control crypto open_access "alice" ≡ accepted tt)
      × (IsCrash crypto alice
          ⊎ (((key : PublicKey) × ((authenticate crypto open_access alice request_state).0
                  ≡ ok key))
              × (deleted ≢ [])
              × (length deleted < 0))))
unfolding string_eq
get_restore-panic_iff_example = get_restore-panic_iff crypto open_access alice records request_state

-- What is stored: a list of files, a list of wanted files, or a number.
data Stored : Type 0 where
  listed : UserFiles → Stored
  wanted : List WantFile → Stored
  progress : ℕ → Stored

abbrev read_list : Stored → Option UserFiles
read_list (listed u) = some u
read_list _ = none

abbrev read_number : Stored → Option ℕ
read_number (progress n) = some n
read_number _ = none

abbrev read_wanted : Stored → Option (List WantFile)
read_wanted (wanted ws) = some ws
read_wanted _ = none

-- The database fails, and the file system does not.
abbrev db_fails : EventFaults Stored
db_fails = record { get_once = true; get_again = true; put = true; rename = false; write = whole }

abbrev lists : Lists Stored
lists = record {
  db = ("userfiles:alice", listed (files ("a" ∷ []))) ∷ [];
  dir = ("alice", listed (files ("c" ∷ []))) ∷ [];
}

record_event-IsListed_example :
    IsListed listed read_list
      (λ _. refl)
      db_fails
      "userfiles:"
      "alice"
      "b"
      (record_event listed read_list db_fails "userfiles:" "alice" "b" lists)
unfolding Dict.lookup string_eq
record_event-IsListed_example =
    record_event-IsListed listed read_list (λ _. refl) db_fails "userfiles:" "alice" "b" refl refl
      lists (λ c e n. ground (arith, e, n)) (λ e. absurd (ground (arith, e)))

abbrev codec : Codec Stored
codec = record {
  encode = listed;
  decode = read_list;
  encode_wants = wanted;
  decode_wants = read_wanted;
  itoa = progress;
}

abbrev block_faults : BlockFaults Stored
block_faults = record {
  event = λ _. db_fails;
  get_wants = false;
  put_wants = false;
  put_once = true;
  put_again = true;
  write_progress = false;
}

abbrev synced : Synced Stored
synced = record { db = []; ufiles = []; dfiles = []; retrieved = 300; progress_file = none }

abbrev events : List FileEvent
events = record { owner = "alice"; operator = "bob"; filehash = "b" } ∷ []

sync_block-start_block_example :
    let t = sync_block codec block_faults events [] synced in
    let r = read_of (Dict.lookup "syncblock" t.db) in
    300 + 1 ≤ start_block read_number r r (saved codec t)
sync_block-start_block_example =
    sync_block-start_block codec block_faults read_number events [] synced (λ _. refl) (omega arith)
      (inr (inr refl))
