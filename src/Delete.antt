-- ===== src/Delete.antt =====
-- `delHandle` of node/delHandle.go: a file or a bucket is deleted.
pub mod Exact
use Prim.Native.String.{len}
use de_oss.Base.{
  ℕ, String, Option, none, some, Bool, true, false, eqb, ◌<>◌, string_eq, if◌then◌else◌,
}
use de_oss.Base.Dict
use de_oss.Base.Dict.{Dict}
use de_oss.Access.Library.{Crypto, Bytes}
use de_oss.Access.Params.{or_reply, error_text}
use de_oss.Access.Signature.{verify_account_signature}
use de_oss.Admission.{check_de_oss_status}
use de_oss.Chunks.Expiry.{AccountDir}
use de_oss.Chunks.Save.{SaveDir}
use de_oss.Chain.{Chain, PublicKey, Reply, found, empty, failed}
use de_oss.Http.{
  Action, Body, Outcome, ok, done, panic, ◌>>=◌, ◌>>◌, branch, reply, status_ok, status_bad_request,
}
use de_oss.Server.{Server, on_net}
use de_oss.Track.{delete_track_file}

-- The headers and the path's parameter.
pub record DeleteRequest : Type 0 where
  pub account : String
  pub message : String
  pub signature : String
  pub name : String

-- The server, and the database that the gateway also deletes from.
pub record Store (N K : Type 0) : Type 0 where
  pub server : Server N K
  pub db : Dict String Bytes

-- How the calls end whose errors are ignored: what `os.RemoveAll` leaves of the file's directory, `none`
-- being nothing, and whether `os.Remove` of the track file and the database's `Delete` succeed.
pub record DeleteFaults : Type 0 where
  pub removal : SaveDir → Option SaveDir
  pub remove_track : Bool
  pub delete_db : Bool

-- `os.RemoveAll` of the file's directory.
abbrev pub drop_dir :
    DeleteFaults → String → String → Dict String AccountDir → Dict String AccountDir
drop_dir f account name fs = elim (Dict.lookup account fs) [
  | none ↦ fs
  | some a ↦ elim (Dict.lookup name a) [
    | none ↦ fs
    | some d ↦
        Dict.insert account
          (elim (f.removal d) [ none ↦ Dict.erase name a | some left ↦ Dict.insert name left a ]) fs
  ]
]

-- `chain.FileHashLen`
abbrev pub file_hash_len : ℕ
file_hash_len = 64

module _ (C : Chain) {K : Type 0} (c : Crypto) (f : DeleteFaults) where
  abbrev pub on_server : {A : Type 0} → Action (Server C.State K) A → Action (Store C.State K) A
  on_server m s = let (r, t) = m s.server in (r, record s { server = t })

  -- A call of the chain; its error is answered with 400.
  abbrev or_bad_request : (C.State → Reply String × C.State) → Action (Store C.State K) String
  or_bad_request q = on_server (
      on_net (λ n.
        let (r, n') = q n in
        (
          elim r [
            | found tx ↦ ok tx
            | empty ↦ done (record { status = status_bad_request; body = Body.text "empty" })
            | failed e ↦ done (record { status = status_bad_request; body = Body.text e })
          ],
          n',
        )))

  -- What the gateway has of the file goes, as far as the calls succeed, once the chain has deleted it.
  abbrev pub forget_file : DeleteRequest → Store C.State K → Store C.State K
  forget_file r s = record {
    server = record s.server {
      files = drop_dir f r.account r.name s.server.files;
      track = if f.remove_track then delete_track_file r.name s.server.track else s.server.track;
    };
    db = if f.delete_db then Dict.erase ("transfer:" <> r.name) s.db else s.db;
  }

  unfoldable pub delete_file : DeleteRequest → PublicKey → Action (Store C.State K) (Unit {0})
  delete_file r pkey s =
      let (x, t) = or_bad_request (C.delete_file pkey r.name) s in
      elim x [
        | ok tx ↦ (done (record { status = status_ok; body = Body.text tx }), forget_file r t)
        | done y ↦ (done y, t)
        | panic ↦ (panic, t)
      ]

  unfoldable pub delete_bucket : DeleteRequest → PublicKey → Action (Store C.State K) (Unit {0})
  delete_bucket r pkey = do
    tx ← or_bad_request (C.delete_bucket pkey r.name)
    reply status_ok (Body.text tx)

  -- A name as long as a hash is a file's.
  unfoldable pub delete_named : DeleteRequest → PublicKey → Action (Store C.State K) (Unit {0})
  unfolding delete_file delete_bucket
  delete_named r pkey = branch (eqb (len r.name) file_hash_len) (delete_file r pkey) (
      branch (c.check_bucket_name r.name) (delete_bucket r pkey) (
        reply status_bad_request
          (Body.text "InvalidParameter.FileHash or InvalidParameter.BucketName")))

  unfoldable pub del_handle : DeleteRequest → Action (Store C.State K) (Unit {0})
  unfolding check_de_oss_status verify_account_signature delete_named
  del_handle r = do
    on_server (on_net (check_de_oss_status C))
    pkey ←
        or_reply (verify_account_signature c r.account r.message r.signature) status_bad_request
          (λ e. Body.text (error_text e))
    delete_named r pkey
