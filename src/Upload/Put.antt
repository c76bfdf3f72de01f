-- ===== src/Upload/Put.antt =====
-- `putHandle` of node/putHandle.go: a bucket is created, or a file uploaded in one request.
use Prim.Native.String.{len}
use de_oss.Base.{
  ℕ, ◌*◌, ◌/◌, ◌%◌, ◌-◌, String, Bool, [], ◌∷◌, Option, ltb, eqb, ◌==◌, string_eq, if◌then◌else◌,
}
use de_oss.Base.Word.{two_63, two_64}
use de_oss.Access.{AccessList}
use de_oss.Access.Library.{Crypto}
use de_oss.Access.Params.{UserParams, check_user_params}
use de_oss.Admission.{check_auth, check_space, check_capacity, check_de_oss_status, internal_error}
use de_oss.Chain.{Chain, PublicKey}
use de_oss.Chunks.Save.{named, Written, entry_eq}
use de_oss.Chunks.Accept.{write_entry}
use de_oss.Http.{
  Action, Body, done, ◌>>=◌, ◌>>◌, pure, reply_if, branch, status_ok, status_bad_request,
  status_forbidden, status_internal_server_error,
}
use de_oss.Server.{Server, on_net, on_dir}
use de_oss.Upload.Form.{
  Form, form_file, disk_full, form_error, not_multipart, unescape_name, create_bucket,
  bucket_or_exists,
}
use de_oss.Upload.Process.{Tools, ProcessFaults, file_process}

-- `contentLength*15/10` on `int64` patterns; division rounds towards zero.
unfoldable pub with_backup : ℕ → ℕ
with_backup n =
    let m = n * 15 % two_64 in
    if ltb m two_63 then m / 10 else (two_64 - (two_64 - m) / 10) % two_64

-- The request, and the names that `uuid.New()` and `time.Now()` give to its directory and file.
pub record PutRequest : Type 0 where
  pub params : UserParams
  pub content_length : ℕ
  pub form : Form
  pub dir : String
  pub time : String

-- How the calls of the operating system end.
pub record PutFaults : Type 0 where
  pub mem : Option ℕ
  pub free : Option ℕ
  pub mkdir : Bool
  pub write_file : Written
  pub process : ProcessFaults

-- `own` is the gateway's key, `max_name` is `sconfig.MaxBucketNameLength`.
module _ (C : Chain) {K : Type 0} (T : Tools K) (c : Crypto) (l : AccessList) (own : PublicKey)
    (unescape : String → Option String) (max_name : ℕ) (f : PutFaults) where
  -- The file goes to `fpath`: the file's name is the result.
  unfoldable pub receive_file : PutRequest → PublicKey → Action (Server C.State K) String
  unfolding write_entry unescape_name
  receive_file r pkey s = elim r.form [
    | disk_full ↦ (
      done (record {
        status = status_forbidden;
        body = Body.text "no space left on the server device";
      }),
      s,
    )
    | form_error e ↦ (done (record { status = status_bad_request; body = Body.text e }), s)
    | not_multipart buf ↦ elim buf [
      | [] ↦ on_net (create_bucket C Body.block_hash pkey r.params.bucket_name) s
      | x ∷ xs ↦
          (do
            on_dir r.params.account r.dir (write_entry f.write_file (named r.time) (x ∷ xs))
            pure "")
            s
    ]
    | form_file name content ↦
        (do
          filename ← unescape_name unescape name
          reply_if (ltb max_name (len filename)) status_bad_request
              (Body.text "The file name length cannot exceed 63 characters")
          on_dir r.params.account r.dir (write_entry f.write_file (named r.time) content)
          pure filename)
          s
  ]

  unfoldable pub upload_file : PutRequest → PublicKey → Action (Server C.State K) (Unit {0})
  unfolding check_space check_capacity receive_file file_process with_backup
  upload_file r pkey = do
    on_net (check_space C pkey (with_backup r.content_length) 30)
    check_capacity r.content_length f.mem f.free
    reply_if f.mkdir status_internal_server_error internal_error
    filename ← receive_file r pkey
    file_process C T f.process (record {
      filename = filename;
      bucket_name = r.params.bucket_name;
      account = r.params.account;
      dir = r.dir;
      file = named r.time;
      cipher = r.params.cipher;
      pkey = pkey;
    })

  -- A key of no bytes ends the request without a word. The wait for one of ten places is not modelled.
  unfoldable pub put_handle : PutRequest → Action (Server C.State K) (Unit {0})
  unfolding check_de_oss_status check_user_params check_auth upload_file
  put_handle r = do
    on_net (check_de_oss_status C)
    pkey ← check_user_params c l r.params
    reply_if (pkey == "") status_ok Body.nil
    on_net (check_auth C own pkey)
    branch (eqb r.content_length 0)
        (on_net (create_bucket C bucket_or_exists pkey r.params.bucket_name)) (upload_file r pkey)
