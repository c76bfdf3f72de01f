-- ===== src/Upload/Form.antt =====
-- The parts of a request that both upload handlers read: the file name, the form and the body.
use text.Mathlib.Text.{find?}
use de_oss.Base.{ℕ, String, Option, none, some, not, eqb, if◌then◌else◌}
use Prim.Native.String.{len}
use de_oss.Access.Library.{Bytes}
use de_oss.Chain.{Chain, PublicKey, found, empty, failed}
use de_oss.Http.{Action, Body, ok, done, status_ok, status_bad_request}

-- What `c.Request.FormFile("file")` gives: a file with its name, the error of a full disk, another
-- error, or `ErrNotMultipart`, with what `io.ReadAll` then reads of the body.
pub data Form : Type 0 where
  form_file : String → Bytes → Form
  disk_full : Form
  form_error : String → Form
  not_multipart : Bytes → Form

-- `if strings.Contains(filename, "%") { filename, err = url.PathUnescape(filename) }`
unfoldable pub unescape_name : {S : Type 0} → (String → Option String) → String → Action S String
unescape_name unescape name s = elim (find? name "%") [
  | none ↦ (ok name, s)
  | some _ ↦ elim (unescape name) [
    | none ↦ (
      done (record { status = status_bad_request; body = Body.text "unescape filename failed" }),
      s,
    )
    | some n ↦ (ok n, s)
  ]
]

-- `chain.FileHashLen + 2`
abbrev pub tx_hash_length : ℕ
tx_hash_length = 66

-- An error's text; `ERR_Empty` has its own.
abbrev pub create_bucket :
    (C : Chain) → {A : Type 0} → (String → Body) → PublicKey → String → Action C.State A
create_bucket C answer pkey bucket w =
    let (r, w') = C.create_bucket pkey bucket w in
    (
      elim r [
        | found tx ↦ done (record { status = status_ok; body = answer tx })
        | empty ↦ done (record { status = status_bad_request; body = Body.text "empty" })
        | failed e ↦ done (record { status = status_bad_request; body = Body.text e })
      ],
      w',
    )

abbrev pub bucket_or_exists : String → Body
bucket_or_exists tx =
    if not (eqb (len tx) tx_hash_length)
    then Body.text "bucket already exists"
    else Body.block_hash tx
