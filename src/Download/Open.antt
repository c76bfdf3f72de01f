-- ===== src/Download/Open.antt =====
-- The names, types and headers with which `openFileHandle` of node/open_file.go answers.
pub mod Handle
pub mod Panics
use de_oss.Base.{
  ℕ, Bool, String, List, ◌∷◌, Option, none, some, contains, not, if◌then◌else◌, ◌==◌, string_eq,
  ◌<>◌, ◌&&◌, [],
}
use de_oss.Base.Dict
use de_oss.Access.Library.{Bytes}
use de_oss.ContentTypes.{load_content_type}
use de_oss.Download.{OwnerMeta}
use de_oss.Download.Handle.{
  Answer, json, attachment, data_with, Ending, returned, panicked, Download, answer,
}

-- What Go's `strings`, `time` and `fmt` and the SDK do with names, times and sizes; `mtime` is the
-- time of the file that is served. `sutils.CalcMD5` is given its path.
pub record Texts : Type 0 where
  pub split_dot : String → List String
  pub to_lower : String → String
  pub calc_md5 : String → String
  pub length_of : Bytes → String
  pub mtime : String

abbrev pub octet_stream : String
octet_stream = "application/octet-stream"

abbrev pub media : List String
media =
    ".mp4" ∷ ".mov" ∷ ".avi" ∷ ".asf" ∷ ".asx" ∷ ".rm" ∷ ".rmvb" ∷ ".3gp" ∷ ".m4v" ∷ ".wmv" ∷ ".mkv"
    ∷ ".flv" ∷ ".f4v" ∷ ".vob" ∷ ".mpeg" ∷ ".wav" ∷ ".flac" ∷ ".ape" ∷ ".alac" ∷ ".wv" ∷ ".mp3"
    ∷ ".aac" ∷ ".wma" ∷ ".mp2" ∷ ".ra" ∷ ".midi" ∷ ".cda" ∷ ".m4a" ∷ []

-- `fname`, `fext` and `contenttype`; `none` is the nil interface.
pub record Named : Type 0 where
  pub fname : String
  pub fext : String
  pub content_type : Option String

abbrev pub unnamed : Named
unnamed = record { fname = ""; fext = ""; content_type = none }

abbrev pub last_of : String → List String → String
last_of x [] = x
last_of x (y ∷ l) = last_of y l

-- What is known when the file is opened, or the answer.
pub data Opening : Type 0 where
  refused_with : Answer → Opening
  opened : ℕ → Bool → Named → Opening

module _ (X : Texts) where
  -- A name with no dot gives no type.
  unfoldable pub named : OwnerMeta → Named → Named
  unfolding load_content_type
  named o n = elim (X.split_dot o.file_name) [
    | x ∷ y ∷ l ↦
        let fext = "." <> last_of y l in
        record {
          fname = o.file_name;
          fext = fext;
          content_type =
              some
                (elim (load_content_type (X.to_lower fext)) [ none ↦ octet_stream | some t ↦ t ]);
        }
    | _ ↦ record n { fname = o.file_name }
  ]

  -- The loop over the owners.
  unfoldable pub named_by : List OwnerMeta → Named → Named
  unfolding named
  named_by [] n = n
  named_by (o ∷ os) n = named_by os (named o n)

  -- The single owner of an order has a type in any case.
  unfoldable pub named_order : OwnerMeta → Named
  unfolding named
  named_order o =
      let n = named o unnamed in
      elim n.content_type [ none ↦ record n { content_type = some octet_stream } | some _ ↦ n ]

  abbrev pub video_and_audio_header : String → List (String × String)
  video_and_audio_header fname =
      ("Accept-ranges", "bytes")
      ∷ ("Access-control-allow-headers", "Content-Type")
      ∷ ("Access-control-allow-headers", "Range")
      ∷ ("Access-control-allow-headers", "User-Agent")
      ∷ ("Access-control-allow-headers", "X-Request-With")
      ∷ ("Accept-control-allow-methods", "GET")
      ∷ ("Accept-control-allow-origin", "*")
      ∷ ("Accept-control-expose-headers", "Content-Range")
      ∷ ("Accept-control-expose-headers", "X-Chunked-Output")
      ∷ ("Accept-control-expose-headers", "X-Stream-Output")
      ∷ ("Cache-control", "public, max-age=29030400, immutable")
      ∷ ("Content-disposition", "inline; filename=" <> fname)
      ∷ ("last-modified", X.mtime)
      ∷ []

  abbrev pub other_header : String → String → List (String × String)
  other_header fname md5 =
      ("Accept-ranges", "bytes")
      ∷ ("Accept-control-allow-origin", "*")
      ∷ ("Cache-control", "public, max-age=2592000, no-transform, immutable")
      ∷ ("Content-disposition", "inline; filename=" <> fname)
      ∷ ("content-md5", md5)
      ∷ ("last-modified", X.mtime)
      ∷ []

  -- From the `Content-length` to `c.Data`, for the file at `path`, where `size` is what `os.Stat` found
  -- there and `b` what `os.ReadFile` returns. The headers stay set when another answer is given.
  unfoldable pub show :
      {W : Type 0} → Named → String → Bytes → Option Bytes → Download W → Ending × Download W
  show n path size b s =
      let fext = X.to_lower n.fext in
      if not (contains media fext) && fext == octet_stream
      then (returned, answer (attachment n.fname) s)
      else elim b [
        | none ↦ (returned, answer (json 500 "try again later") s)
        | some content ↦ elim n.content_type [
          | none ↦ (panicked, s)
          | some t ↦ (
            returned,
            answer
                (data_with
                  (("Content-length", X.length_of size)
                    ∷ (if contains media fext
                        then video_and_audio_header n.fname
                        else other_header n.fname (X.calc_md5 path)))
                  t content)
                s,
          )
        ]
      ]
