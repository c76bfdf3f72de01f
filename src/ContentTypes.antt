-- ===== src/ContentTypes.antt =====
-- The table of content types of node/contentType.go, a `sync.Map` that is filled at the start.
mod First
mod Second
mod Third
mod Fourth
use de_oss.Base.{String, List, ◌∷◌, Option, string_eq, []}
use de_oss.Base.Dict
use de_oss.Base.Dict.{Dict}
use de_oss.ContentTypes.First.{first_types}
use de_oss.ContentTypes.Second.{second_types}
use de_oss.ContentTypes.Third.{third_types}
use de_oss.ContentTypes.Fourth.{fourth_types}

-- The calls of `Store`, in order; a later one replaces an earlier one.
unfoldable pub store_all : List (String × String) → Dict String String → Dict String String
store_all [] d = d
store_all ((ext, ctype) ∷ l) d = store_all l (Dict.insert ext ctype d)

-- `contentType.Load`, after `init`.
unfoldable pub load_content_type : String → Option String
unfolding store_all
load_content_type ext = Dict.lookup ext (
    store_all fourth_types
      (store_all third_types (store_all second_types (store_all first_types []))))
