-- ===== src/Download/Open/Panics.antt =====
-- When `openFileHandle` of node/open_file.go panics.
use de_oss.Base.{
  ◌≡◌, ◌≢◌, ◌↔◌, refl, ap, sym, ◌∙◌, ℕ, Bool, true, false, String, List, [], ◌∷◌, Option, none,
  some, some_of, string_eq, arith,
}
use text.Mathlib.TextEquality.{eq_iff}
use de_oss.Access.Library.{Bytes}
use de_oss.Chain.{found}
use de_oss.Peers.{PeerList}
use de_oss.Download.{OwnerMeta, FileMetadata, Remote, Sizes, Files, Site}
use de_oss.Download.Handle.{panicked, FileCache, Download}
use de_oss.Download.Open.{Texts, Named, unnamed, named, named_by, octet_stream, show}
use de_oss.Download.Open.Handle.{Paths, open_record, open_file_handle}

module _ (X : Texts) where
  -- Is there a dot in the name?
  abbrev pub has_extension : OwnerMeta → Bool
  has_extension o = elim (X.split_dot o.file_name) [ x ∷ y ∷ l ↦ true | _ ↦ false ]

  -- The type and the extension are those of an owner's name, if one has an extension.
  named_by-untyped :
      (os : List OwnerMeta) (n : Named)
      → some_of has_extension os ≡ false
      → ((named_by X os n).content_type ≡ n.content_type) × ((named_by X os n).fext ≡ n.fext)
  unfolding named_by named
  named_by-untyped [] n h = (refl, refl)
  named_by-untyped (o ∷ os) n h =
      let rest = named_by-untyped os (named X o n) (ground (arith, h)) in
      (ground (arith, h, rest.0), ground (arith, h, rest.1))

  named_by-keeps :
      (os : List OwnerMeta) (n : Named)
      → (named_by X os n).content_type ≡ none
      → n.content_type ≡ none
  unfolding named_by named
  named_by-keeps [] n e = e
  named_by-keeps (o ∷ os) n e = let rest = named_by-keeps os (named X o n) e in ground (arith, rest)

  named_by-typed :
      (os : List OwnerMeta) (n : Named)
      → (named_by X os n).content_type ≡ none
      → some_of has_extension os ≡ false
  unfolding named_by named
  named_by-typed [] n e = refl
  named_by-typed (o ∷ os) n e =
      let rest = named_by-typed os (named X o n) e in
      let kept = named_by-keeps os (named X o n) e in ground (arith, rest, kept)

  -- With a content that can be read, `show` panics exactly if there is no type.
  show-panicked :
      {W : Type 0} (n : Named) (path : String) (size content : Bytes) (s : Download W)
      → (show X n path size (some content) s).0 ≡ panicked
      → n.content_type ≡ none
  unfolding show
  show-panicked n path size content s e = ground (arith, e)

  show-untyped :
      {W : Type 0} (n : Named) (path : String) (size content : Bytes) (s : Download W)
      → n.content_type ≡ none
      → X.to_lower n.fext ≢ octet_stream
      → show X n path size (some content) s ≡ (panicked, s)
  unfolding show
  show-untyped n path size content s e h = ground (arith, e, h)

module _ (R : Remote) (X : Texts) (paths : Paths) (cache : FileCache R.State) (sizes : Sizes)
    (os : Files) (peers : PeerList) (own_id fid : String) (owned left : String → Option Bytes) where
  -- Opening a stored file that the cache has panics exactly if no owner has given the file a name with
  -- a dot: the content type is then nil. The cached file can be read, and the empty text in lower
  -- case is empty.
  pub open_file_handle-panicked_iff :
      (site : Site R.State) (m : FileMetadata) (x : ℕ) (b : Bytes)
      → (R.query_file fid site.world).0 ≡ found m
      → cache.get_cache_record fid (R.query_file fid site.world).1 ≡ some (some (x ∷ b))
      → cache.reads fid (R.query_file fid site.world).1 ≡ true
      → X.to_lower "" ≡ ""
      → ((open_file_handle R X paths cache sizes os peers own_id fid owned left site).0 ≡ panicked)
        ↔ (some_of (has_extension X) m.owner ≡ false)
  unfolding open_file_handle open_record
  open_file_handle-panicked_iff site m x b q c r low =
      let w = (R.query_file fid site.world).1 in
      let s : Download R.State = record { site = record site { world = w }; answers = [] } in
      let n = named_by X m.owner unnamed in
      let run : open_file_handle R X paths cache sizes os peers own_id fid owned left site
          ≡ show X n (paths.cached fid) (x ∷ b) (some (x ∷ b)) s =
        ground (arith, q, c, r) in
      (
        (λ e.
            named_by-typed X m.owner unnamed (
              show-panicked X n (paths.cached fid) (x ∷ b) (x ∷ b) s
                (sym (ap (λ t. t.0) run) ∙ e))),
        (λ h.
            let (t, f) = named_by-untyped X m.owner unnamed h in
            ap (λ t. t.0) run
            ∙ ap (λ t. t.0)
                (show-untyped X n (paths.cached fid) (x ∷ b) (x ∷ b) s t
                  (ground (arith, f, low, ap X.to_lower f, eq_iff "" octet_stream)))),
      )
