-- ===== src/Tracker/Follow/Deletes.antt =====
-- The track file in one pass of `trackFile` of node/tracker.go.
use de_oss.Base.{
  ℕ, [], sym, ap, ◌∙◌, ◌≡◌, ◌≢◌, ◌⊎◌, refl, String, Bool, true, false, List, Option, none, some,
  contains, not, ◌==◌, string_eq, if◌then◌else◌, inl, inr, arith,
}
use de_oss.Base.Dict
use de_oss.Access.Library.{Bytes}
use de_oss.Chain.{Chain, PublicKey, reply_elim, found, empty, StorageOrder, FileMeta}
use de_oss.Track.{RecordInfo, parse_track_file, WriteFault, write_track_file}
use de_oss.Track.Atomic.{write_track_file-atomic}
use de_oss.Tracker.Follow.{
  Next, finished, Tracking, Outside, segments_of, rewrite, send_file, follow_duplicate,
  follow_order, order_again, check_authority, follow_pending, track_file,
}

bool_elim :
    {B : Type 0} {y n : B} (P : B → Type 0) (c : Bool)
    → (c ≡ true → P y)
    → (c ≡ false → P n)
    → P (elim c [ true ↦ y | false ↦ n ])
bool_elim P true h _ = h refl
bool_elim P false _ h = h refl

if_elim :
    {B : Type 0} {y n : B} (P : B → Type 0) (c : Bool)
    → (c ≡ true → P y)
    → (c ≡ false → P n)
    → P (if c then y else n)
if_elim P true h _ = h refl
if_elim P false _ h = h refl

option_elim :
    {A B : Type 0} {y : B} {f : A → B} (P : B → Type 0) (o : Option A)
    → (o ≡ none → P y)
    → ((a : A) → o ≡ some a → P (f a))
    → P (elim o [ none ↦ y | some a ↦ f a ])
option_elim P none h _ = h refl
option_elim P (some a) _ h = h a refl

module _ (C : Chain) (x : Outside) (own : PublicKey) (fault : WriteFault) (tmp : String) where
  -- The states of the chain in which a pass that begins in `n` finds it: after its first two queries,
  -- and after it has ordered once more and asked for that order.
  abbrev pub after_deal : String → C.State → C.State
  after_deal hash n = (C.query_deal_map hash (C.query_file hash n).1).1

  abbrev pub after_order : String → RecordInfo → C.State → C.State
  after_order hash r n =
      let asked = (C.query_authority_list r.owner (after_deal hash n)).1 in
      let order =
        C.generate_storage_order hash (segments_of r) r.owner r.filename r.buckname r.filesize
          asked in
      (C.query_deal_map hash order.1).1

  -- Why a track file `b` may go in a pass that begins in the state `n` of the chain. A call that failed
  -- is no reason.
  pub data IsSettled (hash : String) (b : Bytes) (n : C.State) : Type 0 where
    stored : (m : FileMeta) → (C.query_file hash n).0 ≡ found m → IsSettled hash b n
    duplicate_stored :
        (r : RecordInfo) (w : C.State) (m : FileMeta)
        → x.decode b ≡ some r
        → r.duplicate ≡ true
        → (w ≡ after_deal hash n) ⊎ (w ≡ after_order hash r n)
        → (C.query_file hash w).0 ≡ found m
        → (tx : String)
        → (C.generate_storage_order r.roothash [] r.owner r.filename r.buckname r.filesize
            (C.query_file hash w).1).0
          ≡ found tx
        → IsSettled hash b n
    withdrawn :
        (r : RecordInfo)
        → x.decode b ≡ some r
        → (C.query_deal_map hash (C.query_file hash n).1).0 ≡ empty
        → ((C.query_authority_list r.owner (after_deal hash n)).0 ≡ empty)
          ⊎ ((accounts : List PublicKey) × ((C.query_authority_list r.owner (after_deal hash n)).0
                ≡ found accounts)
              × (contains accounts own ≡ false))
        → IsSettled hash b n
    wrong_hash : (r : RecordInfo) → x.decode b ≡ some r → hash ≢ r.roothash → IsSettled hash b n

  abbrev pub IsSafe : String → Bytes → C.State → Next × Tracking C.State → Type 0
  IsSafe hash b n y = (Dict.lookup hash y.1.track ≢ none) ⊎ IsSettled hash b n

  -- The record that a pass goes on with, which differs from the one that was read in two fields.
  abbrev marked : Bool → ℕ → RecordInfo → RecordInfo
  marked flag k r = record r { putflag = flag; count = k }

  abbrev reset : RecordInfo → RecordInfo
  reset r = marked false 0 r

  send_file-track :
      (hash : String) (r : RecordInfo) (o : StorageOrder) (s : Tracking C.State)
      → (send_file C x own fault tmp hash r o s).1.track ≡ s.track
  unfolding send_file
  send_file-track hash r o s = ground arith

  module _ (hash : String) (b : Bytes) (n : C.State) (r0 : RecordInfo) (d : x.decode b ≡ some r0)
      (ne : hash ≢ tmp) where
    abbrev Safe : Next × Tracking C.State → Type 0
    Safe = IsSafe hash b n

    abbrev There : Tracking C.State → Type 0
    There s = Dict.lookup hash s.track ≢ none

    rewrite-IsSafe :
        (r : RecordInfo) (k : Tracking C.State → Next × Tracking C.State) (s : Tracking C.State)
        → There s
        → ((t : Tracking C.State) → t.net ≡ s.net → There t → Safe (k t))
        → Safe (rewrite C x own fault tmp hash r k s)
    unfolding rewrite
    rewrite-IsSafe r k s h f =
        let out = write_track_file fault tmp hash (x.encode r) s.track in
        let at = write_track_file-atomic fault tmp hash (x.encode r) s.track hash ne in
        let there : Dict.lookup hash out.1 ≢ none = ground (arith, at, h) in
        bool_elim Safe out.0 (λ _. f (record s { track = out.1 }) refl there) (λ _. inl there)

    follow_duplicate-IsSafe :
        (flag : Bool) (k : ℕ) (s : Tracking C.State)
        → r0.duplicate ≡ true
        → (s.net ≡ after_deal hash n) ⊎ (s.net ≡ after_order hash r0 n)
        → There s
        → Safe (follow_duplicate C x own fault tmp hash (marked flag k r0) s)
    unfolding follow_duplicate
    follow_duplicate-IsSafe flag k s dup at h =
        let file = C.query_file hash s.net in
        let order =
          C.generate_storage_order r0.roothash [] r0.owner r0.filename r0.buckname r0.filesize
            file.1 in
        let deal = C.query_deal_map r0.roothash file.1 in
        let primary = record r0 { duplicate = false; putflag = false; count = k } in
        let waits =
          reply_elim Safe deal.0 (λ _ _. inl h)
            (λ _.
              rewrite-IsSafe primary (λ t. (finished, t)) (record s { net = deal.1 }) h
                (λ _ _ g. inl g))
            (λ _ _. inl h) in
        reply_elim Safe file.0
          (λ m e.
            reply_elim Safe order.0 (λ tx g. inr (duplicate_stored r0 s.net m d dup at e tx g))
              (λ _. inl h) (λ _ _. inl h))
          (λ _. waits) (λ _ _. waits)

    follow_order-IsSafe :
        (flag : Bool) (k : ℕ) (o : StorageOrder) (s : Tracking C.State)
        → (s.net ≡ after_deal hash n) ⊎ (s.net ≡ after_order hash r0 n)
        → There s
        → Safe (follow_order C x own fault tmp hash (marked flag k r0) o s)
    unfolding follow_order
    follow_order-IsSafe flag k o s at h =
        let r = marked flag k r0 in
        if_elim Safe (not (hash == r0.roothash))
          (λ c. inr (wrong_hash r0 d (λ q. ground (arith, c, q))))
          (λ _.
            if_elim Safe r0.duplicate (λ y. follow_duplicate-IsSafe flag k s y at h)
              (λ _. inl (λ z. h (sym (ap (Dict.lookup hash) (send_file-track hash r o s)) ∙ z))))

    order_again-IsSafe :
        (s : Tracking C.State)
        → s.net ≡ (C.query_authority_list r0.owner (after_deal hash n)).1
        → There s
        → Safe (order_again C x own fault tmp hash (reset r0) s)
    unfolding order_again
    order_again-IsSafe s at h =
        let order =
          C.generate_storage_order hash (segments_of r0) r0.owner r0.filename r0.buckname
            r0.filesize s.net in
        reply_elim Safe order.0
          (λ _ _.
            reply_elim Safe (C.query_deal_map hash order.1).0
              (λ o _.
                follow_order-IsSafe false 0 o (record s { net = (C.query_deal_map hash order.1).1 })
                  (inr (rw at refl)) h)
              (λ _. inl h) (λ _ _. inl h))
          (λ _. inl h) (λ _ _. inl h)

    check_authority-IsSafe :
        (s : Tracking C.State)
        → s.net ≡ after_deal hash n
        → (C.query_deal_map hash (C.query_file hash n).1).0 ≡ empty
        → There s
        → Safe (check_authority C x own fault tmp hash (reset r0) s)
    unfolding check_authority
    check_authority-IsSafe s at none_yet h =
        let reply = C.query_authority_list r0.owner s.net in
        let go =
          order_again-IsSafe (record s { net = reply.1 })
            (ap (λ t. (C.query_authority_list r0.owner t).1) at) h in
        let asked = ap (λ t. (C.query_authority_list r0.owner t).0) at in
        reply_elim Safe reply.0
          (λ accounts a.
            if_elim Safe (contains accounts own) (λ _. go)
              (λ c. inr (withdrawn r0 d none_yet (inr (accounts, sym asked ∙ a, c)))))
          (λ a. inr (withdrawn r0 d none_yet (inl (sym asked ∙ a)))) (λ _ _. inl h)

    follow_pending-IsSafe :
        (s : Tracking C.State)
        → s.net ≡ (C.query_file hash n).1
        → There s
        → Safe (follow_pending C x own fault tmp hash r0 s)
    unfolding follow_pending
    follow_pending-IsSafe s at h =
        let deal = C.query_deal_map hash s.net in
        let on = ap (λ t. (C.query_deal_map hash t).1) at in
        reply_elim Safe deal.0
          (λ o _. follow_order-IsSafe r0.putflag r0.count o (record s { net = deal.1 }) (inl on) h)
          (λ e.
            rewrite-IsSafe (reset r0) (check_authority C x own fault tmp hash (reset r0))
              (record s { net = deal.1 }) h
              (λ t same g.
                check_authority-IsSafe t (same ∙ on)
                  (sym (ap (λ t. (C.query_deal_map hash t).0) at) ∙ e) g))
          (λ _ _. inl h)

  -- After a pass over a file with track file `b`, the track file is still there, or there is a reason
  -- for which it may go, in the chain as the pass found it: the pass's first query had the file; or the
  -- record in `b` is a duplicate's, the chain had the file when the order was there, the one found first
  -- or the one made again, and it accepted the order by which the owner joins; or there was no order, and
  -- the chain answered, for the owner in `b`, that nobody is authorised, or a list without the gateway;
  -- or the record in `b` is one of another file. A query that fails is no reason. The temporary file of
  -- the pass's write has another name than the track file.
  pub track_file-IsSafe :
      (hash : String) (b : Bytes) (s : Tracking C.State)
      → hash ≢ tmp
      → Dict.lookup hash s.track ≡ some b
      → IsSafe hash b s.net (track_file C x own fault tmp hash s)
  unfolding track_file
  track_file-IsSafe hash b s ne h =
      let there : Dict.lookup hash s.track ≢ none = λ n. ground (arith, h, n) in
      let file = C.query_file hash s.net in
      option_elim (IsSafe hash b s.net) (parse_track_file x.decode hash s.track) (λ _. inl there)
        (λ r p.
          let d : x.decode b ≡ some r = ground (arith, h, p) in
          reply_elim (IsSafe hash b s.net) file.0 (λ m e. inr (stored m e))
            (λ _. follow_pending-IsSafe hash b s.net r d ne (record s { net = file.1 }) refl there)
            (λ _ _. inl there))
