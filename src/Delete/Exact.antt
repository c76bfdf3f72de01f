-- ===== src/Delete/Exact.antt =====
-- What `delHandle` of node/delHandle.go needs, and what it leaves.
use Prim.Native.String.{len}
use de_oss.Base.{
  sym, subst, ◌≡◌, ◌≢◌, ◌⊎◌, ℕ, true, String, eqb, none, some, arith, string_eq, inl, inr,
  Bool-cases, Option-cases, ◌==◌, ◌&&◌, if◌then◌else◌,
}
use de_oss.Base.Dict
use de_oss.Base.Dict.{Dict, lookup-erase, lookup-insert, lookup-nil}
use de_oss.Access.Library.{Crypto, Verdict, AuthError, accepted}
use de_oss.Access.Signature.{verify_account_signature}
use de_oss.Chain.{Chain, PublicKey}
use de_oss.Server.{on_net, account_dir}
use de_oss.Chunks.Expiry.{AccountDir}
use de_oss.Chunks.Save.{SaveDir}
use de_oss.Access.Params.{or_reply, error_text}
use de_oss.Admission.{check_de_oss_status}
use de_oss.Http.{
  Action, status_bad_request, status_internal_server_error, bind_elim, ◌>>=◌, Outcome, done, Body,
  Response, status_ok,
}
use de_oss.Delete.{
  on_server, DeleteRequest, DeleteFaults, drop_dir, Store, delete_named, del_handle,
}

check_de_oss_status-refuses :
    (C : Chain) (n : C.State) (x : Response)
    → (check_de_oss_status C n).0 ≡ done x
    → x.status ≡ status_internal_server_error
unfolding check_de_oss_status
check_de_oss_status-refuses C n x e = ground (arith, e)

or_reply-state :
    {S A : Type 0} (v : Verdict A) (status : ℕ) (body : AuthError → Body) (s : S)
    → (or_reply v status body s).1 ≡ s
or_reply-state v status body s = ground arith

-- The file's directory once `os.RemoveAll` was called.
drop_dir_lem :
    (f : DeleteFaults) (account name : String) (fs : Dict String AccountDir)
    → Dict.lookup name (account_dir account (drop_dir f account name fs))
      ≡ (elim (Dict.lookup name (account_dir account fs)) [ none ↦ none | some d ↦ f.removal d ])
drop_dir_lem f account name fs = elim (Option-cases (Dict.lookup account fs)) [
  | inl e ↦ ground (arith, e, lookup-nil {V = SaveDir} name)
  | inr (a, e) ↦ elim (Option-cases (Dict.lookup name a)) [
    | inl g ↦ ground (arith, e, g)
    | inr (d, g) ↦ elim (Option-cases (f.removal d)) [
      | inl o ↦ ground (
        arith,
        e,
        g,
        o,
        lookup-insert account account (Dict.erase name a) fs,
        lookup-erase name name a,
      )
      | inr (left, o) ↦ ground (
        arith,
        e,
        g,
        o,
        lookup-insert account account (Dict.insert name left a) fs,
        lookup-insert name name left a,
      )
    ]
  ]
]

module _ (C : Chain) {K : Type 0} (c : Crypto) (f : DeleteFaults) where
  -- What a deletion has done, from the state `s` to the state `t`, with the track file of `hash`.
  abbrev pub IsDeleted : DeleteRequest → String → Store C.State K → Store C.State K → Type 0
  IsDeleted r hash s t =
      ((len r.name ≡ 64)
        × (Dict.lookup hash t.server.track
            ≡ (if hash == r.name && f.remove_track then none else Dict.lookup hash s.server.track))
        × (Dict.lookup r.name (account_dir r.account t.server.files)
            ≡ (elim (Dict.lookup r.name (account_dir r.account s.server.files)) [
              | none ↦ none
              | some d ↦ f.removal d
            ])))
      ⊎ ((len r.name ≢ 64)
          × (c.check_bucket_name r.name ≡ true)
          × (t.server.track ≡ s.server.track)
          × (t.server.files ≡ s.server.files))

  delete_named-IsDeleted :
      (r : DeleteRequest) (hash : String) (pkey : PublicKey) (s : Store C.State K) (b : Body)
      → (delete_named C c f r pkey s).0 ≡ done (record { status = status_ok; body = b })
      → IsDeleted r hash s (delete_named C c f r pkey s).1
  unfolding delete_named
  delete_named-IsDeleted r hash pkey s b e = elim (Bool-cases (eqb (len r.name) 64)) [
    | inl n ↦ ground (
      arith,
      e,
      n,
      lookup-erase hash r.name s.server.track,
      drop_dir_lem f r.account r.name s.server.files,
    )
    | inr n ↦ elim (Bool-cases (c.check_bucket_name r.name)) [
      | inl g ↦ ground (arith, e, n, g)
      | inr g ↦ absurd (ground (arith, e, n, g))
    ]
  ]

  -- If a deletion is answered with status 200, the signature of the account was accepted. Either the name
  -- has the length of a hash: then the track file of that name is gone if `os.Remove` succeeds, and every
  -- other one, and that one if it fails, is as it was; and of the file's directory under the account that
  -- is left which `os.RemoveAll` leaves. Or it has another length and is a bucket's name: then the track
  -- files and the directories are as they were.
  pub del_handle-IsDeleted :
      (r : DeleteRequest) (hash : String) (s : Store C.State K) (b : Body)
      → (del_handle C c f r s).0 ≡ done (record { status = status_ok; body = b })
      → ((pkey : PublicKey) × (verify_account_signature c r.account r.message r.signature
            ≡ accepted pkey))
        × IsDeleted r hash s (del_handle C c f r s).1
  unfolding del_handle
  del_handle-IsDeleted r hash s b =
      let v = verify_account_signature c r.account r.message r.signature in
      let P : Outcome (Unit {0}) × Store C.State K → Type 0 = λ x.
        x.0 ≡ done (record { status = status_ok; body = b })
        → ((pkey : PublicKey) × (v ≡ accepted pkey)) × IsDeleted r hash s x.1 in
      let status = on_server C c f (on_net {K = K} (check_de_oss_status C)) in
      let sender : Action (Store C.State K) PublicKey =
        or_reply v status_bad_request (λ e. Body.text (error_text e)) in
      bind_elim P status (λ _. sender >>= delete_named C c f r) s
        (λ _ _.
          bind_elim P sender (delete_named C c f r) (status s).1
            (λ pkey a.
              subst (λ t. P (delete_named C c f r pkey t))
                (sym (
                  or_reply-state v status_bad_request (λ e. Body.text (error_text e)) (status s).1))
                (λ e.
                  ((pkey, ground (arith, a)), delete_named-IsDeleted r hash pkey (status s).1 b e)))
            (λ x a e. absurd (ground (arith, a, e))) (λ a e. absurd (ground (arith, e))))
        (λ x a e. absurd (ground (arith, check_de_oss_status-refuses C s.server.net x a, e)))
        (λ a e. absurd (ground (arith, e)))
