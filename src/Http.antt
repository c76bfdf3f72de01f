-- ===== src/Http.antt =====
-- What a gin handler does: it calls operations that change the server's state, and ends early by
-- writing a response, by a panic, or by returning. `c.JSON(status, body); return` is `reply`.
use de_oss.Base.{◌≡◌, ◌⊎◌, inl, inr, refl, ℕ, Bool, String, if◌then◌else◌}

pub data Body : Type 0 where
  nil : Body
  text : String → Body
  number : ℕ → Body
  block_hash : String → Body
  -- What JSON makes of an error value.
  empty_object : Body

pub record Response : Type 0 where
  pub status : ℕ
  pub body : Body

pub data Outcome (A : Type 0) : Type 0 where
  ok : A → Outcome A
  done : Response → Outcome A
  panic : Outcome A

pub Outcome-cases :
    {A : Type 0} (x : Outcome A)
    → ((a : A) × (x ≡ ok a)) ⊎ (((r : Response) × (x ≡ done r)) ⊎ (x ≡ panic))
Outcome-cases (ok a) = inl (a, refl)
Outcome-cases (done r) = inr (inl (r, refl))
Outcome-cases panic = inr (inr refl)

abbrev pub Action : Type 0 → Type 0 → Type 0
Action S A = S → Outcome A × S

infixl 5 ◌>>=◌ ◌>>◌
abbrev pub ◌>>=◌ : {S A B : Type 0} → Action S A → (A → Action S B) → Action S B
◌>>=◌ m f s =
    let (r, t) = m s in elim r [ ok a ↦ f a t | done x ↦ (done x, t) | panic ↦ (panic, t) ]

abbrev pub ◌>>◌ : {S B : Type 0} → Action S (Unit {0}) → Action S B → Action S B
m >> k = m >>= λ _. k

outcome_elim :
    {S A B : Type 0} (P : Outcome B × S → Type 0) (f : A → Action S B) (x : Outcome A × S)
    → ((a : A) → x.0 ≡ ok a → P (f a x.1))
    → ((r : Response) → x.0 ≡ done r → P (done r, x.1))
    → (x.0 ≡ panic → P (panic, x.1))
    → P (elim x.0 [ ok a ↦ f a x.1 | done r ↦ (done r, x.1) | panic ↦ (panic, x.1) ])
outcome_elim P f (ok a, s) h _ _ = h a refl
outcome_elim P f (done r, s) _ h _ = h r refl
outcome_elim P f (panic, s) _ _ h = h refl

-- A property of a run, from the three ways in which its first action may end.
pub bind_elim :
    {S A B : Type 0} (P : Outcome B × S → Type 0) (m : Action S A) (f : A → Action S B) (s : S)
    → ((a : A) → (m s).0 ≡ ok a → P (f a (m s).1))
    → ((r : Response) → (m s).0 ≡ done r → P (done r, (m s).1))
    → ((m s).0 ≡ panic → P (panic, (m s).1))
    → P ((m >>= f) s)
bind_elim P m f s = outcome_elim P f (m s)

-- A predicate of the state that both actions keep.
pub keeps_bind :
    {S A B : Type 0} (Q : S → Type 0) (m : Action S A) (f : A → Action S B)
    → ((s : S) → Q s → Q (m s).1)
    → ((a : A) (s : S) → Q s → Q (f a s).1)
    → (s : S) → Q s
    → Q ((m >>= f) s).1
keeps_bind Q m f h k s q =
    bind_elim (λ x. Q x.1) m f s (λ a _. k a (m s).1 (h s q)) (λ _ _. h s q) (λ _. h s q)

module _ {S : Type 0} where
  abbrev pub pure : {A : Type 0} → A → Action S A
  pure a s = (ok a, s)

  abbrev pub reply : {A : Type 0} → ℕ → Body → Action S A
  reply status body s = (done (record { status = status; body = body }), s)

  -- `if b { c.JSON(…); return }`
  abbrev pub reply_if : Bool → ℕ → Body → Action S (Unit {0})
  reply_if b status body s =
      (if b then done (record { status = status; body = body }) else ok tt, s)

  -- `if b { … } else { … }`, which runs one of the two.
  abbrev pub branch : {A : Type 0} → Bool → Action S A → Action S A → Action S A
  branch b m k s = if b then m s else k s

  abbrev pub modify : (S → S) → Action S (Unit {0})
  modify f s = (ok tt, f s)

-- net/http
abbrev pub status_ok : ℕ
status_ok = 200

abbrev pub status_bad_request : ℕ
status_bad_request = 400

abbrev pub status_forbidden : ℕ
status_forbidden = 403

abbrev pub status_internal_server_error : ℕ
status_internal_server_error = 500
