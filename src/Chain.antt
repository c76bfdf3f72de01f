-- ===== src/Chain.antt =====
-- The CESS chain and its SDK, which the gateway only calls: a state that changes with every call, and
-- one operation for each SDK function that the modelled handlers use. Nothing is assumed of them here.
use de_oss.Base.{ℕ, Bool, String, List, ◌≡◌, ◌⊎◌, inl, inr, refl}

-- A byte string that the gateway only compares (an account's public key).
abbrev pub PublicKey : Type 0
PublicKey = String

-- The result of an RPC: a value, the error `chain.ERR_Empty`, or another error with its text.
pub data Reply (A : Type 0) : Type 0 where
  found : A → Reply A
  empty : Reply A
  failed : String → Reply A

pub Reply-cases :
    {A : Type 0} (r : Reply A)
    → ((a : A) × (r ≡ found a)) ⊎ ((r ≡ empty) ⊎ ((e : String) × (r ≡ failed e)))
Reply-cases (found a) = inl (a, refl)
Reply-cases empty = inr (inl refl)
Reply-cases (failed e) = inr (inr (e, refl))

-- A property of what a program does next, from the three answers.
pub reply_elim :
    {A B : Type 0} {f : A → B} {g : B} {k : String → B} (P : B → Type 0) (r : Reply A)
    → ((a : A) → r ≡ found a → P (f a))
    → (r ≡ empty → P g)
    → ((e : String) → r ≡ failed e → P (k e))
    → P (elim r [ found a ↦ f a | empty ↦ g | failed e ↦ k e ])
reply_elim P (found a) x _ _ = x a refl
reply_elim P empty _ y _ = y refl
reply_elim P (failed e) _ _ z = z e refl

-- `chain.SegmentDataInfo`: a segment's path and those of its fragments.
pub record Segment : Type 0 where
  pub segment_hash : String
  pub fragment_hash : List String

-- The fields of `chain.UserSpaceInfo` that the gateway reads.
pub record UserSpace : Type 0 where
  pub deadline : ℕ
  pub remaining_space : ℕ

-- `chain.UserBrief`
pub record UserBrief : Type 0 where
  pub user : PublicKey
  pub file_name : String
  pub bucket_name : String

-- The fields of `chain.FileMetadata` and `chain.StorageOrder` that the gateway reads.
pub record FileMeta : Type 0 where
  pub owner : List UserBrief
  pub file_size : ℕ

-- `chain.CompleteInfo`: a batch index with the miner that reported it.
pub record CompleteInfo : Type 0 where
  pub index : ℕ
  pub miner : String

pub record StorageOrder : Type 0 where
  pub user : UserBrief
  pub file_size : ℕ
  pub complete_list : List CompleteInfo

pub record Chain : Type 1 where
  pub State : Type 0
  pub balances : State → ℕ
  pub rpc_state : State → Bool
  pub query_file : String → State → Reply FileMeta × State
  pub query_deal_map : String → State → Reply StorageOrder × State
  pub query_user_owned_space : PublicKey → State → Reply UserSpace × State
  pub query_block_number : State → Reply ℕ × State
  pub query_authority_list : PublicKey → State → Reply (List PublicKey) × State
  pub query_miner_items : String → State → Reply String × State
  pub create_bucket : PublicKey → String → State → Reply String × State
  pub delete_file : PublicKey → String → State → Reply String × State
  pub delete_bucket : PublicKey → String → State → Reply String × State
  pub generate_storage_order :
      String → List Segment → PublicKey → String → String → ℕ → State → Reply String × State
