-- ===== src/Cashu/Types.antt =====
-- The data of api/cashu: types.go, proofs.go, melt.go and swap.go.
-- A public key is the text of its compressed serialisation, empty for a nil key; JSON tags are
-- left out. Timestamps and `uint64` amounts are natural numbers.
use nutmix.Prelude.{ℕ, String, List, [], ◌∷◌, Bool, true, false, Option, some, ◌==◌, add64}

abbrev pub PublicKey : Type 0
PublicKey = String

abbrev pub Signature : Type 0
Signature = String

pub data CashuUnit : Type 0 where
  sat msat usd eur auth : CashuUnit

-- The `iota` values of the unit constants.
abbrev pub enum_index : CashuUnit → ℕ
enum_index sat = 1
enum_index msat = 2
enum_index usd = 3
enum_index eur = 4
enum_index auth = 5

abbrev pub unit_eq : CashuUnit → CashuUnit → Bool
unit_eq u v = enum_index u == enum_index v

pub data ProofState : Type 0 where
  unspent spent pending : ProofState

pub data ActionState : Type 0 where
  unpaid paid pending issued : ActionState

abbrev pub is_paid : ActionState → Bool
is_paid paid = true
is_paid _ = false

abbrev pub is_pending : ActionState → Bool
is_pending ActionState.pending = true
is_pending _ = false

abbrev pub is_issued : ActionState → Bool
is_issued issued = true
is_issued _ = false

abbrev pub is_unpaid : ActionState → Bool
is_unpaid unpaid = true
is_unpaid _ = false

pub record Amount : Type 0 where
  pub unit : CashuUnit
  pub amount : ℕ

pub record Proof : Type 0 where
  pub c : PublicKey
  pub y : PublicKey
  pub quote : Option String
  pub id : String
  pub secret : String
  pub witness : String
  pub state : ProofState
  pub amount : ℕ
  pub seen_at : ℕ

pub record BlindedMessage : Type 0 where
  pub b_ : PublicKey
  pub id : String
  pub witness : String
  pub amount : ℕ

-- The two scalars of a discrete-log equality proof.
pub record BlindSignatureDleq : Type 0 where
  pub e : String
  pub s : String

pub record BlindSignature : Type 0 where
  pub c_ : PublicKey
  pub dleq : Option BlindSignatureDleq
  pub id : String
  pub amount : ℕ

pub record MintKey : Type 0 where
  pub priv_key : Option String
  pub final_expiry : Option ℕ
  pub id : String
  pub unit : String
  pub amount : ℕ
  pub created_at : ℕ
  pub input_fee_ppk : ℕ
  pub active : Bool

pub record Seed : Type 0 where
  pub final_expiry : Option ℕ
  pub issuer_version : Option String
  pub unit : String
  pub id : String
  pub derivation_path : String
  pub amounts : List ℕ
  pub created_at : ℕ
  pub input_fee_ppk : ℕ
  pub version : ℕ
  pub active : Bool
  pub legacy : Bool

pub record BasicKeysetResponse : Type 0 where
  pub final_expiry : Option ℕ
  pub id : String
  pub unit : String
  pub input_fee_ppk : ℕ
  pub version : ℕ
  pub active : Bool

pub record RecoverSigDb : Type 0 where
  pub b_ : PublicKey
  pub c_ : PublicKey
  pub dleq : Option BlindSignatureDleq
  pub id : String
  pub melt_quote : String
  pub amount : ℕ
  pub created_at : ℕ

pub record MeltChange : Type 0 where
  pub b_ : PublicKey
  pub id : String
  pub quote : String
  pub created_at : ℕ

pub record MintRequestDb : Type 0 where
  pub amount : Option ℕ
  pub pubkey : PublicKey
  pub description : Option String
  pub quote : String
  pub request : String
  pub unit : String
  pub state : ActionState
  pub checking_id : String
  pub expiry : ℕ
  pub seen_at : ℕ
  pub minted : Bool

pub record MeltRequestDb : Type 0 where
  pub payment_preimage : String
  pub unit : String
  pub request : String
  pub state : ActionState
  pub quote : String
  pub checking_id : String
  pub expiry : ℕ
  pub amount : ℕ
  pub fee_reserve : ℕ
  pub fee_paid : ℕ
  pub seen_at : ℕ
  pub melted : Bool
  pub mpp : Bool

pub record PostSwapRequest : Type 0 where
  pub inputs : List Proof
  pub outputs : List BlindedMessage

pub record PostMintQuoteBolt11Request : Type 0 where
  pub description : Option String
  pub pubkey : PublicKey
  pub unit : String
  pub amount : ℕ

pub record PostMintBolt11Request : Type 0 where
  pub signature : Option Signature
  pub quote : String
  pub outputs : List BlindedMessage

-- `mpp` is `Options.Mpp["amount"]`, 0 where the map has no such key.
pub record PostMeltQuoteBolt11Request : Type 0 where
  pub mpp : ℕ
  pub request : String
  pub unit : String

pub record PostMeltBolt11Request : Type 0 where
  pub quote : String
  pub inputs : List Proof
  pub outputs : List BlindedMessage

-- Proofs.Amount and BlindedMessages.Amount: sums that wrap.
unfoldable pub proofs_amount_from : ℕ → List Proof → ℕ
proofs_amount_from total [] = total
proofs_amount_from total (p ∷ ps) = proofs_amount_from (add64 total p.amount) ps

unfoldable pub proofs_amount : List Proof → ℕ
unfolding proofs_amount_from
proofs_amount ps = proofs_amount_from 0 ps

unfoldable pub messages_amount_from : ℕ → List BlindedMessage → ℕ
messages_amount_from total [] = total
messages_amount_from total (m ∷ ms) = messages_amount_from (add64 total m.amount) ms

unfoldable pub messages_amount : List BlindedMessage → ℕ
unfolding messages_amount_from
messages_amount ms = messages_amount_from 0 ms

-- SetProofsState and SetPendingAndQuoteRef.
unfoldable pub set_proofs_state : ProofState → List Proof → List Proof
set_proofs_state state [] = []
set_proofs_state state (p ∷ ps) = record p { state = state } ∷ set_proofs_state state ps

unfoldable pub set_pending_and_quote_ref : String → List Proof → List Proof
set_pending_and_quote_ref quote [] = []
set_pending_and_quote_ref quote (p ∷ ps) =
    record p { state = ProofState.pending; quote = some quote } ∷ set_pending_and_quote_ref quote ps

-- RecoverSigDB.GetBlindSignature, GetBlindedMessage and GetSigAndMessage.
unfoldable pub get_blind_signature : RecoverSigDb → BlindSignature
get_blind_signature r = record { amount = r.amount; id = r.id; c_ = r.c_; dleq = r.dleq }

unfoldable pub get_blinded_message : RecoverSigDb → BlindedMessage
get_blinded_message r = record { b_ = r.b_; id = r.id; witness = ""; amount = r.amount }

unfoldable pub get_sig_and_message : RecoverSigDb → BlindSignature × BlindedMessage
unfolding get_blind_signature get_blinded_message
get_sig_and_message r = (get_blind_signature r, get_blinded_message r)
