-- ===== src/Mint/Environment.antt =====
-- What surrounds a request: the signer and the lightning backend behind their interfaces
-- (internal/signer/interface.go, internal/lightning/backend.go), the mint's configuration, the
-- faults of the database connection, the other requests and the clock.
use nutmix.Prelude.{ℕ, String, List, Bool, Option}
use nutmix.Cashu.Errors.{Result}
use nutmix.Cashu.Types.{
  Proof, BlindedMessage, BlindSignature, RecoverSigDb, BasicKeysetResponse, Amount, MeltRequestDb,
  MintRequestDb, CashuUnit,
}
use nutmix.Cashu.Externals.{Externals}
use nutmix.Database.{Tables}

-- signer.Signer, as far as the mint calls it; `sign_blind_messages` takes the time.
pub record Signer : Type 0 where
  pub get_keysets : Result (List BasicKeysetResponse)
  pub sign_blind_messages :
      ℕ → List BlindedMessage → Result (List BlindSignature × List RecoverSigDb)
  pub verify_proofs : List Proof → Result (Unit {0})

-- lightning.PaymentStatus
pub data PaymentStatus : Type 0 where
  settled failed pending unknown : PaymentStatus

-- zpay32.Invoice: the amount is a pointer, nil for an invoice that names no amount.
pub record Invoice : Type 0 where
  pub milli_sat : Option ℕ

pub record PaymentResponse : Type 0 where
  pub preimage : String
  pub checking_id : String
  pub payment_state : PaymentStatus
  pub paid_fee : Amount

pub record FeesResponse : Type 0 where
  pub checking_id : String
  pub fees : Amount
  pub amount_to_send : Amount

pub record InvoiceResponse : Type 0 where
  pub payment_request : String
  pub checking_id : String

-- What CheckPayed reports.
pub record PaymentCheck : Type 0 where
  pub status : PaymentStatus
  pub preimage : String
  pub fee : Amount

-- lightning.LightningBackend. The number is that of the call: the network's answers may differ from
-- call to call.
pub record Backend : Type 0 where
  pub decode_invoice : String → Result Invoice
  -- with a flag that says whether an error came back beside the response
  pub pay_invoice : ℕ → MeltRequestDb → Invoice → Amount → Bool → Amount → PaymentResponse × Bool
  pub check_payed : ℕ → String → Invoice → String → Result PaymentCheck
  pub check_received : ℕ → MintRequestDb → Invoice → Result PaymentStatus
  pub request_invoice : ℕ → Amount → Option String → Result InvoiceResponse
  pub query_fees : ℕ → String → Invoice → Bool → Amount → Result FeesResponse
  pub active_mpp : Bool
  pub verify_unit_support : CashuUnit → Bool

-- What becomes of a database call: it works, it fails, it fails for a row that is locked, or (a
-- commit whose reply is lost) it fails after the change was made.
pub data Fault : Type 0 where
  works fails locked lost_reply : Fault

-- utils.Config, as far as the mint's operations read it.
pub record Config : Type 0 where
  pub peg_out_only : Bool
  pub peg_in_limit_sats : Option ℕ
  pub peg_out_limit_sats : Option ℕ

pub record Environment : Type 0 where
  pub x : Externals
  pub config : Config
  pub signer : Signer
  pub backend : Backend
  -- by the number of the call
  pub fault : ℕ → Fault
  pub now : ℕ → ℕ
  pub random_hash : ℕ → Result String
  -- what other requests commit before the transaction that the call begins
  pub others : ℕ → Tables → Tables
