-- ===== src/Checks/Fixtures.antt =====
-- Concrete surroundings for the examples: a signature is the text of its key, a secret is locked if
-- it is one of three texts, and every call works.
use Prim.Native.Nat.{◌+◌, ◌/◌}
use nutmix.Prelude.{String, List, [], ◌∷◌, true, false, Option, none, some, str_eq, if◌then◌else◌}
use nutmix.Cashu.Errors.{ok}
use nutmix.Cashu.Types.{
  Proof, ProofState, BlindedMessage, BlindSignature, RecoverSigDb, BasicKeysetResponse, Amount,
  MintRequestDb, MeltRequestDb, sat, unpaid, paid,
}
use nutmix.Cashu.Externals.{Externals}
use nutmix.Database.{Tables}
use nutmix.Mint.Environment.{Environment, Signer, Backend, works, settled}
use nutmix.Mint.Exec.{World}

abbrev pub secret_array : String → Option (List String)
secret_array s =
    if str_eq s "lock"
    then some ("P2PK" ∷ "owner" ∷ [])
    else if str_eq s "other lock"
    then some ("P2PK" ∷ "stranger" ∷ [])
    else if str_eq s "hash lock"
    then some ("HTLC" ∷ "preimage" ∷ [])
    else none

abbrev pub plain : Externals
plain = record {
  to_lower = λ s. s;
  trim_spaces = λ s. s;
  floor_thousandth = λ n. n / 1000;
  hex_decode = λ s. some s;
  hex_encode = λ s. s;
  sha256 = λ s. s;
  len = λ _. 64;
  parse_uint = λ _. some 1;
  format_uint = λ _. "1";
  parse_pub_key = λ s. some s;
  parse_signature = λ s. some s;
  verify = λ sig hash key. str_eq sig key;
  json_array = secret_array;
  json_string = λ s. some s;
  json_strings = λ _. none;
  json_condition_data = λ s. some ("nonce", s, none);
  json_witness = λ s. some ("preimage", s ∷ []);
  little_endian = λ _. "0000";
}

abbrev pub keyset : BasicKeysetResponse
keyset = record {
  final_expiry = none;
  id = "ks";
  unit = "sat";
  input_fee_ppk = 1000;
  version = 0;
  active = true;
}

abbrev pub signature_of : BlindedMessage → BlindSignature
signature_of o = record { c_ = "signed"; dleq = none; id = o.id; amount = o.amount }

abbrev pub recovery_of : BlindedMessage → RecoverSigDb
recovery_of o = record {
  b_ = o.b_;
  c_ = "signed";
  dleq = some (record { e = "e"; s = "s" });
  id = o.id;
  melt_quote = "";
  amount = o.amount;
  created_at = 0;
}

abbrev pub signatures_of : List BlindedMessage → List BlindSignature
signatures_of [] = []
signatures_of (o ∷ os) = signature_of o ∷ signatures_of os

abbrev pub recoveries_of : List BlindedMessage → List RecoverSigDb
recoveries_of [] = []
recoveries_of (o ∷ os) = recovery_of o ∷ recoveries_of os

abbrev pub signer : Signer
signer = record {
  get_keysets = ok (keyset ∷ []);
  sign_blind_messages = λ _ os. ok (signatures_of os, recoveries_of os);
  verify_proofs = λ _. ok tt;
}

abbrev pub zero_sat : Amount
zero_sat = record { unit = sat; amount = 0 }

abbrev pub backend : Backend
backend = record {
  decode_invoice =
      λ r. ok (record { milli_sat = if str_eq r "amountless" then none else some 7000 });
  pay_invoice = λ _ _ _ _ _ _. (
    record {
      preimage = "preimage";
      checking_id = "check";
      payment_state = settled;
      paid_fee = zero_sat;
    },
    false,
  );
  check_payed = λ _ _ _ _. ok (record { status = settled; preimage = "preimage"; fee = zero_sat });
  check_received = λ _ _ _. ok settled;
  request_invoice = λ _ _ _. ok (record { payment_request = "invoice"; checking_id = "check" });
  query_fees =
      λ _ _ _ _ a. ok (record { checking_id = "check"; fees = zero_sat; amount_to_send = a });
  active_mpp = false;
  verify_unit_support = λ _. true;
}

abbrev pub env : Environment
env = record {
  x = plain;
  config = record { peg_out_only = false; peg_in_limit_sats = none; peg_out_limit_sats = none };
  signer = signer;
  backend = backend;
  fault = λ _. works;
  now = λ n. n + 1000;
  random_hash = λ _. ok "quote";
  others = λ _ t. t;
}

abbrev pub proof : String → Proof
proof secret = record {
  c = "c";
  y = "";
  quote = none;
  id = "ks";
  secret = secret;
  witness = "owner";
  state = ProofState.unspent;
  amount = 8;
  seen_at = 0;
}

abbrev pub output : BlindedMessage
output = record { b_ = "point"; id = "ks"; witness = ""; amount = 7 }

abbrev pub empty_tables : Tables
empty_tables = record {
  proofs = [];
  recovery_signature = [];
  mint_request = [];
  melt_request = [];
  melt_change_message = [];
  seeds = [];
}

abbrev pub start : Tables → World
start t = record { committed = t; tx = none; calls = 0 }

abbrev pub paid_quote : MintRequestDb
paid_quote = record {
  amount = some 7;
  pubkey = "";
  description = none;
  quote = "quote";
  request = "invoice";
  unit = "sat";
  state = paid;
  checking_id = "check";
  expiry = 2000;
  seen_at = 1000;
  minted = false;
}

abbrev pub melt_quote : MeltRequestDb
melt_quote = record {
  payment_preimage = "";
  unit = "sat";
  request = "invoice";
  state = unpaid;
  quote = "melt";
  checking_id = "check";
  expiry = 2000;
  amount = 5;
  fee_reserve = 1;
  fee_paid = 0;
  seen_at = 1000;
  melted = false;
  mpp = false;
}
