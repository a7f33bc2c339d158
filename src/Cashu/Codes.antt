-- ===== src/Cashu/Codes.antt =====
-- The protocol's error codes (api/cashu/errors.go).
use nutmix.Prelude.{ℕ, String, Option}

pub data ErrorCode : Type 0 where
  proof_verification_failed proof_already_spent proofs_pending : ErrorCode
  outputs_already_signed outputs_pending transaction_not_balanced : ErrorCode
  insuficient_outside_limit duplicate_inputs duplicate_outputs : ErrorCode
  multiple_units_output_input input_output_not_same_unit : ErrorCode
  amount_less_invoice_not_supported amount_not_equal_to_invoice unit_not_supported : ErrorCode
  keyset_not_know inactive_keyset request_not_paid quote_already_issued : ErrorCode
  minting_disabled lightning_payment_failed quote_pending invoice_already_paid : ErrorCode
  mint_quote_invalid_sig mint_quote_invalid_pub_key endpoint_requires_clear_auth : ErrorCode
  clear_auth_failed endpoint_requires_blind_auth blind_auth_failed : ErrorCode
  maximum_bat_mint_limit_exceeded maximum_bat_rate_limit_exceeded unknown : ErrorCode

-- The number on the wire.
unfoldable pub code_number : ErrorCode → ℕ
code_number proof_verification_failed = 10001
code_number proof_already_spent = 11001
code_number proofs_pending = 11002
code_number outputs_already_signed = 11003
code_number outputs_pending = 11004
code_number transaction_not_balanced = 11005
code_number insuficient_outside_limit = 11006
code_number duplicate_inputs = 11007
code_number duplicate_outputs = 11008
code_number multiple_units_output_input = 11009
code_number input_output_not_same_unit = 11010
code_number amount_less_invoice_not_supported = 11011
code_number amount_not_equal_to_invoice = 11012
code_number unit_not_supported = 11013
code_number keyset_not_know = 12001
code_number inactive_keyset = 12002
code_number request_not_paid = 20001
code_number quote_already_issued = 20002
code_number minting_disabled = 20003
code_number lightning_payment_failed = 20004
code_number quote_pending = 20005
code_number invoice_already_paid = 20006
code_number mint_quote_invalid_sig = 20008
code_number mint_quote_invalid_pub_key = 20009
code_number endpoint_requires_clear_auth = 30001
code_number clear_auth_failed = 30002
code_number endpoint_requires_blind_auth = 31001
code_number blind_auth_failed = 31002
code_number maximum_bat_mint_limit_exceeded = 31003
code_number maximum_bat_rate_limit_exceeded = 31004
code_number unknown = 99999

-- ErrorCode.String
unfoldable pub code_string : ErrorCode → String
code_string proof_verification_failed = "Proof could not be verified"
code_string proof_already_spent = "Proof is already spent"
code_string proofs_pending = "Proofs are pending"
code_string outputs_already_signed = "Blinded message of output already signed"
code_string outputs_pending = "Outputs are pending"
code_string transaction_not_balanced = "Transaction is not balanced (inputs != outputs)"
code_string insuficient_outside_limit = "Amount outside limit"
code_string duplicate_inputs = "Duplicate inputs provided"
code_string duplicate_outputs = "Duplicate inputs provided"
code_string multiple_units_output_input = "Inputs/Outputs of multiple units"
code_string input_output_not_same_unit = "Inputs and outputs are not same unit"
code_string amount_less_invoice_not_supported = "Amountless invoices are not supported"
code_string amount_not_equal_to_invoice = "Amount in request does not equal invoice"
code_string unit_not_supported = "Unit in request is not supported"
code_string keyset_not_know = "Keyset is not known"
code_string inactive_keyset = "Keyset is inactive, cannot sign messages"
code_string request_not_paid = "Quote request is not paid"
code_string quote_already_issued = "Quote has already been issued"
code_string minting_disabled = "Minting is disabled"
code_string lightning_payment_failed = ""
code_string quote_pending = "Quote is pending"
code_string invoice_already_paid = "Invoice already paid"
code_string mint_quote_invalid_sig = "No valid signature was provided"
code_string mint_quote_invalid_pub_key = "No public key for mint quote"
code_string endpoint_requires_clear_auth = "Endpoint requires clear auth"
code_string clear_auth_failed = "Clear authentification failed"
code_string endpoint_requires_blind_auth = "Endpoint requires blind auth"
code_string blind_auth_failed = "Blind authentification failed"
code_string maximum_bat_mint_limit_exceeded = "Maximum Blind auth token amounts execeeded"
code_string maximum_bat_rate_limit_exceeded = "Maximum BAT rate limit execeeded"
code_string unknown = "Unknown error"

pub record ErrorResponse : Type 0 where
  pub detail : Option String
  pub error : String
  pub code : ErrorCode

-- ErrorCodeToResponse
unfoldable pub error_code_to_response : ErrorCode → Option String → ErrorResponse
unfolding code_string
error_code_to_response code detail = record {
  code = code;
  error = code_string code;
  detail = detail;
}
