-- ===== src/Mint/Codes.antt =====
-- ParseErrorToCashuErrorCode (internal/utils/proofs.go): the code that a client gets for an error.
use nutmix.Prelude.{ℕ, String, List, [], ◌∷◌, Bool, Option, none, some, ◌==◌, if◌then◌else◌, any}
use nutmix.Cashu.Errors.{
  Error, Sentinel, blind_message_already_signed, empty_witness, payment_no_route,
  no_valid_signatures, not_enough_signatures, invalid_proof, invalid_blind_message,
  invalid_preimage, amountless_invoice_not_supported, amount_outside_limit, mintint_disabled,
  mint_request_already_issued, using_inactive_keyset, melt_already_paid, proof_spent, proof_pending,
  not_same_units, not_enought_proofs, unbalanced, repeated_output, repeated_input,
  amount_not_equal_to_invoice, request_not_paid, quote_is_pending, unit_not_supported,
  different_input_output_unit, keyset_not_know, lock_unavailable, payment_failed,
  mint_quote_no_public_key, mint_quote_no_valid_signature, could_not_parse_public_key,
}
use nutmix.Cashu.Codes.{
  ErrorCode, amount_less_invoice_not_supported, amount_not_equal_to_invoice, duplicate_inputs,
  duplicate_outputs, inactive_keyset, input_output_not_same_unit, insuficient_outside_limit,
  invoice_already_paid, keyset_not_know, lightning_payment_failed, mint_quote_invalid_pub_key,
  mint_quote_invalid_sig, minting_disabled, outputs_already_signed, proof_already_spent,
  proof_verification_failed, proofs_pending, quote_already_issued, quote_pending, request_not_paid,
  transaction_not_balanced, unit_not_supported, unknown,
}

-- A number for each sentinel, to compare them by identity as `errors.Is` does.
abbrev sentinel_index : Sentinel → ℕ
sentinel_index Sentinel.could_not_parse_unit_string = 0
sentinel_index Sentinel.could_not_parse_public_key = 1
sentinel_index Sentinel.invalid_proof = 2
sentinel_index Sentinel.message_too_big = 3
sentinel_index Sentinel.invalid_blind_message = 4
sentinel_index Sentinel.could_not_convert_unit = 5
sentinel_index Sentinel.unbalanced = 6
sentinel_index Sentinel.not_same_units = 7
sentinel_index Sentinel.repeated_output = 8
sentinel_index Sentinel.repeated_input = 9
sentinel_index Sentinel.payment_failed = 10
sentinel_index Sentinel.payment_no_route = 11
sentinel_index Sentinel.mint_quote_no_public_key = 12
sentinel_index Sentinel.mint_quote_no_valid_signature = 13
sentinel_index Sentinel.using_inactive_keyset = 14
sentinel_index Sentinel.melt_already_paid = 15
sentinel_index Sentinel.quote_is_pending = 16
sentinel_index Sentinel.unit_not_supported = 17
sentinel_index Sentinel.different_input_output_unit = 18
sentinel_index Sentinel.not_enought_proofs = 19
sentinel_index Sentinel.proof_spent = 20
sentinel_index Sentinel.proof_pending = 21
sentinel_index Sentinel.blind_message_already_signed = 22
sentinel_index Sentinel.common_secret_not_correct_size = 23
sentinel_index Sentinel.payment_method_not_supported = 24
sentinel_index Sentinel.mint_request_already_issued = 25
sentinel_index Sentinel.amount_not_equal_to_invoice = 26
sentinel_index Sentinel.mintint_disabled = 27
sentinel_index Sentinel.amount_outside_limit = 28
sentinel_index Sentinel.request_not_paid = 29
sentinel_index Sentinel.amountless_invoice_not_supported = 30
sentinel_index Sentinel.keyset_not_know = 31
sentinel_index Sentinel.invalid_spend_condition = 32
sentinel_index Sentinel.invalid_tag_name = 33
sentinel_index Sentinel.invalid_tag_value = 34
sentinel_index Sentinel.invalid_sig_flag = 35
sentinel_index Sentinel.malformed_tag = 36
sentinel_index Sentinel.could_not_parse_spend_condition = 37
sentinel_index Sentinel.could_not_parse_witness = 38
sentinel_index Sentinel.empty_witness = 39
sentinel_index Sentinel.no_valid_signatures = 40
sentinel_index Sentinel.not_enough_signatures = 41
sentinel_index Sentinel.invalid_hex_preimage = 42
sentinel_index Sentinel.invalid_preimage = 43
sentinel_index Sentinel.no_keyset_found = 44
sentinel_index Sentinel.no_rows = 45
sentinel_index Sentinel.tx_closed = 46
sentinel_index Sentinel.lock_unavailable = 47

-- `errors.Is(err, s)`
abbrev has_sentinel : Sentinel → Error → Bool
has_sentinel s e = any (λ t. sentinel_index t == sentinel_index s) e

-- The cases of the switch in order: the sentinel, the code and the detail.
abbrev Case : Type 0
Case = Sentinel × ErrorCode × Option String

switch_cases : List Case
switch_cases =
    (blind_message_already_signed, outputs_already_signed, some "blind message already signed")
    ∷ (empty_witness, proof_verification_failed, some "Empty Witness")
    ∷ (payment_no_route, lightning_payment_failed, some "No route found for payment")
    ∷ (no_valid_signatures, proof_verification_failed, none)
    ∷ (not_enough_signatures, proof_verification_failed, none)
    ∷ (invalid_proof, proof_verification_failed, some "invalid proof")
    ∷ (invalid_blind_message, proof_verification_failed, some "invalid blind message")
    ∷ (invalid_preimage, proof_verification_failed, some "invalid preimage")
    ∷ (
      amountless_invoice_not_supported,
      amount_less_invoice_not_supported,
      some "Amount less invoices not supported",
    )
    ∷ (amount_outside_limit, insuficient_outside_limit, some "amount is outside the limit")
    ∷ (mintint_disabled, minting_disabled, some "minting is disabled")
    ∷ (mint_request_already_issued, quote_already_issued, some "mint request already issued")
    ∷ (using_inactive_keyset, inactive_keyset, none)
    ∷ (melt_already_paid, invoice_already_paid, some "melt already paid")
    ∷ (proof_spent, proof_already_spent, some "proof already spent")
    ∷ (proof_pending, proofs_pending, some "Proofs are pending")
    ∷ (not_same_units, transaction_not_balanced, some "not same units")
    ∷ (not_enought_proofs, transaction_not_balanced, some "not enough proofs")
    ∷ (unbalanced, transaction_not_balanced, some "unbalanced transactions")
    ∷ (repeated_output, duplicate_outputs, some "duplicate outputs provided")
    ∷ (repeated_input, duplicate_inputs, some "duplicate inputs provided")
    ∷ (
      amount_not_equal_to_invoice,
      amount_not_equal_to_invoice,
      some "Amount in request does not equal invoice",
    )
    ∷ (request_not_paid, request_not_paid, some "request not paid yet")
    ∷ (quote_is_pending, quote_pending, some "quote is pending")
    ∷ (unit_not_supported, unit_not_supported, some "unit not supported")
    ∷ (different_input_output_unit, input_output_not_same_unit, some "different input output unit")
    ∷ (invalid_preimage, proof_verification_failed, some "invalid preimage")
    ∷ (blind_message_already_signed, outputs_already_signed, some "blind message already signed")
    ∷ (keyset_not_know, keyset_not_know, some "keyset not known")
    ∷ (lock_unavailable, quote_pending, some "Transaction is already pending")
    ∷ (payment_failed, lightning_payment_failed, some "not enough proofs")
    ∷ (mint_quote_no_public_key, mint_quote_invalid_pub_key, none)
    ∷ (mint_quote_no_valid_signature, mint_quote_invalid_sig, none)
    ∷ (
      could_not_parse_public_key,
      proof_verification_failed,
      some "could not parse public key string",
    )
    ∷ []

-- The first case whose sentinel the error has.
first_case : List Case → Error → ErrorCode × Option String
first_case [] e = (unknown, none)
first_case ((s, code, detail) ∷ cs) e = if has_sentinel s e then (code, detail) else first_case cs e

unfoldable pub parse_error_to_cashu_error_code : Error → ErrorCode × Option String
unfolding first_case switch_cases
parse_error_to_cashu_error_code e = first_case switch_cases e
