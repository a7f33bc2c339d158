-- ===== src/Checks/Codes.antt =====
-- Examples for the error codes that clients get.
use nutmix.Prelude.{[], ◌∷◌, some, ◌≡◌, refl}
use nutmix.Cashu.Errors.{payment_failed}
use nutmix.Cashu.Codes.{
  code_number, code_string, error_code_to_response, duplicate_outputs, proof_verification_failed,
  lightning_payment_failed,
}
use nutmix.Mint.Codes.{parse_error_to_cashu_error_code}

-- A failed payment is answered with an empty text and the detail of another error.
payment_failed_answer :
    parse_error_to_cashu_error_code (payment_failed ∷ [])
    ≡ (lightning_payment_failed, some "not enough proofs")
unfolding parse_error_to_cashu_error_code
payment_failed_answer = refl

payment_failed_text :
    (error_code_to_response lightning_payment_failed (some "not enough proofs")).error ≡ ""
unfolding error_code_to_response
payment_failed_text = refl

duplicate_outputs_text : code_string duplicate_outputs ≡ "Duplicate inputs provided"
unfolding code_string
duplicate_outputs_text = refl

verification_number : code_number proof_verification_failed ≡ 10001
unfolding code_number
verification_number = refl
