-- ===== src/Checks/Requests.antt =====
-- Examples for requests: swaps, minting, melting, restoring and asking for states.
use nutmix.Prelude.{none, [], ◌∷◌, ◌≡◌, refl}
use nutmix.Cashu.Errors.{ok}
use nutmix.Cashu.Types.{
  Proof, ProofState, BlindedMessage, RecoverSigDb, PostSwapRequest, PostMintBolt11Request,
  PostMeltBolt11Request, PostMeltQuoteBolt11Request, MintRequestDb, Amount, sat, paid, spent,
  unpaid, get_sig_and_message, proofs_amount, messages_amount, issued,
}
use nutmix.Cashu.Convert.{unit_from_string}
use nutmix.Cashu.Fees.{fees}
use nutmix.Cashu.SpendCondition.{is_proof_spend_conditioned}
use nutmix.Cashu.SpendCondition.SigAll.{proofs_have_sig_all}
use nutmix.Cashu.SpendCondition.Verify.{verify_proofs_spend_conditions, verify_proof_condition}
use nutmix.Crypto.{hash_to_curve}
use nutmix.Database
use nutmix.Database.{
  Tables, save_proof, save_restore_sigs, get_restore_sigs_from_blinded_messages,
  get_proofs_from_secret_curve,
}
use nutmix.Database.Laws.{Spent}
use nutmix.Mint.Exec.{
  query_unchecked, get_tx, clock, try, commit, rollback, statement, pure, lift, ◌>>=◌,
}
use nutmix.Mint.Exec.Rules.{Holds}
use nutmix.Mint.Inputs.{calculate_proofs_values, judge_known, distinct_outputs}
use nutmix.Mint.Outputs.{validate_proofs_unspent, validate_outputs_not_spent}
use nutmix.Mint.Units.{check_proofs_are_same_unit, verify_outputs}
use nutmix.Mint.Balance.{validate_swap_balance_and_units, validate_swap_proofs_and_spend_conditions}
use nutmix.Mint.Balance.Value.{Balanced, validate_swap_balance_and_units-Balanced}
use nutmix.Mint.Swap.{execute_swap, reserve_swap_inputs, sign_swap_outputs_and_mark_inputs_spent}
use nutmix.Mint.Swap.Spent.{execute_swap-Spent}
use nutmix.Mint.Swap.Live.{execute_swap-works}
use nutmix.Mint.Swap.Success.{Swapped, execute_swap-Swapped}
use nutmix.Checks.Fixtures.{
  env, plain, proof, output, empty_tables, start, signature_of, recovery_of,
}

abbrev swap_request : PostSwapRequest
swap_request = record { inputs = proof "text" ∷ []; outputs = output ∷ [] }

balance_accepted : validate_swap_balance_and_units env swap_request ≡ ok tt
unfolding validate_swap_balance_and_units fees proofs_amount messages_amount
    check_proofs_are_same_unit verify_outputs unit_from_string
balance_accepted = refl

validate_swap_balance_and_units-Balanced_example : Balanced env swap_request
validate_swap_balance_and_units-Balanced_example =
    validate_swap_balance_and_units-Balanced env swap_request balance_accepted

swapped :
    execute_swap env swap_request (start empty_tables)
    ≡ (ok (signature_of output ∷ []), (execute_swap env swap_request (start empty_tables)).1)
unfolding execute_swap reserve_swap_inputs sign_swap_outputs_and_mark_inputs_spent
    validate_swap_balance_and_units fees proofs_amount messages_amount check_proofs_are_same_unit
    verify_outputs unit_from_string validate_swap_proofs_and_spend_conditions proofs_have_sig_all
    is_proof_spend_conditioned verify_proofs_spend_conditions verify_proof_condition
    validate_proofs_unspent validate_outputs_not_spent query_unchecked calculate_proofs_values
    judge_known distinct_outputs hash_to_curve get_tx clock try commit rollback statement pure lift
    ◌>>=◌ save_proof save_restore_sigs get_restore_sigs_from_blinded_messages
    get_proofs_from_secret_curve Database.set_proofs_state nutmix.Cashu.Types.set_proofs_state
swapped = refl

execute_swap-Swapped_example :
    Swapped env swap_request
      (signature_of output ∷ [])
      (execute_swap env swap_request (start empty_tables)).1
execute_swap-Swapped_example =
    execute_swap-Swapped env swap_request (start empty_tables)
      (execute_swap env swap_request (start empty_tables)).1 (signature_of output ∷ []) swapped

-- The proof of another request is spent before and after the swap.
abbrev one_spent : Tables
one_spent = record empty_tables {
  proofs = record (proof "old") { y = "old key"; state = spent } ∷ [];
}

execute_swap-Spent_example :
    Holds (Spent "old key") (execute_swap env swap_request (start one_spent)).1
execute_swap-Spent_example =
    execute_swap-Spent env "old key" swap_request (start one_spent) (λ n t h. h) (refl, tt)

abbrev valued_input : Proof
valued_input = record (proof "text") {
  y = "\u{2}Secp256k1_HashToCurve_Cashu_text0000";
  seen_at = 1002;
}

abbrev reserved_tables : Tables
reserved_tables = record empty_tables {
  proofs = record valued_input { state = ProofState.pending } ∷ [];
}

abbrev final_tables : Tables
final_tables = record empty_tables {
  proofs = record valued_input { state = spent } ∷ [];
  recovery_signature = recovery_of output ∷ [];
}

input_valued : calculate_proofs_values plain 1002 (proof "text" ∷ []) ≡ ok (valued_input ∷ [])
unfolding calculate_proofs_values hash_to_curve
input_valued = refl

input_unknown :
    get_proofs_from_secret_curve ("\u{2}Secp256k1_HashToCurve_Cashu_text0000" ∷ []) empty_tables
    ≡ []
unfolding get_proofs_from_secret_curve
input_unknown = refl

conditions_hold : validate_swap_proofs_and_spend_conditions env 1000 swap_request ≡ ok tt
unfolding validate_swap_proofs_and_spend_conditions proofs_have_sig_all is_proof_spend_conditioned
    verify_proofs_spend_conditions verify_proof_condition
conditions_hold = refl

outputs_differ : distinct_outputs [] (output ∷ []) ≡ ok ("point" ∷ [])
unfolding distinct_outputs
outputs_differ = refl

output_unsigned : get_restore_sigs_from_blinded_messages ("point" ∷ []) empty_tables ≡ []
unfolding get_restore_sigs_from_blinded_messages
output_unsigned = refl

input_saved :
    save_proof
      (nutmix.Cashu.Types.set_proofs_state ProofState.pending (valued_input ∷ []))
      empty_tables
    ≡ ok reserved_tables
unfolding save_proof nutmix.Cashu.Types.set_proofs_state
input_saved = refl

signature_stored :
    save_restore_sigs (recovery_of output ∷ []) (
      Database.set_proofs_state
        (nutmix.Cashu.Types.set_proofs_state ProofState.pending (valued_input ∷ []))
        spent
        reserved_tables)
    ≡ ok final_tables
unfolding save_restore_sigs Database.set_proofs_state nutmix.Cashu.Types.set_proofs_state
signature_stored = refl

execute_swap-works_example :
    execute_swap env swap_request (start empty_tables)
    ≡ (ok (signature_of output ∷ []), record { committed = final_tables; tx = none; calls = 13 })
execute_swap-works_example =
    execute_swap-works env (λ n. refl) (λ n t. refl) swap_request (start empty_tables)
      (valued_input ∷ []) ("point" ∷ []) reserved_tables final_tables (signature_of output ∷ [])
      (recovery_of output ∷ []) balance_accepted conditions_hold input_valued input_unknown
      outputs_differ output_unsigned input_saved refl signature_stored
