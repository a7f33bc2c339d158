-- ===== src/Checks/Melts.antt =====
-- Examples for melts: taking the inputs, internal settlement and the outcome.
use nutmix.Prelude.{[], ◌∷◌, ◌≡◌, refl, some, true}
use nutmix.Cashu.Errors.{ok}
use nutmix.Cashu.Types.{
  Proof, ProofState, MeltRequestDb, PostMeltBolt11Request, ActionState, unpaid, paid, proofs_amount,
  set_pending_and_quote_ref,
}
use nutmix.Cashu.Amounts.{get_messages_for_change, amount_split}
use nutmix.Cashu.Convert.{unit_from_string, to}
use nutmix.Cashu.Fees.{fees}
use nutmix.Cashu.SpendCondition.{is_proof_spend_conditioned}
use nutmix.Cashu.SpendCondition.SigAll.{proofs_have_sig_all}
use nutmix.Cashu.SpendCondition.Verify.{verify_proofs_spend_conditions, verify_proof_condition}
use nutmix.Crypto.{hash_to_curve}
use nutmix.Database
use nutmix.Database.{
  Tables, save_proof, save_restore_sigs, get_restore_sigs_from_blinded_messages,
  get_proofs_from_secret_curve, get_proofs_from_quote, get_melt_request_by_id,
  get_mint_request_by_request, change_mint_request_state, change_melt_request_state,
  add_preimage_melt_request, delete_change_by_quote, save_melt_change,
}
use nutmix.Mint.Exec.{
  query_unchecked, World, get_tx, clock, try, commit, statement, pure, lift, network, ◌>>=◌,
}
use nutmix.Mint.Inputs.{calculate_proofs_values, judge_known, distinct_outputs}
use nutmix.Mint.Outputs.{validate_proofs_unspent, validate_outputs_not_spent}
use nutmix.Mint.Units.{check_proofs_are_same_unit, verify_outputs}
use nutmix.Mint.Quotes.{bolt11}
use nutmix.Mint.Melt.Settle.{refresh_melt_quote_state}
use nutmix.Mint.Melt.Reserve.{
  validate_bolt11_melt_inputs, reserve_melt_inputs_and_mark_pending, settle_if_internal_melt,
}
use nutmix.Mint.Melt.Reserve.Internal.{Outcome, settle_if_internal_melt-SettledInternally}
use nutmix.Mint.Melt.Reserve.Taken.{Taken, reserve_melt_inputs-Taken}
use nutmix.Mint.Melt.Pay.{
  MeltResponse, execute_melt, bolt11_melt, attempt_bolt11_melt_payment, finalize_paid_bolt11_melt,
}
use nutmix.Checks.Fixtures.{
  env, proof, output, empty_tables, start, signature_of, paid_quote, melt_quote,
}

abbrev melt_request : PostMeltBolt11Request
melt_request = record { quote = "melt"; inputs = proof "text" ∷ []; outputs = output ∷ [] }

-- The melt quote alone, and with an unpaid mint quote of the same invoice.
abbrev outer_quote : Tables
outer_quote = record empty_tables { melt_request = melt_quote ∷ [] }

abbrev inner_quotes : Tables
inner_quotes = record outer_quote { mint_request = record paid_quote { state = unpaid } ∷ [] }

abbrev settled_quote : MeltRequestDb
settled_quote = record melt_quote { state = paid; melted = true }

abbrev taken_input : Proof
taken_input = record (proof "text") {
  y = "\u{2}Secp256k1_HashToCurve_Cashu_text0000";
  seen_at = 1002;
  state = ProofState.pending;
  quote = some "melt";
}

taken : reserve_melt_inputs_and_mark_pending env melt_request (start inner_quotes) ≡ (
  ok (settled_quote, taken_input ∷ []),
  (reserve_melt_inputs_and_mark_pending env melt_request (start inner_quotes)).1,
)
unfolding reserve_melt_inputs_and_mark_pending validate_proofs_unspent validate_outputs_not_spent
    query_unchecked calculate_proofs_values judge_known distinct_outputs hash_to_curve
    settle_if_internal_melt get_proofs_from_secret_curve get_restore_sigs_from_blinded_messages
    get_melt_request_by_id get_mint_request_by_request change_mint_request_state
    change_melt_request_state save_melt_change save_proof set_pending_and_quote_ref get_tx clock try
    commit statement pure lift ◌>>=◌
taken = refl

reserve_melt_inputs-Taken_example :
    Taken env melt_request
      (start inner_quotes)
      settled_quote
      (taken_input ∷ [])
      (reserve_melt_inputs_and_mark_pending env melt_request (start inner_quotes)).1.committed
reserve_melt_inputs-Taken_example =
    reserve_melt_inputs-Taken env melt_request (start inner_quotes)
      (reserve_melt_inputs_and_mark_pending env melt_request (start inner_quotes)).1 settled_quote
      (taken_input ∷ []) taken

abbrev open_world : World
open_world = record { committed = inner_quotes; tx = some inner_quotes; calls = 0 }

abbrev pending_quote : MeltRequestDb
pending_quote = record melt_quote { state = ActionState.pending }

settled_within :
    settle_if_internal_melt env pending_quote open_world
    ≡ (ok settled_quote, (settle_if_internal_melt env pending_quote open_world).1)
unfolding settle_if_internal_melt get_mint_request_by_request change_mint_request_state
    change_melt_request_state try statement pure lift ◌>>=◌
settled_within = refl

settle_if_internal_melt-SettledInternally_example :
    Outcome pending_quote settled_quote inner_quotes
      (settle_if_internal_melt env pending_quote open_world).1
settle_if_internal_melt-SettledInternally_example =
    settle_if_internal_melt-SettledInternally env pending_quote settled_quote inner_quotes
      open_world (settle_if_internal_melt env pending_quote open_world).1 refl settled_within

-- Of 8 satoshis 5 are paid and 1 is the input fee: the change is one signature, for 2.
abbrev outcome : MeltResponse
outcome = record {
  quote = record settled_quote { payment_preimage = "preimage" };
  change = signature_of (record output { amount = 2 }) ∷ [];
}

melted :
    execute_melt env melt_request bolt11 (start outer_quote)
    ≡ (ok outcome, (execute_melt env melt_request bolt11 (start outer_quote)).1)
unfolding execute_melt bolt11_melt refresh_melt_quote_state validate_bolt11_melt_inputs
    reserve_melt_inputs_and_mark_pending attempt_bolt11_melt_payment finalize_paid_bolt11_melt fees
    proofs_amount unit_from_string to check_proofs_are_same_unit verify_outputs proofs_have_sig_all
    is_proof_spend_conditioned verify_proofs_spend_conditions verify_proof_condition
    get_messages_for_change amount_split save_restore_sigs delete_change_by_quote
    add_preimage_melt_request Database.set_proofs_state get_proofs_from_quote
    validate_proofs_unspent validate_outputs_not_spent query_unchecked calculate_proofs_values
    judge_known distinct_outputs hash_to_curve settle_if_internal_melt get_proofs_from_secret_curve
    get_restore_sigs_from_blinded_messages get_melt_request_by_id get_mint_request_by_request
    change_mint_request_state change_melt_request_state save_melt_change save_proof
    set_pending_and_quote_ref get_tx clock try commit statement network pure lift ◌>>=◌
melted = refl
