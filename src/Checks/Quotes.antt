-- ===== src/Checks/Quotes.antt =====
-- Examples for mint and melt quotes, restoring and asking for states.
use nutmix.Prelude.{◌+◌, List, [], ◌∷◌, ◌++◌, ◌≡◌, refl, some, none, true, false, add64}
use nutmix.Cashu.Errors.{ok}
use nutmix.Cashu.Types.{
  Proof, BlindedMessage, PostMintBolt11Request, PostMeltBolt11Request, PostMeltQuoteBolt11Request,
  MintRequestDb, MeltRequestDb, Amount, sat, paid, spent, unpaid, get_sig_and_message,
  proofs_amount, messages_amount, RecoverSigDb,
}
use nutmix.Cashu.Amounts.{get_messages_for_change, amount_split}
use nutmix.Cashu.Convert.{unit_from_string, unit_string, to}
use nutmix.Cashu.Fees.{fees}
use nutmix.Cashu.SpendCondition.{is_proof_spend_conditioned}
use nutmix.Cashu.SpendCondition.SigAll.{proofs_have_sig_all}
use nutmix.Cashu.SpendCondition.Verify.{verify_proofs_spend_conditions, verify_proof_condition}
use nutmix.Database
use nutmix.Database.{
  Tables, save_restore_sigs, get_restore_sigs_from_blinded_messages, get_proofs_from_secret_curve,
  get_mint_request_by_id, change_mint_request_state, change_melt_request_state,
  add_preimage_melt_request, delete_change_by_quote,
}
use nutmix.Mint.Exec.{query_unchecked, get_tx, clock, commit, statement, pure, lift, network, ◌>>=◌}
use nutmix.Mint.Outputs.{validate_outputs_not_spent}
use nutmix.Mint.Inputs.{distinct_outputs}
use nutmix.Mint.Units.{check_proofs_are_same_unit, verify_outputs}
use nutmix.Mint.Quotes.{
  bolt11, expiry_seconds, issue_tokens, load_and_validate_mint_quote_for_issuance, bolt11_mint,
  sign_mint_outputs_and_mark_issued, validate_mint_issuance_auth, reconcile_bolt11_mint_quote_state,
}
use nutmix.Mint.Quotes.Issue.{Loaded, Issuing, issue_tokens-Covered}
use nutmix.Mint.Quotes.Stale.{reconcile_bolt11_mint_quote_state-Stale}
use nutmix.Mint.Melt.Quote.Created.{Created}
use nutmix.Mint.Melt.Reserve.{Bolt11MeltData, validate_bolt11_melt_inputs}
use nutmix.Mint.Melt.Reservation.{Funded, validate_bolt11_melt_inputs-Funded}
use nutmix.Mint.Melt.Pay.{MeltResponse, finalize_paid_bolt11_melt}
use nutmix.Mint.Melt.Pay.Change.{Bounded, finalize_paid_bolt11_melt-Bounded}
use nutmix.Mint.Restore.{restore}
use nutmix.Mint.Restore.RoundTrip.{restore-save_restore_sigs}
use nutmix.Mint.State.{
  CheckState, check_proof_state, check_states, contains_func, AllTold, check_proof_state-reported,
}
use nutmix.Checks.Fixtures.{
  env, plain, proof, output, empty_tables, start, signature_of, recovery_of, paid_quote, melt_quote,
  zero_sat,
}

abbrev mint_request : PostMintBolt11Request
mint_request = record { signature = none; quote = "quote"; outputs = output ∷ [] }

abbrev one_quote : Tables
one_quote = record empty_tables { mint_request = paid_quote ∷ [] }

-- The invoice of the fixture is one of 7000 millisatoshis, and the output is worth 7 satoshis.
tokens_issued :
    issue_tokens env mint_request bolt11 (start one_quote)
    ≡ (ok (signature_of output ∷ []), (issue_tokens env mint_request bolt11 (start one_quote)).1)
unfolding issue_tokens load_and_validate_mint_quote_for_issuance bolt11_mint unit_string to
    sign_mint_outputs_and_mark_issued validate_mint_issuance_auth unit_from_string verify_outputs
    messages_amount validate_outputs_not_spent query_unchecked distinct_outputs
    get_mint_request_by_id get_restore_sigs_from_blinded_messages change_mint_request_state
    save_restore_sigs get_tx clock commit statement pure lift ◌>>=◌
tokens_issued = refl

issue_tokens-Covered_example :
    (bolt11 ≡ bolt11)
    × (q : MintRequestDb) × Loaded env mint_request (start one_quote) q
    × Issuing env mint_request q
        (signature_of output ∷ [])
        (issue_tokens env mint_request bolt11 (start one_quote)).1
issue_tokens-Covered_example =
    issue_tokens-Covered env mint_request bolt11 (start one_quote)
      (issue_tokens env mint_request bolt11 (start one_quote)).1 (signature_of output ∷ [])
      tokens_issued

-- The stored quote is issued, the caller's copy is older.
abbrev issued_quote : Tables
issued_quote = record empty_tables {
  mint_request = record paid_quote { state = nutmix.Cashu.Types.issued; minted = true } ∷ [];
}

abbrev stale_copy : MintRequestDb
stale_copy = record paid_quote { state = unpaid }

reconciled :
    reconcile_bolt11_mint_quote_state env stale_copy (start issued_quote)
    ≡ (ok paid_quote, (reconcile_bolt11_mint_quote_state env stale_copy (start issued_quote)).1)
unfolding reconcile_bolt11_mint_quote_state get_mint_request_by_id change_mint_request_state get_tx
    network commit statement pure lift ◌>>=◌
reconciled = refl

reconcile_bolt11_mint_quote_state-Stale_example :
    (paid ≡ paid)
    × (false ≡ false)
    × (get_mint_request_by_id "quote"
          (reconcile_bolt11_mint_quote_state env stale_copy (start issued_quote)).1.committed
        ≡ ok paid_quote)
reconcile_bolt11_mint_quote_state-Stale_example =
    reconcile_bolt11_mint_quote_state-Stale env stale_copy (record { milli_sat = some 7000 })
      (start issued_quote) (reconcile_bolt11_mint_quote_state env stale_copy (start issued_quote)).1
      paid_quote refl refl reconciled

abbrev quote_request : PostMeltQuoteBolt11Request
quote_request = record { mpp = 0; request = "invoice"; unit = "sat" }

abbrev new_melt_quote : MeltRequestDb
new_melt_quote = record melt_quote {
  quote = "quote";
  amount = 7;
  expiry = 1003 + expiry_seconds;
  seen_at = 1003;
}

abbrev melt_request : PostMeltBolt11Request
melt_request = record { quote = "melt"; inputs = proof "text" ∷ []; outputs = output ∷ [] }

abbrev melt_data : Bolt11MeltData
melt_data = record {
  fee = record { unit = sat; amount = 1 };
  amount_proofs = record { unit = sat; amount = 8 };
  unit = sat;
}

funded : validate_bolt11_melt_inputs env melt_request melt_quote (start empty_tables) ≡ (
  ok melt_data,
  (validate_bolt11_melt_inputs env melt_request melt_quote (start empty_tables)).1,
)
unfolding validate_bolt11_melt_inputs fees proofs_amount unit_from_string check_proofs_are_same_unit
    verify_outputs proofs_have_sig_all is_proof_spend_conditioned verify_proofs_spend_conditions
    verify_proof_condition clock pure lift ◌>>=◌
funded = refl

validate_bolt11_melt_inputs-Funded_example : Funded env melt_request melt_quote melt_data
validate_bolt11_melt_inputs-Funded_example =
    validate_bolt11_melt_inputs-Funded env melt_request melt_quote (start empty_tables)
      (validate_bolt11_melt_inputs env melt_request melt_quote (start empty_tables)).1 melt_data
      funded

-- Of 8 satoshis 6 are spent: the change is one signature, for 2.
abbrev finished : MeltResponse
finished = record { quote = melt_quote; change = signature_of (record output { amount = 2 }) ∷ [] }

finalized :
    finalize_paid_bolt11_melt env melt_data
      (output ∷ [])
      (proof "text" ∷ [])
      melt_quote
      zero_sat
      (start empty_tables)
    ≡ (
      ok finished,
      (finalize_paid_bolt11_melt env melt_data
          (output ∷ [])
          (proof "text" ∷ [])
          melt_quote
          zero_sat
          (start empty_tables)).1,
    )
unfolding finalize_paid_bolt11_melt to get_messages_for_change amount_split save_restore_sigs
    delete_change_by_quote change_melt_request_state add_preimage_melt_request
    Database.set_proofs_state get_tx clock commit statement pure lift ◌>>=◌
finalized = refl

finalize_paid_bolt11_melt-Bounded_example :
    (melt_quote ≡ melt_quote)
    × (lightning : Amount) × (fee : Amount) × (to plain zero_sat sat ≡ ok lightning)
    × (to plain (record { unit = sat; amount = 1 }) sat ≡ ok fee)
    × Bounded env 8 (add64 (add64 5 lightning.amount) fee.amount) finished.change
finalize_paid_bolt11_melt-Bounded_example =
    finalize_paid_bolt11_melt-Bounded env melt_data (output ∷ []) (proof "text" ∷ []) melt_quote
      zero_sat (start empty_tables)
      (finalize_paid_bolt11_melt env melt_data (output ∷ []) (proof "text" ∷ []) melt_quote zero_sat
        (start empty_tables)).1
      finished finalized

abbrev one_signature : Tables
one_signature = record empty_tables { recovery_signature = recovery_of output ∷ [] }

signature_saved : save_restore_sigs ([] ++ recovery_of output ∷ []) empty_tables ≡ ok one_signature
unfolding save_restore_sigs
signature_saved = refl

restore-save_restore_sigs_example :
    (restore env (output ∷ []) (start one_signature)).0
    ≡ ok (get_sig_and_message (recovery_of output) ∷ [])
restore-save_restore_sigs_example =
    restore-save_restore_sigs env (recovery_of output) [] [] empty_tables (start one_signature)
      output signature_saved refl (λ n. refl) (λ n s. refl)

-- The second key is in no row, and is reported as spent with the first.
abbrev spent_row : Tables
spent_row = record empty_tables {
  proofs = record (proof "old") { y = "known"; state = spent } ∷ [];
}

abbrev two_states : List CheckState
two_states =
    record { y = "known"; witness = some "owner"; state = spent }
    ∷ record { y = "unknown"; witness = some "owner"; state = spent }
    ∷ []

states_told :
    check_proof_state env ("known" ∷ "unknown" ∷ []) (start spent_row)
    ≡ (ok two_states, (check_proof_state env ("known" ∷ "unknown" ∷ []) (start spent_row)).1)
unfolding check_proof_state check_states contains_func get_proofs_from_secret_curve get_tx commit
    statement pure ◌>>=◌
states_told = refl

check_proof_state-reported_example :
    AllTold
      (get_proofs_from_secret_curve ("known" ∷ "unknown" ∷ []) spent_row)
      ("known" ∷ "unknown" ∷ [])
      two_states
check_proof_state-reported_example =
    check_proof_state-reported env ("known" ∷ "unknown" ∷ []) (start spent_row)
      (check_proof_state env ("known" ∷ "unknown" ∷ []) (start spent_row)).1 two_states states_told
