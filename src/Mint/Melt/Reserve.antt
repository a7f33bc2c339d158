-- ===== src/Mint/Melt/Reserve.antt =====
-- Taking the inputs of a melt: validateBolt11MeltInputs, settleIfInternalMelt and
-- reserveMeltInputsAndMarkPending (internal/mint/melting.go).
pub mod Internal
pub mod Taken
use nutmix.Prelude.{List, [], ◌∷◌, true, not, str_eq, if◌then◌else◌, ltb, is_empty, add64}
use nutmix.Cashu.Errors.{
  Result, ok, err, panic, fail_if, quote_is_pending, melt_already_paid, not_enought_proofs,
  not_same_units, different_input_output_unit, unit_not_supported,
}
use nutmix.Cashu.Types.{
  PostMeltBolt11Request, MeltRequestDb, MintRequestDb, CashuUnit, unit_eq, Amount, Proof,
  BlindedMessage, proofs_amount, set_pending_and_quote_ref, ActionState, paid, is_pending, is_paid,
  is_unpaid, BasicKeysetResponse,
}
use nutmix.Cashu.Convert.{unit_from_string}
use nutmix.Cashu.Fees.{fees}
use nutmix.Cashu.SpendCondition.SigAll.{proofs_have_sig_all, validate_melt_sigflag}
use nutmix.Cashu.SpendCondition.Verify.{verify_proofs_spend_conditions}
use nutmix.Database.{
  get_melt_request_by_id, get_mint_request_by_request, save_proof, change_melt_request_state,
  change_mint_request_state, save_melt_change,
}
use nutmix.Mint.Environment.{Environment}
use nutmix.Mint.Exec.{M, pure, lift, try, clock, get_tx, find, update, insert, commit, ◌>>=◌, ◌>>◌}
use nutmix.Mint.Outputs.{validate_proofs_unspent, validate_outputs_not_spent}
use nutmix.Mint.Units.{check_proofs_are_same_unit, verify_outputs}
use nutmix.Mint.Melt.Quote.{is_no_rows}

-- bolt11MeltData
pub record Bolt11MeltData : Type 0 where
  pub fee : Amount
  pub amount_proofs : Amount
  pub unit : CashuUnit

module _ (e : Environment) where
  -- `if len(meltRequest.Outputs) > 0`: the outputs have the unit of the proofs.
  check_output_unit : List BlindedMessage → CashuUnit → List BasicKeysetResponse → Result (Unit {0})
  check_output_unit outputs unit keysets =
      if is_empty outputs then ok tt else elim (verify_outputs e.x outputs keysets) [
        | ok out ↦ fail_if (not (unit_eq unit out)) (not_same_units ∷ [])
        | err x ↦ err x
        | panic ↦ panic
      ]

  -- validateBolt11MeltInputs
  unfoldable pub validate_bolt11_melt_inputs :
      PostMeltBolt11Request → MeltRequestDb → M Bolt11MeltData
  unfolding check_output_unit
  validate_bolt11_melt_inputs r q = do
    lift (fail_if (is_empty r.inputs) [])
    lift (fail_if (is_pending q.state) (quote_is_pending ∷ []))
    lift (fail_if q.melted (melt_already_paid ∷ []))
    keysets ← lift e.signer.get_keysets
    fee ← lift (fees r.inputs keysets)
    lift (
        fail_if (ltb (proofs_amount r.inputs) (add64 (add64 q.amount q.fee_reserve) fee))
          (not_enought_proofs ∷ []))
    unit ← lift (unit_from_string e.x q.unit)
    proof_unit ← lift (check_proofs_are_same_unit e.x r.inputs keysets)
    lift (check_output_unit r.outputs proof_unit keysets)
    lift (e.signer.verify_proofs r.inputs)
    now ← clock e
    sig_all ← lift (proofs_have_sig_all e.x r.inputs)
    lift (
        if sig_all
        then validate_melt_sigflag e.x now r
        else verify_proofs_spend_conditions e.x now r.inputs)
    lift (fail_if (not (unit_eq unit proof_unit)) (different_input_output_unit ∷ []))
    pure (record {
      fee = record { unit = proof_unit; amount = fee };
      amount_proofs = record { unit = proof_unit; amount = proofs_amount r.inputs };
      unit = unit;
    })

  -- Behind the comparison of the requests: both quotes are marked as paid.
  settle_rows : MeltRequestDb → MintRequestDb → M MeltRequestDb
  settle_rows q m = do
    lift (fail_if (is_paid q.state) (melt_already_paid ∷ []))
    lift (fail_if (not (str_eq q.unit m.unit)) (unit_not_supported ∷ []))
    lift (fail_if (not (is_unpaid m.state)) [])
    update e (change_mint_request_state m.quote paid m.minted)
    update e (change_melt_request_state q.quote paid true 0)
    pure (record q { fee_paid = 0; state = paid; melted = true })

  -- The body of settleIfInternalMelt once a mint quote for the invoice is found.
  settle_with : MeltRequestDb → MintRequestDb → M MeltRequestDb
  unfolding settle_rows
  settle_with q m = if not (str_eq m.request q.request) then pure q else settle_rows q m

  after_mint_lookup : MeltRequestDb → Result MintRequestDb → M MeltRequestDb
  unfolding settle_with
  after_mint_lookup q (ok m) = settle_with q m
  after_mint_lookup q (err x) = if is_no_rows x then pure q else lift (err x)
  after_mint_lookup q panic = lift panic

  -- settleIfInternalMelt, in the open transaction
  unfoldable pub settle_if_internal_melt : MeltRequestDb → M MeltRequestDb
  unfolding after_mint_lookup
  settle_if_internal_melt q =
      try (find e (get_mint_request_by_request q.request)) >>= after_mint_lookup q

  -- reserveMeltInputsAndMarkPending. The slices of the request share their elements with the
  -- proofs that are saved, so the inputs come back with the quote: later steps find them by Y.
  unfoldable pub reserve_melt_inputs_and_mark_pending :
      PostMeltBolt11Request → M (MeltRequestDb × List Proof)
  reserve_melt_inputs_and_mark_pending r = do
    get_tx e
    quote ← find e (get_melt_request_by_id r.quote)
    lift (fail_if (is_pending quote.state) (quote_is_pending ∷ []))
    lift (fail_if quote.melted (melt_already_paid ∷ []))
    proofs ← validate_proofs_unspent e r.inputs
    validate_outputs_not_spent e r.outputs
    let taken = set_pending_and_quote_ref quote.quote proofs
    insert e (save_proof taken)
    update e (change_melt_request_state quote.quote ActionState.pending quote.melted quote.fee_paid)
    now ← clock e
    update e (save_melt_change r.outputs quote.quote now)
    settled ← settle_if_internal_melt (record quote { state = ActionState.pending })
    commit e
    pure (settled, taken)
