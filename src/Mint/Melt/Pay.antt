-- ===== src/Mint/Melt/Pay.antt =====
-- Paying for a melt: attemptBolt11MeltPayment, finalizePaidBolt11Melt, bolt11Melt and ExecuteMelt
-- (internal/mint/melting.go).
pub mod Change
pub mod Paid
pub mod Outcome
use nutmix.Prelude.{
  ℕ, ◌-◌, String, List, [], ◌∷◌, Bool, true, false, not, ◌||◌, ◌&&◌, if◌then◌else◌, ltb, is_empty,
  add64,
}
use nutmix.Cashu.Errors.{Result, ok, err, panic, payment_method_not_supported}
use nutmix.Cashu.Types.{
  PostMeltBolt11Request, MeltRequestDb, Proof, ProofState, BlindedMessage, BlindSignature,
  RecoverSigDb, Amount, CashuUnit, ActionState, paid, unpaid, is_paid,
}
use nutmix.Cashu.Types
use nutmix.Cashu.Amounts.{get_messages_for_change}
use nutmix.Cashu.Convert.{unit_from_string, to}
use nutmix.Database.{
  save_restore_sigs, delete_change_by_quote, set_proofs_state, change_melt_request_state,
  add_preimage_melt_request, delete_proofs, change_checking_id,
}
use nutmix.Mint.Environment.{
  Environment, Invoice, PaymentStatus, PaymentResponse, PaymentCheck, settled, failed, pending,
  unknown,
}
use nutmix.Mint.Exec.{M, pure, lift, clock, network, get_tx, update, insert, commit, ◌>>=◌, ◌>>◌}
use nutmix.Mint.Quotes.{Method, bolt11}
use nutmix.Mint.Melt.Reserve.{
  Bolt11MeltData, validate_bolt11_melt_inputs, reserve_melt_inputs_and_mark_pending,
}
use nutmix.Mint.Melt.Settle.{refresh_melt_quote_state}

-- `FAILED || UNKNOWN || PENDING`
abbrev is_doubtful : PaymentStatus → Bool
is_doubtful settled = false
is_doubtful _ = true

-- PostMeltQuoteBolt11Response: the fields of the quote and the change.
pub record MeltResponse : Type 0 where
  pub quote : MeltRequestDb
  pub change : List BlindSignature

module _ (e : Environment) where
  -- The `switch status` behind a payment that may have failed. An unknown status releases the
  -- proofs as a failed one does.
  record_status : MeltRequestDb → List Proof → PaymentStatus → M MeltRequestDb
  record_status q inputs failed = do
    update e (change_melt_request_state q.quote unpaid q.melted q.fee_paid)
    update e (delete_proofs inputs)
    update e (delete_change_by_quote q.quote)
    pure (record q { state = unpaid })
  record_status q inputs unknown = do
    update e (change_melt_request_state q.quote unpaid q.melted q.fee_paid)
    update e (delete_proofs inputs)
    update e (delete_change_by_quote q.quote)
    pure (record q { state = unpaid })
  record_status q inputs _ = do
    update e (change_melt_request_state q.quote ActionState.pending q.melted q.fee_paid)
    pure (record q { state = ActionState.pending })

  -- The recheck after a payment that did not plainly succeed.
  recheck_payment :
      MeltRequestDb
      → List Proof
      → Invoice
      → CashuUnit
      → PaymentResponse
      → M (MeltRequestDb × Amount)
  unfolding record_status
  recheck_payment q inputs invoice unit payment = do
    get_tx e
    update e (change_checking_id q.quote payment.checking_id)
    commit e
    check ← network e (λ n. e.backend.check_payed n q.quote invoice payment.checking_id)
    fee ← lift (to e.x check.fee unit)
    get_tx e
    quote ←
        record_status (record q { checking_id = payment.checking_id; fee_paid = fee.amount }) inputs
          check.status
    commit e
    pure (quote, record { unit = unit; amount = 0 })

  -- The fields of a quote that the payment has settled.
  pay_plainly : MeltRequestDb → CashuUnit → PaymentResponse → M (MeltRequestDb × Amount)
  pay_plainly q unit payment = do
    fee ← lift (to e.x payment.paid_fee unit)
    let done : MeltRequestDb = record q {
      payment_preimage = payment.preimage;
      fee_paid = fee.amount;
      state = paid;
      melted = true;
    }
    pure (done, fee)

  -- PayInvoice with the reserve and the amount of the quote.
  ask_payment : MeltRequestDb → Invoice → CashuUnit → M (PaymentResponse × Bool)
  ask_payment q invoice unit =
      let reserve : Amount = record { unit = unit; amount = q.fee_reserve } in
      let amount : Amount = record { unit = unit; amount = q.amount } in
      network e (λ n. ok (e.backend.pay_invoice n q invoice reserve q.mpp amount))

  pay_quote : MeltRequestDb → List Proof → Invoice → CashuUnit → M (MeltRequestDb × Amount)
  unfolding recheck_payment pay_plainly ask_payment
  pay_quote q inputs invoice unit = do
    answer ← ask_payment q invoice unit
    if answer.1 || is_doubtful answer.0.payment_state
        then recheck_payment q inputs invoice unit answer.0
        else pay_plainly q unit answer.0

  -- attemptBolt11MeltPayment: a quote that was settled internally is not paid again.
  unfoldable pub attempt_bolt11_melt_payment :
      MeltRequestDb → List Proof → M (MeltRequestDb × Amount)
  unfolding pay_quote
  attempt_bolt11_melt_payment q inputs = do
    invoice ← lift (e.backend.decode_invoice q.request)
    unit ← lift (unit_from_string e.x q.unit)
    if is_paid q.state
        then pure (q, record { unit = unit; amount = 0 })
        else pay_quote q inputs invoice unit

  -- The change for what the proofs exceed the expenses by, if they do.
  sign_change : ℕ → ℕ → List BlindedMessage → M (List BlindSignature × List RecoverSigDb)
  sign_change amount total outputs =
      if ltb total amount && not (is_empty outputs)
      then (do
        now ← clock e
        lift (e.signer.sign_blind_messages now (get_messages_for_change (amount - total) outputs)))
      else pure ([], [])

  store_recovery : MeltRequestDb → List RecoverSigDb → M (Unit {0})
  store_recovery q [] = pure tt
  store_recovery q (r ∷ rs) = do
    insert e (save_restore_sigs (r ∷ rs))
    update e (delete_change_by_quote q.quote)

  -- finalizePaidBolt11Melt
  unfoldable pub finalize_paid_bolt11_melt :
      Bolt11MeltData → List BlindedMessage → List Proof → MeltRequestDb → Amount → M MeltResponse
  unfolding sign_change store_recovery
  finalize_paid_bolt11_melt d outputs inputs q paid_fee = do
    lightning_fee ← lift (to e.x paid_fee d.unit)
    fee ← lift (to e.x d.fee d.unit)
    signed ←
        sign_change d.amount_proofs.amount (add64 (add64 q.amount lightning_fee.amount) fee.amount)
          outputs
    get_tx e
    store_recovery q signed.1
    update e (change_melt_request_state q.quote q.state q.melted q.fee_paid)
    update e (add_preimage_melt_request q.quote q.payment_preimage)
    update e (set_proofs_state inputs ProofState.spent)
    commit e
    pure (record { quote = q; change = signed.0 })

  -- bolt11Melt
  unfoldable pub bolt11_melt : PostMeltBolt11Request → M MeltResponse
  bolt11_melt r = do
    known ← refresh_melt_quote_state e r.quote
    d ← validate_bolt11_melt_inputs e r known
    reserved ← reserve_melt_inputs_and_mark_pending e r
    attempt ← attempt_bolt11_melt_payment reserved.0 reserved.1
    if is_paid attempt.0.state
        then finalize_paid_bolt11_melt d r.outputs reserved.1 attempt.0 attempt.1
        else pure (record { quote = attempt.0; change = [] })

  -- ExecuteMelt
  unfoldable pub execute_melt : PostMeltBolt11Request → Method → M MeltResponse
  execute_melt r bolt11 = bolt11_melt r
  execute_melt r _ = lift (err (payment_method_not_supported ∷ []))
