-- ===== src/Mint/Melt/Settle.antt =====
-- Asking for the fate of a pending melt: RefreshMeltQuoteState, ReconcilePendingMeltQuotes
-- (internal/mint/melting.go), GetChangeOutput and VerifyUnitSupport (internal/mint/utils.go).
pub mod Overpaid
use nutmix.Prelude.{
  ℕ, String, List, [], ◌∷◌, Bool, true, false, not, ◌||◌, ◌&&◌, if◌then◌else◌, ltb, is_empty, add64,
  sub64,
}
use nutmix.Cashu.Errors.{
  Result, ok, err, panic, fail_if, join, quote_is_pending, unit_not_supported, lock_unavailable,
  Sentinel,
}
use nutmix.Cashu.Types.{
  MeltRequestDb, MeltChange, Proof, ProofState, BlindedMessage, BlindSignature, RecoverSigDb, paid,
  unpaid, is_pending, proofs_amount,
}
use nutmix.Cashu.Amounts.{get_messages_for_change}
use nutmix.Cashu.Convert.{unit_from_string, to}
use nutmix.Cashu.Fees.{fees}
use nutmix.Database.{
  get_melt_request_by_id, get_proofs_from_quote, get_melt_change_by_quote, get_pending_melt_quotes,
  save_restore_sigs, delete_change_by_quote, set_proofs_state, change_melt_request_state,
  add_preimage_melt_request, delete_proofs,
}
use nutmix.Mint.Environment.{
  Environment, PaymentStatus, PaymentCheck, settled, failed, pending, unknown,
}
use nutmix.Mint.Exec.{
  M, pure, lift, try, clock, network, get_tx, query, pool_query, find, update, insert, commit,
  ◌>>=◌, ◌>>◌,
}

-- The change messages of a quote as outputs, with no amount yet.
abbrev pub blank_messages : List MeltChange → List BlindedMessage
blank_messages [] = []
blank_messages (c ∷ cs) =
    record { b_ = c.b_; id = c.id; witness = ""; amount = 0 } ∷ blank_messages cs

-- What the proofs of a settled quote have overpaid, in words: `pending_proofs.Amount() - totalExpent`.
unfoldable pub overpaid_fees : MeltRequestDb → List Proof → ℕ → ℕ
overpaid_fees q proofs fee = sub64 (proofs_amount proofs) (add64 (add64 q.amount q.fee_paid) fee)

module _ (e : Environment) where
  -- GetChangeOutput
  unfoldable pub get_change_output : List BlindedMessage → ℕ → M (List RecoverSigDb)
  get_change_output messages overpaid =
      if ltb 0 overpaid && not (is_empty messages)
      then (do
        now ← clock e
        signed ← lift (e.signer.sign_blind_messages now (get_messages_for_change overpaid messages))
        pure signed.1)
      else pure []

  -- Mint.VerifyUnitSupport
  unfoldable pub verify_unit_support : String → Result (Unit {0})
  verify_unit_support unit = elim (join unit_not_supported (unit_from_string e.x unit)) [
    | ok u ↦ fail_if (not (e.backend.verify_unit_support u)) (unit_not_supported ∷ [])
    | err x ↦ err x
    | panic ↦ panic
  ]

  -- The change of a settled quote, if it left any messages and anything was overpaid.
  store_change : MeltRequestDb → List MeltChange → ℕ → M (Unit {0})
  store_change q changes overpaid =
      if not (is_empty changes) && ltb 0 overpaid
      then (do
        sigs ← get_change_output (blank_messages changes) overpaid
        insert e (save_restore_sigs sigs)
        update e (delete_change_by_quote q.quote))
      else pure tt

  -- `status == lightning.SETTLED`
  settle_pending : MeltRequestDb → List Proof → PaymentCheck → M MeltRequestDb
  unfolding store_change
  settle_pending q proofs check = do
    unit ← lift (unit_from_string e.x q.unit)
    fee_amount ← lift (to e.x check.fee unit)
    let done : MeltRequestDb = record q {
      state = paid;
      melted = true;
      fee_paid = fee_amount.amount;
      payment_preimage = check.preimage;
    }
    keysets ← lift e.signer.get_keysets
    get_tx e
    changes ← query e (get_melt_change_by_quote q.quote)
    fee ← lift (fees proofs keysets)
    store_change q changes (overpaid_fees done proofs fee)
    -- the driver refuses a batch of no statements
    lift (fail_if (is_empty proofs) [])
    update e (set_proofs_state proofs ProofState.spent)
    update e (change_melt_request_state q.quote paid true fee_amount.amount)
    update e (add_preimage_melt_request q.quote check.preimage)
    commit e
    pure done

  -- `status == lightning.FAILED`
  release_pending : MeltRequestDb → List Proof → M MeltRequestDb
  release_pending q proofs = do
    get_tx e
    update e (change_melt_request_state q.quote unpaid q.melted q.fee_paid)
    update e (delete_change_by_quote q.quote)
    (if is_empty proofs then pure tt else update e (delete_proofs proofs))
    commit e
    pure (record q { state = unpaid })

  by_status : MeltRequestDb → List Proof → PaymentCheck → PaymentStatus → M MeltRequestDb
  unfolding settle_pending release_pending
  by_status q proofs check settled = settle_pending q proofs check
  by_status q proofs check failed = release_pending q proofs
  by_status q proofs check pending = pure q
  by_status q proofs check unknown = pure q

  check_pending : MeltRequestDb → List Proof → M MeltRequestDb
  unfolding by_status
  check_pending q proofs = do
    lift (verify_unit_support q.unit)
    invoice ← lift (e.backend.decode_invoice q.request)
    check ← network e (λ n. e.backend.check_payed n q.quote invoice q.checking_id)
    by_status q proofs check check.status

  -- RefreshMeltQuoteState. Its test for a locked row asks for the error type of another version of
  -- the database driver, which no error here has, so the error of the lookup is handed on.
  unfoldable pub refresh_melt_quote_state : String → M MeltRequestDb
  unfolding check_pending
  refresh_melt_quote_state quote_id = do
    get_tx e
    quote ← find e (get_melt_request_by_id quote_id)
    proofs ← query e (get_proofs_from_quote quote.quote)
    commit e
    if is_pending quote.state then check_pending quote proofs else pure quote

  -- ReconcilePendingMeltQuotes: the first error ends the round.
  refresh_all : List MeltRequestDb → M (Unit {0})
  refresh_all [] = pure tt
  refresh_all (q ∷ qs) = refresh_melt_quote_state q.quote >>= λ _. refresh_all qs

  unfoldable pub reconcile_pending_melt_quotes : M (Unit {0})
  unfolding refresh_all
  reconcile_pending_melt_quotes = do
    quotes ← pool_query e get_pending_melt_quotes
    refresh_all quotes
