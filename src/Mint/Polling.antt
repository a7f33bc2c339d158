-- ===== src/Mint/Polling.antt =====
-- The states of quotes that a websocket subscription asks for: CheckMintRequest and
-- CheckMeltRequest (internal/mint/bolt11.go).
pub mod Told
use nutmix.Prelude.{
  String, [], Bool, true, false, ◌||◌, Option, none, some, if◌then◌else◌, ◌≡◌, refl, arith,
  Bool-cases, inl, inr, ◌⊎◌,
}
use nutmix.Cashu.Errors.{Result, ok, err, panic, Error}
use nutmix.Cashu.Errors
use nutmix.Cashu.Types.{MintRequestDb, MeltRequestDb, ActionState, paid, unpaid, is_paid, is_issued}
use nutmix.Cashu.Convert.{unit_from_string, to}
use nutmix.Database.{get_melt_request_by_id, add_preimage_melt_request}
use nutmix.Mint.Environment.{
  Environment, Invoice, PaymentStatus, PaymentCheck, settled, failed, pending, unknown,
}
use nutmix.Mint.Exec.{
  World, M, pure, lift, try, network, get_tx, find, update, commit, rollback, ◌>>=◌, ◌>>◌,
}
use nutmix.Mint.Melt.Pay.{MeltResponse}

-- GetPostMeltQuoteResponse: no change.
abbrev pub quote_response : MeltRequestDb → MeltResponse
quote_response q = record { quote = q; change = [] }

module _ (e : Environment) where
  -- The `switch status` of CheckMintRequest.
  received_state : PaymentStatus → MintRequestDb → MintRequestDb
  received_state settled q = record q { state = paid }
  received_state failed q = record q { state = unpaid }
  received_state _ q = q

  -- CheckMintRequest: nothing is stored.
  unfoldable pub check_mint_request : MintRequestDb → Invoice → M MintRequestDb
  unfolding received_state
  check_mint_request q invoice = do
    status ← network e (λ n. e.backend.check_received n q invoice)
    pure (received_state status q)

  -- The deferred rollback, whose own error is only logged.
  rolled_back : {A : Type 0} → Result A → M A
  rolled_back (ok a) = pure a
  rolled_back (err x) = try (rollback e) >>= λ _. lift (err x)
  rolled_back panic = lift panic

  or_rollback : {A : Type 0} → M A → M A
  unfolding rolled_back
  or_rollback m = try m >>= rolled_back

  -- The `switch status` of CheckMeltRequest. The errors of the conversion are those of an inner
  -- variable, so no rollback follows.
  unfoldable pub payed_state : PaymentStatus → MeltRequestDb → PaymentCheck → Result MeltRequestDb
  payed_state settled q check = Errors.◌>>=◌ (unit_from_string e.x q.unit) λ unit.
      Errors.◌>>=◌ (to e.x check.fee unit) λ fee.
        ok (record q { payment_preimage = check.preimage; state = paid; fee_paid = fee.amount })
  payed_state failed q check = ok (record q { state = unpaid })
  payed_state pending q check = ok (record q { state = ActionState.pending })
  payed_state unknown q check = ok q

  -- The preimage is stored, the new state is only answered.
  answer_check : (Error → Bool) → MeltRequestDb → Result PaymentCheck → M MeltResponse
  unfolding payed_state or_rollback
  answer_check not_found q (ok check) = do
    told ← lift (payed_state check.status q check)
    or_rollback (update e (add_preimage_melt_request q.quote check.preimage))
    or_rollback (commit e)
    pure (quote_response told)
  answer_check not_found q (err x) =
      try (rollback e) >>= λ _. if not_found x then pure (quote_response q) else lift (err x)
  answer_check not_found q panic = lift panic

  ask_backend : (Error → Bool) → MeltRequestDb → M MeltResponse
  unfolding or_rollback answer_check
  ask_backend not_found q = do
    invoice ← or_rollback (lift (e.backend.decode_invoice q.request))
    check ← try (network e (λ n. e.backend.check_payed n q.quote invoice q.checking_id))
    answer_check not_found q check

  -- CheckMeltRequest. The test says whether the error of the backend is ErrInvoiceNotFound or has
  -- "NotFound" in its text. A quote that is paid is answered with the transaction still open.
  unfoldable pub check_melt_request : (Error → Bool) → String → M MeltResponse
  unfolding or_rollback ask_backend
  check_melt_request not_found quote_id = do
    get_tx e
    q ← or_rollback (find e (get_melt_request_by_id quote_id))
    answer_quote q
    where
      answer_quote : MeltRequestDb → M MeltResponse
      answer_quote q =
          if is_paid q.state || is_issued q.state
          then pure (quote_response q)
          else ask_backend not_found q
