-- ===== src/Mint/Melt/Pay/Paid.antt =====
-- When a melt is paid: attemptBolt11MeltPayment (internal/mint/melting.go).
use mathlib.Core.Path.{sym}
use nutmix.Prelude.{ℕ, List, Bool, true, false, ◌||◌, ◌≡◌, ◌⊎◌, inl, inr, refl, if◌then◌else◌}
use nutmix.Cashu.Errors.{ok}
use nutmix.Cashu.Types.{MeltRequestDb, Proof, Amount, CashuUnit, paid, is_paid}
use nutmix.Cashu.Convert.{unit_from_string, to}
use nutmix.Mint.Environment.{
  Environment, Invoice, PaymentStatus, PaymentResponse, settled, failed, pending, unknown,
}
use nutmix.Mint.Exec.{World, pure}
use nutmix.Mint.Exec.Returns.{Returns, Returns-elim, lift-Returns, pure-Returns, network-Returns}
use nutmix.Mint.Melt.Pay.{
  is_doubtful, record_status, recheck_payment, pay_plainly, ask_payment, pay_quote,
  attempt_bolt11_melt_payment,
}

-- The quote as the settled payment leaves it.
abbrev pub paid_copy : MeltRequestDb → PaymentResponse → Amount → MeltRequestDb
paid_copy q payment fee = record q {
  payment_preimage = payment.preimage;
  fee_paid = fee.amount;
  state = paid;
  melted = true;
}

-- The backend was asked to pay the invoice of the quote, with its amount and its reserve; it
-- reported the payment as settled, without an error, for a fee of `fee` in the unit of the quote.
pub record PaidByBackend (e : Environment) (q after : MeltRequestDb) (fee : Amount) : Type 0 where
  pub invoice : Invoice
  pub decoded : e.backend.decode_invoice q.request ≡ ok invoice
  pub unit : CashuUnit
  pub unit_is : unit_from_string e.x q.unit ≡ ok unit
  pub call : ℕ
  pub payment : PaymentResponse
  pub answered :
      e.backend.pay_invoice call q invoice
        (record { unit = unit; amount = q.fee_reserve })
        q.mpp
        (record { unit = unit; amount = q.amount })
      ≡ (payment, false)
  pub payed : is_doubtful payment.payment_state ≡ false
  pub fee_is : to e.x payment.paid_fee unit ≡ ok fee
  pub after_is : after ≡ paid_copy q payment fee

-- The quote was settled internally before, for no fee, or the backend paid it.
abbrev pub Paid : Environment → MeltRequestDb → MeltRequestDb → Amount → Type 0
Paid e q after fee =
    ((is_paid q.state ≡ true) × (after ≡ q) × (fee.amount ≡ 0)) ⊎ PaidByBackend e q after fee

module _ (e : Environment) where
  record_status-unpaid :
      (q q' : MeltRequestDb) (inputs : List Proof) (status : PaymentStatus) (w w' : World)
      → Returns (record_status e q inputs status) w q' w'
      → is_paid q'.state ≡ false
  unfolding record_status
  record_status-unpaid q q' inputs failed w w' h = Returns-elim _ _ h λ _ w1 _ h.
      Returns-elim _ _ h λ _ w2 _ h.
        Returns-elim _ _ h λ _ w3 _ h. let (same, _) = pure-Returns h in rw (sym same) refl
  record_status-unpaid q q' inputs unknown w w' h = Returns-elim _ _ h λ _ w1 _ h.
      Returns-elim _ _ h λ _ w2 _ h.
        Returns-elim _ _ h λ _ w3 _ h. let (same, _) = pure-Returns h in rw (sym same) refl
  record_status-unpaid q q' inputs pending w w' h =
      Returns-elim _ _ h λ _ w1 _ h. let (same, _) = pure-Returns h in rw (sym same) refl
  record_status-unpaid q q' inputs settled w w' h =
      Returns-elim _ _ h λ _ w1 _ h. let (same, _) = pure-Returns h in rw (sym same) refl

  -- A payment that is looked up again is never concluded as paid at once.
  recheck_payment-unpaid :
      (q : MeltRequestDb) (inputs : List Proof) (invoice : Invoice) (unit : CashuUnit)
      (payment : PaymentResponse) (w w' : World) (attempt : MeltRequestDb × Amount)
      → Returns (recheck_payment e q inputs invoice unit payment) w attempt w'
      → is_paid attempt.0.state ≡ false
  unfolding recheck_payment
  recheck_payment-unpaid q inputs invoice unit payment w w' attempt h =
      Returns-elim _ _ h λ _ w1 _ h. Returns-elim _ _ h λ _ w2 _ h. Returns-elim _ _ h λ _ w3 _ h.
        Returns-elim _ _ h λ check w4 _ h. Returns-elim _ _ h λ fee w5 _ h.
          Returns-elim _ _ h λ _ w6 _ h. Returns-elim _ _ h λ quote w7 recorded h.
            Returns-elim _ _ h λ _ w8 _ h.
              let (same, _) = pure-Returns h in
              let unpaid =
                record_status-unpaid
                  (record q { checking_id = payment.checking_id; fee_paid = fee.amount }) quote
                  inputs check.status w6 w7 recorded in
              cc

  pay_quote-Paid :
      (q : MeltRequestDb) (inputs : List Proof) (invoice : Invoice) (unit : CashuUnit)
      (w w' : World) (attempt : MeltRequestDb × Amount)
      → e.backend.decode_invoice q.request ≡ ok invoice
      → unit_from_string e.x q.unit ≡ ok unit
      → is_paid attempt.0.state ≡ true
      → Returns (pay_quote e q inputs invoice unit) w attempt w'
      → PaidByBackend e q attempt.0 attempt.1
  unfolding pay_quote ask_payment pay_plainly
  pay_quote-Paid q inputs invoice unit w w' attempt decoded unit_is now_paid h =
      Returns-elim _ _ h λ (payment, failure) w1 asked h.
        judged payment failure w1
          (let (told, _) = network-Returns e _ w w1 (payment, failure) asked in cc)
          (failure || is_doubtful payment.payment_state) refl h
    where
      judged :
          (payment : PaymentResponse) (failure : Bool) (w1 : World)
          → e.backend.pay_invoice w.calls q invoice
              (record { unit = unit; amount = q.fee_reserve })
              q.mpp
              (record { unit = unit; amount = q.amount })
            ≡ (payment, failure)
          → (doubtful : Bool) → failure || is_doubtful payment.payment_state ≡ doubtful
          → Returns
              (if doubtful
                then recheck_payment e q inputs invoice unit payment
                else pay_plainly e q unit payment)
              w1
              attempt
              w'
          → PaidByBackend e q attempt.0 attempt.1
      judged payment failure w1 answered true _ h =
          let unpaid = recheck_payment-unpaid q inputs invoice unit payment w1 w' attempt h in
          absurd (cc)
      judged payment true w1 answered false clear h = absurd (cc)
      judged payment false w1 answered false clear h = Returns-elim _ _ h λ fee w2 fee_is h.
          let (same, _) = pure-Returns h in
          let (fee_is, _) = lift-Returns fee_is in
          record {
            invoice = invoice;
            decoded = decoded;
            unit = unit;
            unit_is = unit_is;
            call = w.calls;
            payment = payment;
            answered = answered;
            payed = clear;
            fee_is = cc;
            after_is = cc;
          }

  pub attempt_bolt11_melt_payment-Paid :
      (q : MeltRequestDb) (inputs : List Proof) (w w' : World) (attempt : MeltRequestDb × Amount)
      → is_paid attempt.0.state ≡ true
      → Returns (attempt_bolt11_melt_payment e q inputs) w attempt w'
      → Paid e q attempt.0 attempt.1
  unfolding attempt_bolt11_melt_payment
  attempt_bolt11_melt_payment-Paid q inputs w w' attempt now_paid h =
      Returns-elim _ _ h λ invoice w1 decoded h. Returns-elim _ _ h λ unit w2 unit_is h.
        judged invoice unit w2 (lift-Returns decoded).0 (lift-Returns unit_is).0 (is_paid q.state)
          refl h
    where
      judged :
          (invoice : Invoice) (unit : CashuUnit) (w2 : World)
          → e.backend.decode_invoice q.request ≡ ok invoice
          → unit_from_string e.x q.unit ≡ ok unit
          → (settled_before : Bool) → is_paid q.state ≡ settled_before
          → Returns
              (if settled_before
                then pure (q, record { unit = unit; amount = 0 })
                else pay_quote e q inputs invoice unit)
              w2
              attempt
              w'
          → Paid e q attempt.0 attempt.1
      judged invoice unit w2 decoded unit_is true before h =
          let (same, _) = pure-Returns h in inl (before, cc, cc)
      judged invoice unit w2 decoded unit_is false before h =
          inr (pay_quote-Paid q inputs invoice unit w2 w' attempt decoded unit_is now_paid h)
