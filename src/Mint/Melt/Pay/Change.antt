-- ===== src/Mint/Melt/Pay/Change.antt =====
-- The change of a melt that is paid at once: finalizePaidBolt11Melt (internal/mint/melting.go).
use mathlib.Core.Path.{subst}
use nutmix.Prelude.{
  ℕ, ◌+◌, ◌-◌, ◌≤◌, List, [], Bool, true, false, not, ◌&&◌, ◌≡◌, ◌⊎◌, inl, inr, refl, arith,
  is_empty, ltb, add64, if◌then◌else◌,
}
use nutmix.Cashu.Errors.{ok}
use nutmix.Cashu.Types.{MeltRequestDb, Proof, BlindedMessage, BlindSignature, RecoverSigDb, Amount}
use nutmix.Cashu.Amounts.{get_messages_for_change}
use nutmix.Cashu.Amounts.Change.{total, total-get_messages_for_change-le}
use nutmix.Cashu.Convert.{to}
use nutmix.Mint.Environment.{Environment}
use nutmix.Mint.Exec.{World, lift, pure, clock, ◌>>=◌}
use nutmix.Mint.Exec.Returns.{Returns, Returns-elim, lift-Returns, pure-Returns}
use nutmix.Mint.Melt.Reserve.{Bolt11MeltData}
use nutmix.Mint.Melt.Pay.{MeltResponse, sign_change, finalize_paid_bolt11_melt}

-- No change is handed out, or the signer has signed change messages that together with the expenses
-- are worth no more than the proofs.
abbrev pub Bounded : Environment → ℕ → ℕ → List BlindSignature → Type 0
Bounded e amount spent change =
    (change ≡ [])
    ⊎ ((now : ℕ) × (messages : List BlindedMessage) × (recovery : List RecoverSigDb)
        × (e.signer.sign_blind_messages now messages ≡ ok (change, recovery))
        × (total messages + spent ≤ amount))

module _ (e : Environment) where
  sign_change-Bounded :
      (amount spent : ℕ) (outputs : List BlindedMessage) (w w' : World)
      (signed : List BlindSignature × List RecoverSigDb)
      → Returns (sign_change e amount spent outputs) w signed w'
      → Bounded e amount spent signed.0
  unfolding sign_change
  sign_change-Bounded amount spent outputs w w' signed h =
      judged (ltb spent amount && not (is_empty outputs)) refl h
    where
      judged :
          (b : Bool)
          → (ltb spent amount && not (is_empty outputs)) ≡ b
          → Returns
              (if b
                then (clock e >>= λ now. lift (
                    e.signer.sign_blind_messages now
                      (get_messages_for_change (amount - spent) outputs)))
                else pure ([], []))
              w
              signed
              w'
          → Bounded e amount spent signed.0
      judged true over h = Returns-elim _ _ h λ now w1 _ h.
          let messages = get_messages_for_change (amount - spent) outputs in
          inr (
            now,
            messages,
            signed.1,
            cc ((lift-Returns h).0),
            ground (arith, total-get_messages_for_change-le (amount - spent) outputs),
          )
      judged false none_due h = let (same, _) = pure-Returns h in inl (cc)

-- If a paid melt is concluded, then the change that is handed out and the expenses (the amount, the
-- lightning fee and the input fee, added as unsigned 64-bit words) are together worth no more than
-- the proofs, and the answer is about the quote that was paid.
pub finalize_paid_bolt11_melt-Bounded :
    (e : Environment) (d : Bolt11MeltData) (outputs : List BlindedMessage) (inputs : List Proof)
    (q : MeltRequestDb) (paid_fee : Amount) (w w' : World) (answer : MeltResponse)
    → finalize_paid_bolt11_melt e d outputs inputs q paid_fee w ≡ (ok answer, w')
    → (answer.quote ≡ q)
      × (lightning : Amount) × (fee : Amount) × (to e.x paid_fee d.unit ≡ ok lightning)
      × (to e.x d.fee d.unit ≡ ok fee)
      × Bounded e d.amount_proofs.amount
          (add64 (add64 q.amount lightning.amount) fee.amount)
          answer.change
unfolding finalize_paid_bolt11_melt
finalize_paid_bolt11_melt-Bounded e d outputs inputs q paid_fee w w' answer h =
    Returns-elim _ _ h λ lightning w1 lightning_is h. Returns-elim _ _ h λ fee w2 fee_is h.
      Returns-elim _ _ h λ signed w3 signed_is h. Returns-elim _ _ h λ _ w4 _ h.
        Returns-elim _ _ h λ _ w5 _ h. Returns-elim _ _ h λ _ w6 _ h. Returns-elim _ _ h λ _ w7 _ h.
          Returns-elim _ _ h λ _ w8 _ h. Returns-elim _ _ h λ _ w9 _ h.
            let (same, _) = pure-Returns h in
            let spent = add64 (add64 q.amount lightning.amount) fee.amount in
            let change_is : signed.0 ≡ answer.change = cc in
            (
              cc,
              lightning,
              fee,
              (lift-Returns lightning_is).0,
              (lift-Returns fee_is).0,
              subst (Bounded e d.amount_proofs.amount spent) change_is (
                  sign_change-Bounded e d.amount_proofs.amount spent outputs w2 w3 signed
                    signed_is),
            )
