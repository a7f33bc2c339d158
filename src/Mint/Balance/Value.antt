-- ===== src/Mint/Balance/Value.antt =====
-- What a swap whose balance is accepted is worth: validateSwapBalanceAndUnits
-- (internal/mint/swapping.go).
use nutmix.Prelude.{
  ℕ, List, [], ◌∷◌, ◌≡◌, ◌<◌, not, ◌==◌, ◌||◌, is_empty, arith, add64, sub64, u64, sub64-eq-zero,
  false,
}
use nutmix.Cashu.Errors.{ok, fail_if, >>=-elim, fail_if-eq-ok, unbalanced}
use nutmix.Cashu.Types.{
  PostSwapRequest, Proof, proofs_amount, proofs_amount_from, messages_amount, BasicKeysetResponse,
}
use nutmix.Cashu.Fees.{fees}
use nutmix.Mint.Environment.{Environment}
use nutmix.Mint.Balance.{validate_swap_balance_and_units}

-- The terms of an accepted swap: the keysets and the fee.
pub record Balanced (e : Environment) (r : PostSwapRequest) : Type 0 where
  pub keysets : List BasicKeysetResponse
  pub fee : ℕ
  pub have_inputs : is_empty r.inputs ≡ false
  pub have_outputs : is_empty r.outputs ≡ false
  pub signer_keysets : e.signer.get_keysets ≡ ok keysets
  pub fee_due : fees r.inputs keysets ≡ ok fee
  pub worth : proofs_amount r.inputs ≡ add64 fee (messages_amount r.outputs)

proofs_amount_from-lt :
    (total : ℕ) (ps : List Proof) → total < u64 → proofs_amount_from total ps < u64
unfolding proofs_amount_from
proofs_amount_from-lt total [] h = h
proofs_amount_from-lt total (p ∷ ps) h =
    proofs_amount_from-lt (add64 total p.amount) ps (omega arith)

pub proofs_amount-lt : (ps : List Proof) → proofs_amount ps < u64
unfolding proofs_amount
proofs_amount-lt ps = proofs_amount_from-lt 0 ps (omega arith)

-- An accepted balance: there are inputs and outputs, and the inputs are worth the outputs and the
-- fee together, as unsigned 64-bit words.
pub validate_swap_balance_and_units-Balanced :
    (e : Environment) (r : PostSwapRequest) {u : Unit {0}}
    → validate_swap_balance_and_units e r ≡ ok u
    → Balanced e r
unfolding validate_swap_balance_and_units
validate_swap_balance_and_units-Balanced e r h =
    >>=-elim (fail_if (is_empty r.inputs || is_empty r.outputs) []) _ h λ _ filled h.
      >>=-elim e.signer.get_keysets _ h λ keysets known h.
        >>=-elim (fees r.inputs keysets) _ h λ fee due h.
          >>=-elim
            (fail_if
              (not (sub64 (proofs_amount r.inputs) (add64 fee (messages_amount r.outputs)) == 0))
              (unbalanced ∷ []))
            _ h
            λ _ balanced _. record {
              keysets = keysets;
              fee = fee;
              have_inputs = ground (arith, fail_if-eq-ok _ _ filled);
              have_outputs = ground (arith, fail_if-eq-ok _ _ filled);
              signer_keysets = known;
              fee_due = due;
              worth =
                  sub64-eq-zero _ _ (proofs_amount-lt r.inputs) (omega arith)
                    (ground (arith, fail_if-eq-ok _ _ balanced));
            }
