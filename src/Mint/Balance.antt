-- ===== src/Mint/Balance.antt =====
-- The checks of a swap that need no database (internal/mint/swapping.go): balance, units, signatures
-- and spend conditions.
pub mod Value
use nutmix.Prelude.{ℕ, List, [], ◌∷◌, not, ◌||◌, ◌==◌, if◌then◌else◌, is_empty, add64, sub64}
use nutmix.Cashu.Errors.{Result, ok, err, ◌>>=◌, fail_if, unbalanced, not_same_units}
use nutmix.Cashu.Types.{
  PostSwapRequest, Proof, proofs_amount, messages_amount, unit_eq, BasicKeysetResponse,
}
use nutmix.Cashu.Fees.{fees}
use nutmix.Cashu.SpendCondition.SigAll.{proofs_have_sig_all, validate_swap_sigflag}
use nutmix.Cashu.SpendCondition.Verify.{verify_proofs_spend_conditions}
use nutmix.Mint.Environment.{Environment}
use nutmix.Mint.Units.{check_proofs_are_same_unit, verify_outputs}

module _ (e : Environment) where
  -- validateSwapBalanceAndUnits
  unfoldable pub validate_swap_balance_and_units : PostSwapRequest → Result (Unit {0})
  validate_swap_balance_and_units r = fail_if (is_empty r.inputs || is_empty r.outputs) [] >>= λ _.
      e.signer.get_keysets >>= λ keysets. fees r.inputs keysets >>= λ fee.
      fail_if (not (sub64 (proofs_amount r.inputs) (add64 fee (messages_amount r.outputs)) == 0))
        (unbalanced ∷ [])
      >>= λ _. check_proofs_are_same_unit e.x r.inputs keysets >>= λ proof_unit.
          verify_outputs e.x r.outputs keysets >>= λ output_unit.
          fail_if (not (unit_eq proof_unit output_unit)) (not_same_units ∷ [])

  -- validateSwapProofsAndSpendConditions, at the time `now`
  unfoldable pub validate_swap_proofs_and_spend_conditions : ℕ → PostSwapRequest → Result (Unit {0})
  validate_swap_proofs_and_spend_conditions now r = e.signer.verify_proofs r.inputs >>= λ _.
      proofs_have_sig_all e.x r.inputs >>= λ sig_all.
      if sig_all
      then validate_swap_sigflag e.x now r
      else verify_proofs_spend_conditions e.x now r.inputs
