-- ===== src/Mint/Outputs.antt =====
-- Inputs that are unknown and outputs that are unsigned, in the open transaction:
-- validateProofsUnspent and ValidateOutputsNotSpent (internal/mint/swapping.go).
pub mod Open
use nutmix.Prelude.{List, []}
use nutmix.Cashu.Types.{Proof, BlindedMessage}
use nutmix.Database.{ys, get_proofs_from_secret_curve, get_restore_sigs_from_blinded_messages}
use nutmix.Mint.Environment.{Environment}
use nutmix.Mint.Exec.{M, pure, lift, clock, query, query_unchecked, ◌>>=◌, ◌>>◌}
use nutmix.Mint.Inputs.{calculate_proofs_values, judge_known, distinct_outputs, none_signed}

module _ (e : Environment) where
  -- The proofs come back with their Y and the time.
  unfoldable pub validate_proofs_unspent : List Proof → M (List Proof)
  validate_proofs_unspent proofs = do
    now ← clock e
    valued ← lift (calculate_proofs_values e.x now proofs)
    known ← query e (get_proofs_from_secret_curve (ys valued))
    lift (judge_known known)
    pure valued

  unfoldable pub validate_outputs_not_spent : List BlindedMessage → M (Unit {0})
  validate_outputs_not_spent outputs = do
    points ← lift (distinct_outputs [] outputs)
    known ← query_unchecked e (get_restore_sigs_from_blinded_messages points)
    lift (none_signed known)
