-- ===== src/Mint/Swap.antt =====
-- Swaps (internal/mint/swapping.go): proofs are taken as pending in one transaction, the outputs
-- are signed, and the proofs are marked spent in a second one. The events that are sent at the end
-- are left out.
pub mod Spent
pub mod Success
pub mod Live
use nutmix.Prelude.{List, [], ◌++◌, Bool, true, false, if◌then◌else◌}
use nutmix.Cashu.Errors.{Result, ok, err, panic, Error}
use nutmix.Cashu.Types.{
  PostSwapRequest, Proof, BlindSignature, RecoverSigDb, ProofState, set_proofs_state,
}
use nutmix.Database
use nutmix.Database.{save_proof, delete_proofs, save_restore_sigs}
use nutmix.Mint.Environment.{Environment}
use nutmix.Mint.Exec.{
  M, pure, lift, try, clock, get_tx, update, insert, commit, rollback, ◌>>=◌, ◌>>◌,
}
use nutmix.Mint.Outputs.{validate_proofs_unspent, validate_outputs_not_spent}
use nutmix.Mint.Balance.{validate_swap_balance_and_units, validate_swap_proofs_and_spend_conditions}

-- `blindedSignatures, shouldRemovePendingProofs, err`
abbrev pub Signed : Type 0
Signed = Result (List BlindSignature) × Bool

abbrev succeeded : Result (Unit {0}) → Bool
succeeded (ok _) = true
succeeded _ = false

-- Two errors that one `fmt.Errorf` wraps.
abbrev error_of : Result (Unit {0}) → Error
error_of (err x) = x
error_of _ = []

module _ (e : Environment) where
  -- The statements of the second transaction, before its commit.
  mark_inputs_spent : List Proof → List RecoverSigDb → M (Unit {0})
  mark_inputs_spent inputs recovery = do
    update e (Database.set_proofs_state inputs ProofState.spent)
    insert e (save_restore_sigs recovery)

  -- How the second transaction ends. The deferred rollback raises the flag if it finds the
  -- transaction open, which it does after a statement that failed; after a commit, failed or not,
  -- the transaction is closed.
  finish_swap : List BlindSignature → Result (Unit {0}) → M Signed
  finish_swap sigs (ok _) = try (commit e) >>= elim [
    | ok _ ↦ try (rollback e) >>= λ closed. pure (ok sigs, succeeded closed)
    | err x ↦ try (rollback e) >>= λ open_. try (rollback e) >>= λ closed.
        pure (err x, if succeeded closed then true else succeeded open_)
    | panic ↦ lift panic
  ]
  finish_swap sigs (err x) = try (rollback e) >>= λ closed. pure (err x, succeeded closed)
  finish_swap sigs panic = lift panic

  -- From the second transaction on.
  store_signatures : List Proof → List BlindSignature × List RecoverSigDb → M Signed
  unfolding mark_inputs_spent finish_swap
  store_signatures inputs (sigs, recovery) = try (get_tx e) >>= elim [
    | ok _ ↦ try (mark_inputs_spent inputs recovery) >>= finish_swap sigs
    | err x ↦ pure (err x, true)
    | panic ↦ lift panic
  ]

  -- signSwapOutputsAndMarkInputsSpent
  unfoldable pub sign_swap_outputs_and_mark_inputs_spent : List Proof → PostSwapRequest → M Signed
  unfolding store_signatures
  sign_swap_outputs_and_mark_inputs_spent inputs r = clock e >>= λ now.
      try (lift (e.signer.sign_blind_messages now r.outputs)) >>= elim [
        | ok signed ↦ store_signatures inputs signed
        | err x ↦ pure (err x, true)
        | panic ↦ lift panic
      ]

  -- removePendingSwapProofs
  unfoldable pub remove_pending_swap_proofs : List Proof → M (Unit {0})
  remove_pending_swap_proofs proofs = do get_tx e; update e (delete_proofs proofs); commit e

  -- What ExecuteSwap does with the outcome.
  conclude_swap : List Proof → Signed → M (List BlindSignature)
  unfolding remove_pending_swap_proofs
  conclude_swap proofs (ok sigs, remove) = pure sigs
  conclude_swap proofs (err x, true) =
      try (remove_pending_swap_proofs proofs) >>= λ cleanup. lift (err (x ++ error_of cleanup))
  conclude_swap proofs (err x, false) = lift (err x)
  conclude_swap proofs (panic, remove) = lift panic

  -- The first transaction: the inputs are unknown, the outputs unsigned, and the inputs are saved
  -- as pending.
  unfoldable pub reserve_swap_inputs : PostSwapRequest → M (List Proof)
  reserve_swap_inputs r = do
    get_tx e
    proofs ← validate_proofs_unspent e r.inputs
    validate_outputs_not_spent e r.outputs
    insert e (save_proof (set_proofs_state ProofState.pending proofs))
    commit e
    pure (set_proofs_state ProofState.pending proofs)

  -- ExecuteSwap
  unfoldable pub execute_swap : PostSwapRequest → M (List BlindSignature)
  unfolding conclude_swap
  execute_swap r = do
    lift (validate_swap_balance_and_units e r)
    now ← clock e
    lift (validate_swap_proofs_and_spend_conditions e now r)
    proofs ← reserve_swap_inputs r
    outcome ← sign_swap_outputs_and_mark_inputs_spent proofs r
    conclude_swap proofs outcome
