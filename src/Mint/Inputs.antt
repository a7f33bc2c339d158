-- ===== src/Mint/Inputs.antt =====
-- The checks of inputs and outputs that need no database: GetAndCalculateProofsValues
-- (internal/utils/proofs.go) and the loops of validateProofsUnspent and ValidateOutputsNotSpent
-- (internal/mint/swapping.go).
use nutmix.Prelude.{ℕ, List, [], ◌∷◌, Bool, true, false, if◌then◌else◌, any, is_empty, contains}
use nutmix.Cashu.Errors.{
  Result, ok, err, proof_pending, proof_spent, repeated_output, blind_message_already_signed, ◌>>=◌,
}
use nutmix.Cashu.Types.{Proof, ProofState, BlindedMessage, PublicKey}
use nutmix.Cashu.Externals.{Externals}
use nutmix.Crypto.{hash_to_curve}

abbrev pub is_pending_proof : Proof → Bool
is_pending_proof p = elim p.state [ ProofState.pending ↦ true | _ ↦ false ]

-- GetAndCalculateProofsValues: each proof gets its Y and the time.
unfoldable pub calculate_proofs_values : Externals → ℕ → List Proof → Result (List Proof)
calculate_proofs_values x now [] = ok []
calculate_proofs_values x now (p ∷ ps) = hash_to_curve x p.secret >>= λ y.
    calculate_proofs_values x now ps >>= λ rest. ok (record p { y = y; seen_at = now } ∷ rest)

-- What the known proofs say: none, pending ones, or spent ones only.
unfoldable pub judge_known : List Proof → Result (Unit {0})
judge_known [] = ok tt
judge_known (k ∷ ks) =
    if any is_pending_proof (k ∷ ks) then err (proof_pending ∷ []) else err (proof_spent ∷ [])

-- The blinding points of the outputs, if no two of them share one.
unfoldable pub distinct_outputs : List PublicKey → List BlindedMessage → Result (List PublicKey)
distinct_outputs seen [] = ok []
distinct_outputs seen (o ∷ os) =
    if contains o.b_ seen
    then err (repeated_output ∷ [])
    else (distinct_outputs (o.b_ ∷ seen) os >>= λ rest. ok (o.b_ ∷ rest))

abbrev pub none_signed : {A : Type 0} → List A → Result (Unit {0})
none_signed rs = if is_empty rs then ok tt else err (blind_message_already_signed ∷ [])
