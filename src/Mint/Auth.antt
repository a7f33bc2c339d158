-- ===== src/Mint/Auth.antt =====
-- The spending of blind auth tokens: VerifyAuthBlindToken (internal/mint/auth.go).
pub mod Once
pub mod Guard
use nutmix.Prelude.{List, [], ◌∷◌, not, is_empty}
use nutmix.Cashu.Errors.{fail_if}
use nutmix.Cashu.Types.{Proof, ProofState, set_proofs_state}
use nutmix.Cashu.Auth.{AuthProof, AuthLibrary, proof_of}
use nutmix.Database
use nutmix.Database.{get_proofs_from_secret_curve, save_proof}
use nutmix.Mint.Environment.{Environment}
use nutmix.Mint.Exec.{M, lift, clock, get_tx, query, insert, update, commit, ◌>>=◌, ◌>>◌}

module _ (e : Environment) (l : AuthLibrary) where
  -- VerifyAuthBlindToken: one transaction.
  unfoldable pub verify_auth_blind_token : AuthProof → M (Unit {0})
  unfolding proof_of
  verify_auth_blind_token a = do
    y ← lift (l.hash_to_curve a.secret)
    get_tx e
    known ← query e (get_proofs_from_secret_curve (y ∷ []))
    lift (fail_if (not (is_empty known)) [])
    now ← clock e
    insert e (save_proof (proof_of a y ProofState.pending now ∷ []))
    lift (e.signer.verify_proofs (proof_of a y ProofState.pending now ∷ []))
    update e (
        Database.set_proofs_state
          (set_proofs_state ProofState.spent (proof_of a y ProofState.pending now ∷ []))
          ProofState.spent)
    commit e
