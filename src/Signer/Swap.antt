-- ===== src/Signer/Swap.antt =====
-- Swaps with the local signer behind the signer's interface: ExecuteSwap
-- (internal/mint/swapping.go) over internal/signer/local_signer.
use nutmix.Prelude.{ℕ, List, ◌≡◌, ◌∙◌, sym, ap, add64}
use nutmix.Cashu.Errors.{ok, >>=-elim}
use nutmix.Cashu.Types.{
  Proof, PostSwapRequest, BlindedMessage, BlindSignature, RecoverSigDb, Seed, proofs_amount,
}
use nutmix.Cashu.Fees.{fees}
use nutmix.Crypto.Curve.{Curve}
use nutmix.Mint.Environment.{Environment, Signer}
use nutmix.Mint.Exec.{World}
use nutmix.Mint.Balance.{validate_swap_proofs_and_spend_conditions}
use nutmix.Mint.Swap.{execute_swap}
use nutmix.Mint.Swap.Success.{execute_swap-Swapped}
use nutmix.Signer.Library.{KeyLibrary}
use nutmix.Signer.Local.{
  LocalSigner, local_interface, get_keysets, sign_blind_messages, verify_proofs,
}
use nutmix.Signer.Local.Signed.{
  SignedOutputs, signatures_amount, sign_blind_messages-SignedOutputs,
  signatures_amount-SignedOutputs,
}

-- The interface over a local signer answers as its methods do.
local_answers :
    (e : Environment) (l : KeyLibrary) {P S : Type 0} (c : Curve P S) (s : LocalSigner)
    (seeds : List Seed)
    → e.signer ≡ local_interface e.x l c s seeds
    → (e.signer.get_keysets ≡ ok (get_keysets seeds))
      × ((now : ℕ) (os : List BlindedMessage)
          → e.signer.sign_blind_messages now os ≡ sign_blind_messages e.x l c s now os)
      × ((ps : List Proof) → e.signer.verify_proofs ps ≡ verify_proofs l s ps)
unfolding local_interface
local_answers e l c s seeds h = (
  ap (λ (i : Signer). i.get_keysets) h,
  λ now os. ap (λ (i : Signer). i.sign_blind_messages now os) h,
  λ ps. ap (λ (i : Signer). i.verify_proofs ps) h,
)

module _ (e : Environment) (l : KeyLibrary) {P S : Type 0} (c : Curve P S) (s : LocalSigner) where
  -- What a swap has exchanged.
  pub record Exchanged (seeds : List Seed) (r : PostSwapRequest) (sigs : List BlindSignature)
      : Type 0 where
    pub verified : verify_proofs l s r.inputs ≡ ok tt
    pub signed_at : ℕ
    pub recovery : List RecoverSigDb
    pub signed : SignedOutputs c s signed_at r.outputs sigs recovery
    pub fee : ℕ
    pub fee_due : fees r.inputs (get_keysets seeds) ≡ ok fee
    pub worth : proofs_amount r.inputs ≡ add64 fee (signatures_amount sigs)

  verified_inputs :
      (now : ℕ) (r : PostSwapRequest)
      → validate_swap_proofs_and_spend_conditions e now r ≡ ok tt
      → e.signer.verify_proofs r.inputs ≡ ok tt
  unfolding validate_swap_proofs_and_spend_conditions
  verified_inputs now r h = >>=-elim (e.signer.verify_proofs r.inputs) _ h λ _ verified _. (cc)

  -- With the local signer behind the interface, a swap that hands out signatures has verified every
  -- input under the signer's keys, has signed each output once, in order, with the active key of its
  -- id and amount, and the signatures and the fee are together worth the inputs, as unsigned 64-bit
  -- words.
  pub execute_swap-Exchanged :
      (seeds : List Seed) (r : PostSwapRequest) (w w' : World) (sigs : List BlindSignature)
      → e.signer ≡ local_interface e.x l c s seeds
      → execute_swap e r w ≡ (ok sigs, w')
      → Exchanged seeds r sigs
  execute_swap-Exchanged seeds r w w' sigs local h =
      let done = execute_swap-Swapped e r w w' sigs h in
      let (told, signs, verifies) = local_answers e l c s seeds local in
      let balanced = done.balanced in
      let signed =
        sign_blind_messages-SignedOutputs e.x l c s done.signed_at r.outputs sigs done.recovery
          (sym (signs done.signed_at r.outputs) ∙ done.signed) in
      let same =
        signatures_amount-SignedOutputs c s done.signed_at r.outputs sigs done.recovery signed in
      let known : ok (get_keysets seeds) ≡ ok balanced.keysets =
        sym told ∙ balanced.signer_keysets in
      record {
        verified = sym (verifies r.inputs) ∙ verified_inputs done.checked_at r done.conditions;
        signed_at = done.signed_at;
        recovery = done.recovery;
        signed = signed;
        fee = balanced.fee;
        fee_due =
            (let keysets : get_keysets seeds ≡ balanced.keysets = cc in
              let due = balanced.fee_due in cc);
        worth = balanced.worth ∙ ap (λ n. add64 balanced.fee n) (sym same);
      }
