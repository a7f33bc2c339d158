-- ===== src/Mint/Outputs/Open.antt =====
-- What the checks of inputs and outputs leave of the transaction: validateProofsUnspent and
-- ValidateOutputsNotSpent (internal/mint/swapping.go).
use nutmix.Prelude.{List, some, ◌≡◌}
use nutmix.Cashu.Types.{Proof, BlindedMessage}
use nutmix.Database.{Tables}
use nutmix.Mint.Environment.{Environment}
use nutmix.Mint.Exec.{World}
use nutmix.Mint.Exec.Returns.{
  Returns, Returns-elim, pure-Returns, lift-Returns, clock-Returns, query-Returns,
  query_unchecked-Returns,
}
use nutmix.Mint.Outputs.{validate_proofs_unspent, validate_outputs_not_spent}

module _ (e : Environment) where
  -- The checks leave the transaction open on its tables.
  pub validate_proofs_unspent-tx :
      (proofs ps : List Proof) (t : Tables) (w w' : World)
      → w.tx ≡ some t
      → Returns (validate_proofs_unspent e proofs) w ps w'
      → w'.tx ≡ some t
  unfolding validate_proofs_unspent
  validate_proofs_unspent-tx proofs ps t w w' begun h = Returns-elim _ _ h λ seen w1 read h.
      Returns-elim _ _ h λ valued w2 computed h. Returns-elim _ _ h λ known w3 asked h.
        Returns-elim _ _ h λ _ w4 judged h.
          let (_, w1_is) = clock-Returns e w w1 seen read in
          let (_, w2_is) = lift-Returns computed in
          let (t', open_, _, w3_is) = query-Returns e _ w2 w3 known asked in
          let (_, w4_is) = lift-Returns judged in let (_, stays) = pure-Returns h in cc

  pub validate_outputs_not_spent-tx :
      (outputs : List BlindedMessage) (t : Tables) (w w' : World) (u : Unit {0})
      → w.tx ≡ some t
      → Returns (validate_outputs_not_spent e outputs) w u w'
      → w'.tx ≡ some t
  unfolding validate_outputs_not_spent
  validate_outputs_not_spent-tx outputs t w w' u begun h = Returns-elim _ _ h λ points w1 made h.
      Returns-elim _ _ h λ known w2 asked h.
        let (_, w1_is) = lift-Returns made in
        let (t', open_, w2_is) = query_unchecked-Returns e _ w1 w2 known asked in
        let (_, stays) = lift-Returns h in cc
