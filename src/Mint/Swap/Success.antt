-- ===== src/Mint/Swap/Success.antt =====
-- What a swap that succeeds has checked and what it leaves in the tables: ExecuteSwap
-- (internal/mint/swapping.go).
use mathlib.Core.Path.{subst}
use nutmix.Prelude.{ℕ, suc, List, [], true, false, none, some, ◌≡◌}
use nutmix.Cashu.Errors.{Result, ok, err, panic}
use nutmix.Cashu.Types.{
  Proof, ProofState, PostSwapRequest, BlindSignature, RecoverSigDb, set_proofs_state,
}
use nutmix.Database
use nutmix.Database.{Tables, ys, save_restore_sigs, get_proofs_from_secret_curve}
use nutmix.Mint.Environment.{Environment}
use nutmix.Mint.Exec.{World, try, lift, get_tx, commit}
use nutmix.Mint.Exec.Returns.{
  Returns, Returns-elim, Tried, try-Returns, pure-Returns, lift-Returns, get_tx-Returns,
  commit-Returns, update-Returns, query-Returns, clock-Returns, insert-Returns, try-rollback-closed,
}
use nutmix.Mint.Inputs.{calculate_proofs_values}
use nutmix.Mint.Outputs.{validate_proofs_unspent}
use nutmix.Mint.Outputs.Open.{validate_proofs_unspent-tx, validate_outputs_not_spent-tx}
use nutmix.Mint.Swap.Spent.{judge_known-eq-nil}
use nutmix.Mint.Balance.{validate_swap_proofs_and_spend_conditions}
use nutmix.Mint.Balance.Value.{Balanced, validate_swap_balance_and_units-Balanced}
use nutmix.Mint.Swap.{
  Signed, mark_inputs_spent, finish_swap, store_signatures, sign_swap_outputs_and_mark_inputs_spent,
  conclude_swap, reserve_swap_inputs, execute_swap,
}

try-lift-world :
    {A : Type 0} (r : Result A) (w w' : World) (s : Result A)
    → Returns (try (lift r)) w s w'
    → w ≡ w'
unfolding try lift
try-lift-world r w w' s h = cc

module _ (e : Environment) where
  -- The second transaction of a swap that has stored its signatures; the swap has left `before`.
  pub record Stored (inputs : List Proof) (before : Tables) (recovery : List RecoverSigDb)
      (w : World) : Type 0 where
    pub calls : ℕ
    pub rows :
        save_restore_sigs recovery
          (Database.set_proofs_state inputs ProofState.spent (e.others calls before))
        ≡ ok w.committed
    pub closed : w.tx ≡ none

  conclude_swap-Returns :
      (proofs : List Proof) (outcome : Signed) (w w' : World) (sigs : List BlindSignature)
      → Returns (conclude_swap e proofs outcome) w sigs w'
      → (outcome.0 ≡ ok sigs) × (w ≡ w')
  unfolding conclude_swap
  conclude_swap-Returns proofs (ok s, remove) w w' sigs h =
      let (same, kept) = pure-Returns h in (cc, kept)
  conclude_swap-Returns proofs (err x, true) w w' sigs h =
      Returns-elim _ _ h λ cleanup w1 _ h. cc ((lift-Returns h).0)
  conclude_swap-Returns proofs (err x, false) w w' sigs h = cc ((lift-Returns h).0)
  conclude_swap-Returns proofs (panic, remove) w w' sigs h = cc ((lift-Returns h).0)

  -- A second transaction that hands out signatures has committed.
  finish_swap-Returns :
      (sigs : List BlindSignature) (r : Result (Unit {0})) (w w' : World) (outcome : Signed)
      → Returns (finish_swap e sigs r) w outcome w'
      → {s : List BlindSignature} → outcome.0 ≡ ok s
      → (r ≡ ok tt) × (sigs ≡ s) × (w.tx ≡ some w'.committed) × (w'.tx ≡ none)
  unfolding finish_swap
  finish_swap-Returns sigs (ok _) w w' outcome h signed = Returns-elim _ _ h (elim [
    | ok u ↦ λ w1 done h. Returns-elim _ _ h λ closed w2 rolled h.
        let (t, open_, end) = commit-Returns e w w1 u (try-Returns (commit e) w w1 (ok u) done) in
        let (same, none_open) = try-rollback-closed e w1 w2 closed (cc) rolled in
        let (kept, stays) = pure-Returns h in (cc, cc, cc, cc)
    | err x ↦ λ w1 _ h.
        Returns-elim _ _ h λ _ w2 _ h.
          Returns-elim _ _ h λ _ w3 _ h. let (kept, stays) = pure-Returns h in absurd (cc)
    | panic ↦ λ w1 _ h. absurd (cc ((lift-Returns h).0))
  ])
  finish_swap-Returns sigs (err x) w w' outcome h signed =
      Returns-elim _ _ h λ _ w2 _ h. let (kept, stays) = pure-Returns h in absurd (cc)
  finish_swap-Returns sigs panic w w' outcome h signed = absurd (cc ((lift-Returns h).0))

  store_signatures-Returns :
      (inputs : List Proof) (sigs : List BlindSignature) (recovery : List RecoverSigDb)
      (w w' : World) (outcome : Signed)
      → Returns (store_signatures e inputs (sigs, recovery)) w outcome w'
      → {s : List BlindSignature} → outcome.0 ≡ ok s
      → (sigs ≡ s) × Stored inputs w.committed recovery w'
  unfolding store_signatures mark_inputs_spent
  store_signatures-Returns inputs sigs recovery w w' outcome h signed = Returns-elim _ _ h (elim [
    | ok u ↦ λ w1 began h. Returns-elim _ _ h λ marked w2 stored h.
        let (success, same, committed, closed) =
          finish_swap-Returns sigs marked w2 w' outcome h signed in
        let begun = get_tx-Returns e w w1 u (try-Returns (get_tx e) w w1 (ok u) began) in
        (
          same,
          stored_rows w w1 w2 w' begun
              (subst (λ m. Tried (mark_inputs_spent e inputs recovery) w1 m w2) success
                (try-Returns (mark_inputs_spent e inputs recovery) w1 w2 marked stored))
              committed closed,
        )
    | err x ↦ λ w1 _ h. let (kept, stays) = pure-Returns h in absurd (cc)
    | panic ↦ λ w1 _ h. absurd (cc ((lift-Returns h).0))
  ])
    where
      stored_rows :
          (w w1 w2 w' : World)
          → w1 ≡ record w {
            committed = e.others w.calls w.committed;
            tx = some (e.others w.calls w.committed);
            calls = suc w.calls;
          }
          → Returns (mark_inputs_spent e inputs recovery) w1 tt w2
          → w2.tx ≡ some w'.committed
          → w'.tx ≡ none
          → Stored inputs w.committed recovery w'
      stored_rows w w1 w2 w' begun h committed closed = Returns-elim _ _ h λ u v marked h.
          let (t, open_, end) = update-Returns e _ w1 v u marked in
          let (t1, t2, open1, rows, end1) = insert-Returns e _ v w2 tt h in
          record { calls = w.calls; rows = cc; closed = closed }

  pub validate_proofs_unspent-Returns :
      (proofs ps : List Proof) (t : Tables) (w w' : World)
      → w.tx ≡ some t
      → Returns (validate_proofs_unspent e proofs) w ps w'
      → (seen : ℕ) × (calculate_proofs_values e.x seen proofs ≡ ok ps)
        × (get_proofs_from_secret_curve (ys ps) t ≡ [])
  unfolding validate_proofs_unspent
  validate_proofs_unspent-Returns proofs ps t w w' begun h = Returns-elim _ _ h λ seen w1 read h.
      Returns-elim _ _ h λ valued w2 computed h. Returns-elim _ _ h λ known w3 asked h.
        Returns-elim _ _ h λ _ w4 judged h.
          let (_, w1_is) = clock-Returns e w w1 seen read in
          let (values, w2_is) = lift-Returns computed in
          let (t', open_, answer, _) = query-Returns e _ w2 w3 known asked in
          let (none_known, _) = lift-Returns judged in
          let (same, _) = pure-Returns h in
          let empty : known ≡ [] = judge_known-eq-nil known none_known in (seen, cc, cc)

  -- The first transaction of a swap: the inputs with their keys, of which none was in the tables, are
  -- saved as pending, which leaves `saved`.
  pub record Reserved (r : PostSwapRequest) (inputs : List Proof) (saved : Tables) : Type 0 where
    pub seen : ℕ
    pub valued : List Proof
    pub computed : calculate_proofs_values e.x seen r.inputs ≡ ok valued
    pub pending : inputs ≡ set_proofs_state ProofState.pending valued
    pub calls : ℕ
    pub before : Tables
    pub unknown : get_proofs_from_secret_curve (ys valued) (e.others calls before) ≡ []
    pub saving : Database.save_proof inputs (e.others calls before) ≡ ok saved

  reserve_swap_inputs-Returns :
      (r : PostSwapRequest) (w w' : World) (inputs : List Proof)
      → Returns (reserve_swap_inputs e r) w inputs w'
      → Reserved r inputs w'.committed
  unfolding reserve_swap_inputs
  reserve_swap_inputs-Returns r w w' inputs h = Returns-elim _ _ h λ u w1 begun h.
      Returns-elim _ _ h λ valued w2 validated h. Returns-elim _ _ h λ u0 w3 fresh h.
        Returns-elim _ _ h λ u1 w4 saved h. Returns-elim _ _ h λ u2 w5 done h.
          let t0 = e.others w.calls w.committed in
          let (same, stays) = pure-Returns h in
          let begun = get_tx-Returns e w w1 u begun in
          let (seen, computed, unknown) =
            validate_proofs_unspent-Returns r.inputs valued t0 w1 w2 (cc) validated in
          let open2 = validate_proofs_unspent-tx e r.inputs valued t0 w1 w2 (cc) validated in
          let open3 = validate_outputs_not_spent-tx e r.outputs t0 w2 w3 u0 open2 fresh in
          let (t1, t2, open4, rows, w4_is) = insert-Returns e _ w3 w4 u1 saved in
          let (t3, open5, w5_is) = commit-Returns e w4 w5 u2 done in
          let taken = set_proofs_state ProofState.pending valued in
          let saving : Database.save_proof taken t1 ≡ ok t2 = rows in
          let t1_is : t1 ≡ t0 = cc in
          record {
            seen = seen;
            valued = valued;
            computed = computed;
            pending = cc;
            calls = w.calls;
            before = w.committed;
            unknown = unknown;
            saving = cc;
          }

  sign_swap-Returns :
      (inputs : List Proof) (r : PostSwapRequest) (w w' : World) (outcome : Signed)
      {sigs : List BlindSignature}
      → Returns (sign_swap_outputs_and_mark_inputs_spent e inputs r) w outcome w'
      → outcome.0 ≡ ok sigs
      → (now : ℕ) × (recovery : List RecoverSigDb) × (e.signer.sign_blind_messages now r.outputs
          ≡ ok (sigs, recovery))
        × Stored inputs w.committed recovery w'
  unfolding sign_swap_outputs_and_mark_inputs_spent
  sign_swap-Returns inputs r w w' outcome {sigs} h signed = Returns-elim _ _ h λ now w1 read h.
      Returns-elim _ _ h (elim [
        | ok both ↦ λ w2 tried h.
            let (answer, _) = lift-Returns (
              try-Returns (lift (e.signer.sign_blind_messages now r.outputs)) w1 w2 (ok both)
                tried) in
            let (same, stored) =
              store_signatures-Returns inputs both.0 both.1 w2 w' outcome h signed in
            let (_, w1_is) = clock-Returns e w w1 now read in
            let w2_is = try-lift-world (e.signer.sign_blind_messages now r.outputs) w1 w2 _ tried in
            let kept : w2.committed ≡ w.committed = cc in
            (now, both.1, cc, subst (λ t. Stored inputs t both.1 w') kept stored)
        | err x ↦ λ w2 _ h. let (kept, stays) = pure-Returns h in absurd (cc)
        | panic ↦ λ w2 _ h. absurd (cc ((lift-Returns h).0))
      ])

  -- What a swap has checked and done, given what it hands out.
  pub record Swapped (r : PostSwapRequest) (sigs : List BlindSignature) (w : World) : Type 0 where
    pub balanced : Balanced e r
    pub checked_at : ℕ
    pub conditions : validate_swap_proofs_and_spend_conditions e checked_at r ≡ ok tt
    pub inputs : List Proof
    pub saved : Tables
    pub reserved : Reserved r inputs saved
    pub signed_at : ℕ
    pub recovery : List RecoverSigDb
    pub signed : e.signer.sign_blind_messages signed_at r.outputs ≡ ok (sigs, recovery)
    pub stored : Stored inputs saved recovery w

-- A swap that hands out signatures was balanced and passed the spend conditions; no input was in
-- the tables when it was reserved, and all were saved there as pending; the signatures are those of
-- the signer for the outputs; and the tables at the end are what the other requests made of those
-- before the second transaction, with the inputs marked as spent and the signatures stored. No
-- transaction is left open.
pub execute_swap-Swapped :
    (e : Environment) (r : PostSwapRequest) (w w' : World) (sigs : List BlindSignature)
    → execute_swap e r w ≡ (ok sigs, w')
    → Swapped e r sigs w'
unfolding execute_swap
execute_swap-Swapped e r w w' sigs h = Returns-elim _ _ h λ _ w1 balanced h.
    Returns-elim _ _ h λ now w2 _ h. Returns-elim _ _ h λ _ w3 conditions h.
      Returns-elim _ _ h λ inputs w4 reserved h. Returns-elim _ _ h λ outcome w5 signed h.
        let (success, same) = conclude_swap-Returns e inputs outcome w5 w' sigs h in
        let (at, recovery, answer, stored) =
          sign_swap-Returns e inputs r w4 w5 outcome signed success in
        record {
          balanced = validate_swap_balance_and_units-Balanced e r (lift-Returns balanced).0;
          checked_at = now;
          conditions = (lift-Returns conditions).0;
          inputs = inputs;
          saved = w4.committed;
          reserved = reserve_swap_inputs-Returns e r w3 w4 inputs reserved;
          signed_at = at;
          recovery = recovery;
          signed = answer;
          stored = subst (Stored e inputs w4.committed recovery) same stored;
        }
