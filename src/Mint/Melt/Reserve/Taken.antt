-- ===== src/Mint/Melt/Reserve/Taken.antt =====
-- The transaction that takes the inputs of a melt: reserveMeltInputsAndMarkPending
-- (internal/mint/melting.go).
use mathlib.Core.Path.{subst}
use nutmix.Prelude.{ℕ, List, [], false, ◌≡◌, ◌⊎◌, inl, inr}
use nutmix.Cashu.Errors.{ok, fail_if-eq-ok}
use nutmix.Cashu.Types.{
  PostMeltBolt11Request, MeltRequestDb, Proof, ActionState, is_pending, set_pending_and_quote_ref,
}
use nutmix.Database.{
  Tables, ys, get_melt_request_by_id, save_melt_change, get_proofs_from_secret_curve, save_proof,
  change_melt_request_state,
}
use nutmix.Mint.Environment.{Environment}
use nutmix.Mint.Exec.{World}
use nutmix.Mint.Exec.Returns.{
  Returns-elim, pure-Returns, lift-Returns, get_tx-Returns, find-Returns, update-Returns,
  commit-Returns, clock-Returns, insert-Returns,
}
use nutmix.Mint.Inputs.{calculate_proofs_values}
use nutmix.Mint.Outputs.Open.{validate_proofs_unspent-tx, validate_outputs_not_spent-tx}
use nutmix.Mint.Swap.Success.{validate_proofs_unspent-Returns}
use nutmix.Mint.Melt.Reserve.{reserve_melt_inputs_and_mark_pending}
use nutmix.Mint.Melt.Reserve.Internal.{SettledInternally, settle_if_internal_melt-SettledInternally}

-- The quote as it is marked in the transaction, before the internal settlement.
abbrev pub pending_copy : MeltRequestDb → MeltRequestDb
pending_copy q = record q { state = ActionState.pending }

-- What the transaction writes for the inputs and the quote, at the time `now`.
abbrev pub reserved : PostMeltBolt11Request → MeltRequestDb → ℕ → Tables → Tables
reserved r quote now t =
    save_melt_change r.outputs quote.quote now
      (change_melt_request_state quote.quote ActionState.pending quote.melted quote.fee_paid t)

-- The melt in the world `w` has taken `inputs`, and left `committed`.
pub record Taken (e : Environment) (r : PostMeltBolt11Request) (w : World) (settled : MeltRequestDb)
    (inputs : List Proof) (committed : Tables) : Type 0 where
  pub quote : MeltRequestDb
  pub found : get_melt_request_by_id r.quote (e.others w.calls w.committed) ≡ ok quote
  pub not_pending : is_pending quote.state ≡ false
  pub not_melted : quote.melted ≡ false
  pub seen : ℕ
  pub valued : List Proof
  pub computed : calculate_proofs_values e.x seen r.inputs ≡ ok valued
  pub unknown : get_proofs_from_secret_curve (ys valued) (e.others w.calls w.committed) ≡ []
  pub inputs_are : inputs ≡ set_pending_and_quote_ref quote.quote valued
  pub saved : Tables
  pub saving : save_proof inputs (e.others w.calls w.committed) ≡ ok saved
  pub now : ℕ
  pub outcome :
      ((settled ≡ pending_copy quote) × (committed ≡ reserved r quote now saved))
      ⊎ SettledInternally (pending_copy quote) settled (reserved r quote now saved) committed

-- If the inputs of a melt are taken, then the quote that is stored was neither pending nor melted
-- and no input was in the tables. The inputs come back as pending proofs of the quote, and what is
-- committed is what the other requests had left with these proofs saved, the quote marked as pending
-- and the outputs stored for the change, and then either nothing more or the quote settled
-- internally against an unpaid mint quote of the same invoice and unit, both marked as paid.
pub reserve_melt_inputs-Taken :
    (e : Environment) (r : PostMeltBolt11Request) (w w' : World) (settled : MeltRequestDb)
    (inputs : List Proof)
    → reserve_melt_inputs_and_mark_pending e r w ≡ (ok (settled, inputs), w')
    → Taken e r w settled inputs w'.committed
unfolding reserve_melt_inputs_and_mark_pending
reserve_melt_inputs-Taken e r w w' settled inputs h = Returns-elim _ _ h λ u w1 begun h.
    Returns-elim _ _ h λ quote w2 found h. Returns-elim _ _ h λ _ w3 idle h.
      Returns-elim _ _ h λ _ w4 unmelted h. Returns-elim _ _ h λ valued w5 validated h.
        Returns-elim _ _ h λ u0 w6 fresh h. Returns-elim _ _ h λ u1 w7 saved h.
          Returns-elim _ _ h λ u2 w8 marked h. Returns-elim _ _ h λ now w9 read h.
            Returns-elim _ _ h λ u3 w10 changed h. Returns-elim _ _ h λ outcome w11 settling h.
              Returns-elim _ _ h λ u4 w12 done h.
                let t0 = e.others w.calls w.committed in
                let (both, stays) = pure-Returns h in
                let begun = get_tx-Returns e w w1 u begun in
                let (t1, open1, hit, w2_is) = find-Returns e _ w1 w2 quote found in
                let (_, w3_is) = lift-Returns idle in
                let (_, w4_is) = lift-Returns unmelted in
                let (seen, computed, unknown) =
                  validate_proofs_unspent-Returns e r.inputs valued t0 w4 w5 (cc) validated in
                let open5 = validate_proofs_unspent-tx e r.inputs valued t0 w4 w5 (cc) validated in
                let open6 = validate_outputs_not_spent-tx e r.outputs t0 w5 w6 u0 open5 fresh in
                let (t2, t3, open2, rows, w7_is) = insert-Returns e _ w6 w7 u1 saved in
                let (t4, open4, w8_is) = update-Returns e _ w7 w8 u2 marked in
                let (_, w9_is) = clock-Returns e w8 w9 now read in
                let (t5, open9, w10_is) = update-Returns e _ w9 w10 u3 changed in
                let (t6, open10, w12_is) = commit-Returns e w11 w12 u4 done in
                let settled_is : outcome ≡ settled = cc in
                let inputs_is : set_pending_and_quote_ref quote.quote valued ≡ inputs = cc in
                let taken = set_pending_and_quote_ref quote.quote valued in
                let saving : save_proof taken t2 ≡ ok t3 = rows in
                let t2_is : t2 ≡ t0 = cc in
                let told =
                  settle_if_internal_melt-SettledInternally e (pending_copy quote) outcome
                    (reserved r quote now t3) w10 w11 (cc) settling in
                record {
                  quote = quote;
                  found = cc;
                  not_pending = fail_if-eq-ok _ _ (lift-Returns idle).0;
                  not_melted = fail_if-eq-ok _ _ (lift-Returns unmelted).0;
                  seen = seen;
                  valued = valued;
                  computed = computed;
                  unknown = unknown;
                  inputs_are = cc;
                  saved = t3;
                  saving = cc;
                  now = now;
                  outcome =
                      subst
                        (λ k.
                          ((k ≡ pending_copy quote) × (w'.committed ≡ reserved r quote now t3))
                          ⊎ SettledInternally (pending_copy quote) k (reserved r quote now t3)
                              w'.committed)
                        settled_is
                        (elim told [
                          | inl (_, _, same, open7) ↦ inl (same, cc)
                          | inr (t', open7, internal) ↦
                              let committed_is : t' ≡ w'.committed = cc in
                              inr (
                                subst
                                  (SettledInternally (pending_copy quote) outcome
                                    (reserved r quote now t3))
                                  committed_is internal)
                        ]);
                }
