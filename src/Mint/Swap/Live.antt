-- ===== src/Mint/Swap/Live.antt =====
-- A swap that has nothing against it goes through: ExecuteSwap (internal/mint/swapping.go).
use nutmix.Prelude.{ℕ, suc, ◌+◌, arith, false, List, [], none, some, ◌≡◌, refl}
use nutmix.Cashu.Errors.{ok}
use nutmix.Cashu.Types.{
  Proof, ProofState, PostSwapRequest, BlindSignature, RecoverSigDb, PublicKey, set_proofs_state,
}
use nutmix.Database
use nutmix.Database.{
  Tables, ys, save_proof, save_restore_sigs, get_proofs_from_secret_curve,
  get_restore_sigs_from_blinded_messages,
}
use nutmix.Mint.Environment.{Environment, works}
use nutmix.Mint.Exec.{World, M, lift, pure, try, query, query_unchecked, ◌>>=◌}
use nutmix.Mint.Exec.Works.{
  >>=-then, lift-works, pure-works, try-works, get_tx-works, query-works, query_unchecked-works,
  commit-works, clock-works, update-works, insert-works, try-rollback-works,
}
use nutmix.Mint.Inputs.{calculate_proofs_values, distinct_outputs, judge_known}
use nutmix.Mint.Outputs.{validate_proofs_unspent, validate_outputs_not_spent}
use nutmix.Mint.Balance.{validate_swap_balance_and_units, validate_swap_proofs_and_spend_conditions}
use nutmix.Mint.Swap.{
  mark_inputs_spent, finish_swap, store_signatures, sign_swap_outputs_and_mark_inputs_spent,
  conclude_swap, reserve_swap_inputs, execute_swap,
}

abbrev six_after : ℕ → ℕ
six_after n = suc (suc (suc (suc (suc (suc n)))))

abbrev seven_after : ℕ → ℕ
seven_after n = suc (six_after n)

module _ (e : Environment) (fine : (n : ℕ) → e.fault n ≡ works)
    (alone : (n : ℕ) (t : Tables) → e.others n t ≡ t) where
  begins :
      (w : World)
      → nutmix.Mint.Exec.get_tx e w
        ≡ (ok tt, record { committed = w.committed; tx = some w.committed; calls = suc w.calls })
  begins w = let got = get_tx-works e w (fine w.calls) in let same = alone w.calls w.committed in cc

  abbrev open_world : Tables → Tables → ℕ → World
  open_world t working n = record { committed = t; tx = some working; calls = n }

  validate_proofs_unspent-works :
      (proofs valued : List Proof) (t : Tables) (n : ℕ)
      → calculate_proofs_values e.x (e.now n) proofs ≡ ok valued
      → get_proofs_from_secret_curve (ys valued) t ≡ []
      → validate_proofs_unspent e proofs (open_world t t n)
        ≡ (ok valued, open_world t t (suc (suc n)))
  unfolding validate_proofs_unspent judge_known
  validate_proofs_unspent-works proofs valued t n computed unknown =
      let w : World = open_world t t n in
      let w1 : World = open_world t t (suc n) in
      let f = get_proofs_from_secret_curve (ys valued) in
      let told : query e f w1 ≡ (ok [], open_world t t (suc (suc n))) =
        (let asked = query-works e w1 (fine (suc n)) f t refl in cc) in
      >>=-then _ _ (clock-works e w (fine n)) (
        >>=-then _ _ (lift-works _ w1 computed)
          (>>=-then _ _ told (>>=-then _ _ (lift-works _ _ refl) (pure-works _ _))))

  validate_outputs_not_spent-works :
      (r : PostSwapRequest) (points : List PublicKey) (t : Tables) (n : ℕ)
      → distinct_outputs [] r.outputs ≡ ok points
      → get_restore_sigs_from_blinded_messages points t ≡ []
      → validate_outputs_not_spent e r.outputs (open_world t t n) ≡ (ok tt, open_world t t (suc n))
  unfolding validate_outputs_not_spent
  validate_outputs_not_spent-works r points t n distinct unsigned =
      let w : World = open_world t t n in
      let f = get_restore_sigs_from_blinded_messages points in
      let told : query_unchecked e f w ≡ (ok [], open_world t t (suc n)) =
        (let asked = query_unchecked-works e w (fine n) f t refl in cc) in
      >>=-then _ _ (lift-works _ w distinct) (>>=-then _ _ told (lift-works _ _ refl))

  reserve_swap_inputs-works :
      (r : PostSwapRequest) (valued : List Proof) (points : List PublicKey) (reserved : Tables)
      (w : World)
      → calculate_proofs_values e.x (e.now (suc w.calls)) r.inputs ≡ ok valued
      → get_proofs_from_secret_curve (ys valued) w.committed ≡ []
      → distinct_outputs [] r.outputs ≡ ok points
      → get_restore_sigs_from_blinded_messages points w.committed ≡ []
      → save_proof (set_proofs_state ProofState.pending valued) w.committed ≡ ok reserved
      → reserve_swap_inputs e r w ≡ (
        ok (set_proofs_state ProofState.pending valued),
        record { committed = reserved; tx = none; calls = six_after w.calls },
      )
  unfolding reserve_swap_inputs
  reserve_swap_inputs-works r valued points reserved w computed unknown distinct unsigned saved =
      let t = w.committed in
      let w4 = open_world t t (suc (suc (suc (suc w.calls)))) in
      let w5 = open_world t reserved (suc (suc (suc (suc (suc w.calls))))) in
      >>=-then _ _ (begins w) (
        >>=-then _ _
          (validate_proofs_unspent-works r.inputs valued t (suc w.calls) computed unknown)
          (>>=-then _ _ (validate_outputs_not_spent-works r points t _ distinct unsigned) (
            >>=-then _ _ (insert-works e w4 (fine _) _ t reserved refl saved)
              (>>=-then _ _ (commit-works e w5 (fine _) reserved refl) (pure-works _ _)))))

  sign_swap_outputs-works :
      (inputs : List Proof) (r : PostSwapRequest) (sigs : List BlindSignature)
      (recovery : List RecoverSigDb) (final : Tables) (w : World)
      → e.signer.sign_blind_messages (e.now w.calls) r.outputs ≡ ok (sigs, recovery)
      → save_restore_sigs recovery (Database.set_proofs_state inputs ProofState.spent w.committed)
        ≡ ok final
      → sign_swap_outputs_and_mark_inputs_spent e inputs r w
        ≡ (ok (ok sigs, false), record { committed = final; tx = none; calls = six_after w.calls })
  unfolding sign_swap_outputs_and_mark_inputs_spent store_signatures finish_swap mark_inputs_spent
  sign_swap_outputs-works inputs r sigs recovery final w signed stored =
      let t = w.committed in
      let spent_ = Database.set_proofs_state inputs ProofState.spent in
      let w1 = record w { calls = suc w.calls } in
      let w2 = open_world t t (suc (suc w.calls)) in
      let w3 = open_world t (spent_ t) (suc (suc (suc w.calls))) in
      let w4 = open_world t final (suc (suc (suc (suc w.calls)))) in
      let w5 : World = record {
        committed = final;
        tx = none;
        calls = suc (suc (suc (suc (suc w.calls))));
      } in
      let marked =
        >>=-then _ _ (update-works e w2 (fine _) spent_ t refl)
          (insert-works e w3 (fine _) (save_restore_sigs recovery) (spent_ t) final refl stored) in
      >>=-then _ _ (clock-works e w (fine _)) (
        >>=-then _ _ (try-works _ (lift-works _ w1 signed)) (
          >>=-then _ _ (try-works _ (begins w1)) (
            >>=-then _ _ (try-works _ marked) (
              >>=-then _ _ (try-works _ (commit-works e w4 (fine _) final refl))
                (>>=-then _ _ (try-rollback-works e w5 refl) (pure-works _ _))))))

  -- If the connection works and no other request comes between, a swap comes back with the signer's
  -- signatures and has stored them: it is enough that it is balanced and its inputs verify, that no
  -- row has a key of its inputs or a point of its outputs, that the outputs differ, that the signer
  -- signs them, and that no constraint refuses the rows of the inputs and of the signatures.
  pub execute_swap-works :
      (r : PostSwapRequest) (w : World) (valued : List Proof) (points : List PublicKey)
      (reserved final : Tables) (sigs : List BlindSignature) (recovery : List RecoverSigDb)
      → validate_swap_balance_and_units e r ≡ ok tt
      → validate_swap_proofs_and_spend_conditions e (e.now w.calls) r ≡ ok tt
      → calculate_proofs_values e.x (e.now (w.calls + 2)) r.inputs ≡ ok valued
      → get_proofs_from_secret_curve (ys valued) w.committed ≡ []
      → distinct_outputs [] r.outputs ≡ ok points
      → get_restore_sigs_from_blinded_messages points w.committed ≡ []
      → save_proof (set_proofs_state ProofState.pending valued) w.committed ≡ ok reserved
      → e.signer.sign_blind_messages (e.now (w.calls + 7)) r.outputs ≡ ok (sigs, recovery)
      → save_restore_sigs recovery (
          Database.set_proofs_state
            (set_proofs_state ProofState.pending valued)
            ProofState.spent
            reserved)
        ≡ ok final
      → execute_swap e r w
        ≡ (ok sigs, record { committed = final; tx = none; calls = w.calls + 13 })
  unfolding execute_swap conclude_swap
  execute_swap-works r w valued points reserved final sigs recovery balanced conditions computed
        unknown distinct unsigned saved signed stored =
      let two : w.calls + 2 ≡ suc (suc w.calls) = omega arith in
      let seven : w.calls + 7 ≡ seven_after w.calls = omega arith in
      let thirteen : w.calls + 13 ≡ six_after (seven_after w.calls) = omega arith in
      let w1 = record w { calls = suc w.calls } in
      let w7 : World = record { committed = reserved; tx = none; calls = seven_after w.calls } in
      let inputs = set_proofs_state ProofState.pending valued in
      let reserve =
        reserve_swap_inputs-works r valued points reserved w1 (rw two at computed) unknown distinct
          unsigned saved in
      let sign =
        sign_swap_outputs-works inputs r sigs recovery final w7 (rw seven at signed) stored in
      rw thirteen (
        >>=-then _ _ (lift-works _ w balanced) (
          >>=-then _ _ (clock-works e w (fine _)) (
            >>=-then _ _ (lift-works _ w1 conditions)
              (>>=-then _ _ reserve (>>=-then _ _ sign (pure-works _ _))))))
