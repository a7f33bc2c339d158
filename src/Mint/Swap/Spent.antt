-- ===== src/Mint/Swap/Spent.antt =====
-- A spent proof stays spent through every swap, however the swap ends.
use nutmix.Prelude.{ℕ, List, [], ◌∷◌, true, false, ◌≡◌, refl, contains, arith}
use nutmix.Cashu.Errors.{Result, ok, err, panic}
use nutmix.Cashu.Types.{
  Proof, ProofState, PostSwapRequest, BlindSignature, RecoverSigDb, BlindedMessage, PublicKey,
  set_proofs_state,
}
use nutmix.Database.{Tables, ys}
use nutmix.Database.Laws.{
  Spent, set_proofs_state-Spent, save_proof-Spent, delete_proofs-Spent, save_restore_sigs-Spent,
  unknown_keys, ys-set_proofs_state,
}
use nutmix.Mint.Environment.{Environment}
use nutmix.Mint.Exec.{World}
use nutmix.Mint.Exec.Triples.{
  Triple, Keeps, Keeps-after, Triple-pure, Triple-lift, Triple-bind, Triple-given, Keeps-pure,
  Keeps-lift, Keeps-try,
}
use nutmix.Mint.Exec.Rules.{
  Holds, clock-Keeps, get_tx-Keeps, commit-Keeps, rollback-Keeps, query_unchecked-Keeps,
  query-Triple, update-Keeps, insert-Keeps,
}
use nutmix.Mint.Inputs.{judge_known}
use nutmix.Mint.Outputs.{validate_proofs_unspent, validate_outputs_not_spent}
use nutmix.Mint.Swap.{
  Signed, mark_inputs_spent, finish_swap, store_signatures, sign_swap_outputs_and_mark_inputs_spent,
  remove_pending_swap_proofs, conclude_swap, reserve_swap_inputs, execute_swap,
}

pub judge_known-eq-nil : (known : List Proof) {u : Unit {0}} → judge_known known ≡ ok u → known ≡ []
unfolding judge_known
judge_known-eq-nil [] h = refl
judge_known-eq-nil (k ∷ ks) h = ground arith

-- The other requests leave a spent proof spent.
abbrev pub Others : Environment → PublicKey → Type 0
Others e y = (n : ℕ) (t : Tables) → Spent y t → Spent y (e.others n t)

module _ (e : Environment) (y : PublicKey) where
  abbrev Inv : World → Type 0
  Inv = Holds (Spent y)

  -- The keys of the proofs are others than the spent one.
  abbrev Avoids : List Proof → Type 0
  Avoids ps = contains y (ys ps) ≡ false

  pub validate_proofs_unspent-Avoids :
      (proofs : List Proof)
      → Triple Inv (validate_proofs_unspent e proofs) (λ ps w. Inv w × Avoids ps) Inv
  unfolding validate_proofs_unspent
  validate_proofs_unspent-Avoids proofs = Triple-bind (clock-Keeps e (Spent y)) λ now.
      Triple-bind (Keeps-lift _) λ valued.
        Triple-bind
          (query-Triple e (Spent y) (λ known. known ≡ [] → Avoids valued) _
            (λ t h none_known. unknown_keys y (ys valued) t none_known h))
          λ known. Triple-given λ told.
            Triple-bind {Q = λ _ w. Inv w × Avoids valued}
              (Triple-lift _ (λ u eq w h. (h, told (judge_known-eq-nil known eq))) (λ w h. h))
              λ _. Triple-pure valued (λ w h. h)

  validate_outputs_not_spent-Spent :
      (outputs : List BlindedMessage) → Keeps Inv (validate_outputs_not_spent e outputs)
  unfolding validate_outputs_not_spent
  validate_outputs_not_spent-Spent outputs =
      Triple-bind (Keeps-lift _)
        λ points. Triple-bind (query_unchecked-Keeps e (Spent y) _) λ known. Keeps-lift _

  reserve_swap_inputs-Avoids :
      Others e y
      → (r : PostSwapRequest) → Triple Inv (reserve_swap_inputs e r) (λ ps w. Inv w × Avoids ps) Inv
  unfolding reserve_swap_inputs
  reserve_swap_inputs-Avoids others r = Triple-bind (get_tx-Keeps e (Spent y) others) λ _.
      Triple-bind (validate_proofs_unspent-Avoids r.inputs) λ proofs. Triple-given λ avoids.
        Triple-bind (validate_outputs_not_spent-Spent r.outputs) λ _.
          Triple-bind (insert-Keeps e (Spent y) _ (save_proof-Spent y _)) λ _.
            Triple-bind (commit-Keeps e (Spent y))
              λ _. Triple-pure _ (λ w h. (h, pending-Avoids proofs avoids))
    where
      pending-Avoids :
          (proofs : List Proof)
          → Avoids proofs
          → Avoids (set_proofs_state ProofState.pending proofs)
      pending-Avoids proofs h = cc (ys-set_proofs_state ProofState.pending proofs)

  mark_inputs_spent-Spent :
      (inputs : List Proof) (recovery : List RecoverSigDb)
      → Keeps Inv (mark_inputs_spent e inputs recovery)
  unfolding mark_inputs_spent
  mark_inputs_spent-Spent inputs recovery =
      Triple-bind (update-Keeps e (Spent y) _ (set_proofs_state-Spent y inputs))
        λ _. insert-Keeps e (Spent y) _ (save_restore_sigs-Spent y recovery)

  finish_swap-Spent :
      (sigs : List BlindSignature) (r : Result (Unit {0})) → Keeps Inv (finish_swap e sigs r)
  unfolding finish_swap
  finish_swap-Spent sigs (ok _) = Triple-bind (Keeps-try (commit-Keeps e (Spent y))) (elim [
    | ok _ ↦ Triple-bind (Keeps-try (rollback-Keeps e (Spent y))) λ closed. Keeps-pure _
    | err x ↦
        Triple-bind (Keeps-try (rollback-Keeps e (Spent y)))
          λ open_. Triple-bind (Keeps-try (rollback-Keeps e (Spent y))) λ closed. Keeps-pure _
    | panic ↦ Keeps-lift _
  ])
  finish_swap-Spent sigs (err x) =
      Triple-bind (Keeps-try (rollback-Keeps e (Spent y))) λ closed. Keeps-pure _
  finish_swap-Spent sigs panic = Keeps-lift _

  store_signatures-Spent :
      Others e y
      → (inputs : List Proof) (signed : List BlindSignature × List RecoverSigDb)
      → Keeps Inv (store_signatures e inputs signed)
  unfolding store_signatures
  store_signatures-Spent others inputs (sigs, recovery) =
      Triple-bind (Keeps-try (get_tx-Keeps e (Spent y) others)) (elim [
        | ok _ ↦
            Triple-bind (Keeps-try (mark_inputs_spent-Spent inputs recovery))
              (finish_swap-Spent sigs)
        | err x ↦ Keeps-pure _
        | panic ↦ Keeps-lift _
      ])

  sign-Spent :
      Others e y
      → (inputs : List Proof) (r : PostSwapRequest)
      → Keeps Inv (sign_swap_outputs_and_mark_inputs_spent e inputs r)
  unfolding sign_swap_outputs_and_mark_inputs_spent
  sign-Spent others inputs r = Triple-bind (clock-Keeps e (Spent y)) λ now.
      Triple-bind (Keeps-try (Keeps-lift _)) (elim [
        | ok signed ↦ store_signatures-Spent others inputs signed
        | err x ↦ Keeps-pure _
        | panic ↦ Keeps-lift _
      ])

  remove_pending_swap_proofs-Spent :
      Others e y
      → (proofs : List Proof) → Avoids proofs
      → Keeps Inv (remove_pending_swap_proofs e proofs)
  unfolding remove_pending_swap_proofs
  remove_pending_swap_proofs-Spent others proofs avoids =
      Triple-bind (get_tx-Keeps e (Spent y) others) λ _.
        Triple-bind (update-Keeps e (Spent y) _ (λ t h. delete_proofs-Spent y proofs t avoids h))
          λ _. commit-Keeps e (Spent y)

  conclude_swap-Spent :
      Others e y
      → (proofs : List Proof) (outcome : Signed) → Avoids proofs
      → Keeps Inv (conclude_swap e proofs outcome)
  unfolding conclude_swap
  conclude_swap-Spent others proofs (ok sigs, remove) avoids = Keeps-pure _
  conclude_swap-Spent others proofs (err x, true) avoids =
      Triple-bind (Keeps-try (remove_pending_swap_proofs-Spent others proofs avoids))
        λ cleanup. Keeps-lift _
  conclude_swap-Spent others proofs (err x, false) avoids = Keeps-lift _
  conclude_swap-Spent others proofs (panic, remove) avoids = Keeps-lift _

  execute_swap-Keeps : Others e y → (r : PostSwapRequest) → Keeps Inv (execute_swap e r)
  unfolding execute_swap
  execute_swap-Keeps others r = Triple-bind (Keeps-lift _) λ _.
      Triple-bind (clock-Keeps e (Spent y)) λ now. Triple-bind (Keeps-lift _) λ _.
        Triple-bind (reserve_swap_inputs-Avoids others r) λ proofs. Triple-given λ avoids.
          Triple-bind (sign-Spent others proofs r)
            λ outcome. conclude_swap-Spent others proofs outcome avoids

-- If the other requests leave the proof of key `y` spent, then so does a swap, however it ends: in
-- the committed tables and in a transaction that is still open. `w` is any state in which the proof
-- is spent.
pub execute_swap-Spent :
    (e : Environment) (y : PublicKey) (r : PostSwapRequest) (w : World)
    → Others e y
    → Holds (Spent y) w
    → Holds (Spent y) (execute_swap e r w).1
execute_swap-Spent e y r w others h = Keeps-after (execute_swap-Keeps e y others r) w h
