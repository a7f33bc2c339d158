-- ===== src/Database/Laws.antt =====
-- What the statements keep: a spent proof stays spent.
use mathlib.Core.Path.{subst}
use nutmix.Prelude.{
  sym, List, [], ◌∷◌, Bool, true, false, not, ◌&&◌, ◌≡◌, refl, str_eq, eq_iff, any, keep, contains,
  arith, Bool-cases, inl, inr,
}
use nutmix.Cashu.Errors.{Result, ok, err, panic}
use nutmix.Cashu.Types.{Proof, ProofState, spent, PublicKey, RecoverSigDb}
use nutmix.Cashu.Types
use nutmix.Database.{
  Tables, ys, same_proof, insert_proofs, save_proof, update_states, set_proofs_state, delete_proofs,
  get_proofs_from_secret_curve, save_restore_sigs,
}

abbrev pub state_spent : Proof → Bool
state_spent p = elim p.state [ ProofState.spent ↦ true | _ ↦ false ]

-- There is a row with the key, and it is spent.
abbrev pub is_spent : PublicKey → List Proof → Bool
is_spent y ps = any (λ p. str_eq p.y y && state_spent p) ps

abbrev pub Spent : PublicKey → Tables → Type 0
Spent y t = is_spent y t.proofs ≡ true

module _ (y : PublicKey) where
  is_spent-update_states :
      (keys : List PublicKey) (ps : List Proof)
      → is_spent y ps ≡ true
      → is_spent y (update_states keys spent ps) ≡ true
  unfolding update_states
  is_spent-update_states keys [] h = cc
  is_spent-update_states keys (p ∷ ps) h = ground (arith, is_spent-update_states keys ps)

  is_spent-insert_proofs :
      (new rows rows' : List Proof)
      → insert_proofs new rows ≡ ok rows'
      → is_spent y rows ≡ true
      → is_spent y rows' ≡ true
  unfolding insert_proofs
  is_spent-insert_proofs [] rows rows' e h = ground arith
  is_spent-insert_proofs (p ∷ ps) rows rows' e h =
      is_spent-insert_proofs ps (p ∷ rows) rows' (ground arith) (ground arith)

  -- Deleting other keys leaves a spent proof.
  is_spent-delete :
      (keys : List PublicKey) (ps : List Proof)
      → contains y keys ≡ false
      → is_spent y ps ≡ true
      → is_spent y (keep (λ p. not (contains p.y keys)) ps) ≡ true
  is_spent-delete keys [] k h = cc
  is_spent-delete keys (p ∷ ps) k h = elim (Bool-cases (str_eq p.y y)) [
    | inl same ↦
        let e : p.y ≡ y = (eq_iff p.y y).0 same in ground (arith, is_spent-delete keys ps k)
    | inr other ↦ ground (arith, is_spent-delete keys ps k)
  ]

  pub set_proofs_state-Spent :
      (ps : List Proof) (t : Tables) → Spent y t → Spent y (set_proofs_state ps spent t)
  unfolding set_proofs_state
  set_proofs_state-Spent ps t h = is_spent-update_states (ys ps) t.proofs h

  pub save_proof-Spent :
      (ps : List Proof) (t t' : Tables) → save_proof ps t ≡ ok t' → Spent y t → Spent y t'
  unfolding save_proof
  save_proof-Spent ps t t' e h = stored (insert_proofs ps t.proofs) refl e
    where
      stored :
          (r : Result (List Proof))
          → insert_proofs ps t.proofs ≡ r
          → (elim r [ ok rows ↦ ok (record t { proofs = rows }) | _ ↦ err [] ]) ≡ ok t'
          → Spent y t'
      stored (ok rows) f e = ground (arith, is_spent-insert_proofs ps t.proofs rows f h)
      stored (err x) f e = cc
      stored panic f e = cc

  pub delete_proofs-Spent :
      (ps : List Proof) (t : Tables)
      → contains y (ys ps) ≡ false
      → Spent y t
      → Spent y (delete_proofs ps t)
  unfolding delete_proofs
  delete_proofs-Spent ps t k h = is_spent-delete (ys ps) t.proofs k h

  pub save_restore_sigs-Spent :
      (rs : List RecoverSigDb) (t t' : Tables)
      → save_restore_sigs rs t ≡ ok t'
      → Spent y t
      → Spent y t'
  unfolding save_restore_sigs
  save_restore_sigs-Spent rs t t' e h = ground arith

  -- If no proof with one of the keys is in the tables, a spent key is none of them.
  not-contains-of-Spent :
      (keys : List PublicKey) (ps : List Proof)
      → keep (λ p. contains p.y keys) ps ≡ []
      → is_spent y ps ≡ true
      → contains y keys ≡ false
  not-contains-of-Spent keys [] e h = cc
  not-contains-of-Spent keys (p ∷ ps) e h = elim (Bool-cases (str_eq p.y y)) [
    | inl same ↦
        let f : p.y ≡ y = (eq_iff p.y y).0 same in ground (arith, not-contains-of-Spent keys ps)
    | inr other ↦ ground (arith, not-contains-of-Spent keys ps)
  ]

  pub unknown_keys :
      (keys : List PublicKey) (t : Tables)
      → get_proofs_from_secret_curve keys t ≡ []
      → Spent y t
      → contains y keys ≡ false
  unfolding get_proofs_from_secret_curve
  unknown_keys keys t e h = not-contains-of-Spent keys t.proofs e h

pub ys-set_proofs_state :
    (state : ProofState) (ps : List Proof) → ys (Types.set_proofs_state state ps) ≡ ys ps
unfolding Types.set_proofs_state
ys-set_proofs_state state [] = refl
ys-set_proofs_state state (p ∷ ps) = ground (arith, ys-set_proofs_state state ps)

-- One proof that is saved is the first row.
save_one :
    (p : Proof) (t t' : Tables)
    → save_proof (p ∷ []) t ≡ ok t'
    → t' ≡ record t { proofs = p ∷ t.proofs }
unfolding save_proof insert_proofs
save_one p t t' h = elim (Bool-cases (any (same_proof p) t.proofs)) [
  | inl taken ↦ absurd (cc)
  | inr fresh ↦ cc
]

marked :
    (p : Proof) (t : Tables)
    → Spent p.y (set_proofs_state (p ∷ []) spent (record t { proofs = p ∷ t.proofs }))
unfolding set_proofs_state update_states
marked p t = let same : str_eq p.y p.y ≡ true = (eq_iff p.y p.y).1 refl in rw (same, same) refl

-- A proof that is saved and then marked as spent has a spent row.
pub set_proofs_state-save_proof :
    (p : Proof) (t t' : Tables)
    → save_proof (p ∷ []) t ≡ ok t'
    → Spent p.y (set_proofs_state (p ∷ []) spent t')
set_proofs_state-save_proof p t t' h =
    subst (λ (s : Tables). Spent p.y (set_proofs_state (p ∷ []) spent s)) (sym (save_one p t t' h))
      (marked p t)
