-- ===== src/Mint/State.antt =====
-- The state of proofs that a wallet asks for: CheckProofState (internal/mint/proofs.go).
use mathlib.Core.Path.{subst}
use nutmix.Prelude.{
  String, List, [], ◌∷◌, Option, none, some, str_eq, if◌then◌else◌, ◌≡◌, refl, ap, sym, eq_iff,
  false, any, ◌++◌, ◌⊎◌, Bool-cases, inl, inr,
}
use nutmix.Cashu.Errors.{ok}
use nutmix.Cashu.Types.{Proof, ProofState, unspent, PublicKey}
use nutmix.Database.{get_proofs_from_secret_curve}
use nutmix.Mint.Environment.{Environment}
use nutmix.Mint.Exec.{World, M, pure, get_tx, query, commit, ◌>>=◌, ◌>>◌}
use nutmix.Mint.Exec.Returns.{Returns-elim, pure-Returns, get_tx-Returns, query-Returns}

-- cashu.CheckState
pub record CheckState : Type 0 where
  pub y : PublicKey
  pub witness : Option String
  pub state : ProofState

-- What one call of the closure that `slices.ContainsFunc` gets does to the entry, whatever the
-- proof's key is.
abbrev overwrite : CheckState → Proof → CheckState
overwrite c p = record c {
  state = p.state;
  witness = if str_eq p.witness "" then c.witness else some p.witness;
}

-- slices.ContainsFunc calls the closure on each proof up to the first with the key.
unfoldable pub contains_func : PublicKey → CheckState → List Proof → CheckState
contains_func y c [] = c
contains_func y c (p ∷ ps) =
    let rest = contains_func y (overwrite c p) ps in if str_eq p.y y then overwrite c p else rest

unfoldable pub check_states : List Proof → List PublicKey → List CheckState
check_states proofs [] = []
check_states proofs (y ∷ ys) =
    contains_func y (record { y = y; witness = none; state = unspent }) proofs
    ∷ check_states proofs ys

module _ (e : Environment) where
  -- CheckProofState
  unfoldable pub check_proof_state : List PublicKey → M (List CheckState)
  check_proof_state ys = do
    get_tx e
    proofs ← query e (get_proofs_from_secret_curve ys)
    commit e
    pure (check_states proofs ys)

-- No row has the key.
abbrev pub Lacks : PublicKey → List Proof → Type 0
Lacks y ps = any (λ (p : Proof). str_eq p.y y) ps ≡ false

-- What a scan of the rows may tell of a key: the state of the first row that has the key; where none
-- has it, the state of the last of the rows, whatever its key, or where there are no rows the state
-- that it started with.
abbrev pub Scanned : PublicKey → List Proof → ProofState → ProofState → Type 0
Scanned y rows start state =
    ((before : List Proof) × (p : Proof) × (after : List Proof) × (rows ≡ before ++ p ∷ after)
      × Lacks y before
      × (p.y ≡ y)
      × (state ≡ p.state))
    ⊎ ((before : List Proof) × (p : Proof) × (rows ≡ before ++ p ∷ [])
        × Lacks y rows
        × (state ≡ p.state))
    ⊎ ((rows ≡ []) × (state ≡ start))

-- The entries answer the keys one by one.
abbrev pub AllTold : List Proof → List PublicKey → List CheckState → Type 0
AllTold rows [] [] = Unit
AllTold rows [] (c ∷ cs) = ⊥
AllTold rows (y ∷ ys) [] = ⊥
AllTold rows (y ∷ ys) (c ∷ cs) = (c.y ≡ y) × Scanned y rows unspent c.state × AllTold rows ys cs

contains_func-y :
    (y : PublicKey) (c : CheckState) (ps : List Proof) → (contains_func y c ps).y ≡ c.y
unfolding contains_func
contains_func-y y c [] = refl
contains_func-y y c (p ∷ ps) = elim (Bool-cases (str_eq p.y y)) [
  | inl hit ↦ rw hit refl
  | inr miss ↦ rw miss (contains_func-y y (overwrite c p) ps)
]

Scanned-cons :
    (y : PublicKey) (p : Proof) (ps : List Proof) (state : ProofState)
    → str_eq p.y y ≡ false
    → Scanned y ps p.state state
    → (start : ProofState) → Scanned y (p ∷ ps) start state
Scanned-cons y p ps state miss (inl (before, q, after, split, none_before, hit, told)) start =
    inl (p ∷ before, q, after, ap (λ qs. p ∷ qs) split, rw miss none_before, hit, told)
Scanned-cons y p ps state miss (inr (inl (before, q, split, lacks, told))) start =
    inr (inl (p ∷ before, q, ap (λ qs. p ∷ qs) split, rw miss lacks, told))
Scanned-cons y p ps state miss (inr (inr (empty, told))) start =
    inr (inl ([], p, ap (λ qs. p ∷ qs) empty, rw (miss, empty) refl, told))

contains_func-Scanned :
    (y : PublicKey) (c : CheckState) (ps : List Proof)
    → Scanned y ps c.state (contains_func y c ps).state
unfolding contains_func
contains_func-Scanned y c [] = inr (inr (refl, refl))
contains_func-Scanned y c (p ∷ ps) = elim (Bool-cases (str_eq p.y y)) [
  | inl hit ↦ inl ([], p, ps, refl, refl, (eq_iff p.y y).0 hit, rw hit refl)
  | inr miss ↦
      let stays : (contains_func y c (p ∷ ps)).state ≡ (contains_func y (overwrite c p) ps).state =
        rw miss refl in
      subst (Scanned y (p ∷ ps) c.state) (sym stays)
        (Scanned-cons y p ps _ miss (contains_func-Scanned y (overwrite c p) ps) c.state)
]

check_states-AllTold :
    (rows : List Proof) (keys : List PublicKey) → AllTold rows keys (check_states rows keys)
unfolding check_states
check_states-AllTold rows [] = tt
check_states-AllTold rows (y ∷ ys) =
    let fresh : CheckState = record { y = y; witness = none; state = unspent } in
    (contains_func-y y fresh rows, contains_func-Scanned y fresh rows, check_states-AllTold rows ys)

-- If the request succeeds, then its keys are answered one by one, from the rows of all of them that
-- the other requests had committed: a key with the state of the first row that has it; a key that
-- has no row with the state of the last of those rows, whatever its key, and with unspent if there
-- is no row at all.
pub check_proof_state-reported :
    (e : Environment) (keys : List PublicKey) (w w' : World) (states : List CheckState)
    → check_proof_state e keys w ≡ (ok states, w')
    → AllTold (get_proofs_from_secret_curve keys (e.others w.calls w.committed)) keys states
unfolding check_proof_state
check_proof_state-reported e keys w w' states h = Returns-elim _ _ h λ u w1 begun h.
    Returns-elim _ _ h λ rows w2 asked h. Returns-elim _ _ h λ _ w3 _ h.
      let (same, _) = pure-Returns h in
      let begun = get_tx-Returns e w w1 u begun in
      let (t, open_, rows_are, _) = query-Returns e _ w1 w2 rows asked in
      let here = get_proofs_from_secret_curve keys (e.others w.calls w.committed) in
      let rows_is : rows ≡ here = cc in
      subst (AllTold here keys) same (
        subst (λ rs. AllTold here keys (check_states rs keys)) (sym rows_is)
          (check_states-AllTold here keys))
