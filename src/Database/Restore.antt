-- ===== src/Database/Restore.antt =====
-- Signatures that are stored and read back: SaveRestoreSigs and GetRestoreSigsFromBlindedMessages
-- (internal/database/postgresql/main.go).
use mathlib.Core.Path.{subst}
use nutmix.Prelude.{
  List, [], ◌∷◌, ◌++◌, Bool, true, false, ◌≡◌, refl, str_eq, eq_iff, sym, any, keep, contains,
  arith, Bool-cases, inl, inr, if◌then◌else◌,
}
use nutmix.Cashu.Errors.{Result, ok, err, panic}
use nutmix.Cashu.Types.{RecoverSigDb, PublicKey}
use nutmix.Database.{
  Tables, insert_sigs, with_sigs, lacks_dleq, save_restore_sigs,
  get_restore_sigs_from_blinded_messages,
}

abbrev at : PublicKey → List RecoverSigDb → List RecoverSigDb
at y rows = keep (λ (r : RecoverSigDb). contains r.b_ (y ∷ [])) rows

abbrev taken : PublicKey → List RecoverSigDb → Bool
taken y rows = any (λ (r : RecoverSigDb). str_eq y r.b_) rows

str_eq_sym : (a b : PublicKey) → str_eq a b ≡ str_eq b a
str_eq_sym a b = elim (Bool-cases (str_eq a b)) [
  | inl same ↦
      let e : a ≡ b = (eq_iff a b).0 same in
      let f : str_eq b a ≡ true = (eq_iff b a).1 (sym e) in cc
  | inr other ↦ elim (Bool-cases (str_eq b a)) [
    | inl same ↦
        let e : b ≡ a = (eq_iff b a).0 same in
        let f : str_eq a b ≡ true = (eq_iff a b).1 (sym e) in cc
    | inr other' ↦ cc
  ]
]

at-free : (y : PublicKey) (rows : List RecoverSigDb) → taken y rows ≡ false → at y rows ≡ []
at-free y [] h = refl
at-free y (q ∷ qs) h = ground (arith, str_eq_sym y q.b_, at-free y qs)

-- Rows that are inserted later have another point.
at-insert_sigs :
    (y : PublicKey) (found : List RecoverSigDb) (rs rows rows' : List RecoverSigDb)
    → insert_sigs rs rows ≡ ok rows'
    → taken y rows ≡ true
    → at y rows ≡ found
    → at y rows' ≡ found
unfolding insert_sigs
at-insert_sigs y found [] rows rows' h k f = ground arith
at-insert_sigs y found (q ∷ qs) rows rows' h k f = elim (Bool-cases (str_eq q.b_ y)) [
  | inl same ↦
      let e : q.b_ ≡ y = (eq_iff q.b_ y).0 same in
      let k' : taken q.b_ rows ≡ true = rw e k in absurd (ground arith)
  | inr other ↦
      let flipped = str_eq_sym q.b_ y in
      at-insert_sigs y found qs (q ∷ rows) rows' (ground arith) (ground arith) (ground arith)
]

stored_at :
    (r : RecoverSigDb) (before after rows rows' : List RecoverSigDb)
    → insert_sigs (before ++ r ∷ after) rows ≡ ok rows'
    → at r.b_ rows' ≡ r ∷ []
unfolding insert_sigs
stored_at r [] after rows rows' h =
    let self : str_eq r.b_ r.b_ ≡ true = (eq_iff r.b_ r.b_).1 refl in
    elim (Bool-cases (taken r.b_ rows)) [
      | inl used ↦ absurd (ground arith)
      | inr free ↦
          at-insert_sigs r.b_ (r ∷ []) after (r ∷ rows) rows' (ground arith) (ground arith)
            (ground (arith, at-free r.b_ rows free))
    ]
stored_at r (b ∷ bs) after rows rows' h = stored_at r bs after (b ∷ rows) rows' (ground arith)

-- If storing some signatures succeeds, then asking for the point of any of them gives back that
-- signature and no other.
pub get_restore_sigs-save_restore_sigs :
    (r : RecoverSigDb) (before after : List RecoverSigDb) (t t' : Tables)
    → save_restore_sigs (before ++ r ∷ after) t ≡ ok t'
    → get_restore_sigs_from_blinded_messages (r.b_ ∷ []) t' ≡ r ∷ []
unfolding save_restore_sigs with_sigs get_restore_sigs_from_blinded_messages
get_restore_sigs-save_restore_sigs r before after t t' h =
    stored (any lacks_dleq (before ++ r ∷ after))
      (insert_sigs (before ++ r ∷ after) t.recovery_signature) refl h
  where
    stored :
        (b : Bool) (s : Result (List RecoverSigDb))
        → insert_sigs (before ++ r ∷ after) t.recovery_signature ≡ s
        → (if b then panic else with_sigs t s) ≡ ok t'
        → at r.b_ t'.recovery_signature ≡ r ∷ []
    stored false (ok rows) eq h =
        let same : rows ≡ t'.recovery_signature = cc in
        let held = stored_at r before after t.recovery_signature rows eq in
        subst (λ s. at r.b_ s ≡ r ∷ []) same held
    stored false (err x) eq h = cc
    stored false panic eq h = cc
    stored true s eq h = absurd (cc h)
