-- ===== src/Mint/Units/SameUnit.antt =====
-- Proofs that are accepted together have one unit: checkProofsAreSameUnit (internal/mint/mint.go).
use nutmix.Prelude.{
  String, List, [], ◌∷◌, some, ◌≡◌, str_eq, eq_iff, All, arith, Bool-cases, inl, inr, Option-cases,
}
use nutmix.Cashu.Errors.{ok, Error, >>=-elim, not_same_units}
use nutmix.Cashu.Types.{CashuUnit, Proof, BasicKeysetResponse}
use nutmix.Cashu.Externals.{Externals}
use nutmix.Cashu.Convert.{unit_from_string}
use nutmix.Mint.Units.{seen_unit, gather_units, unit_of_set, proof_ids, check_proofs_are_same_unit}

-- Every id is that of a keyset with the unit.
abbrev pub HaveUnit : List BasicKeysetResponse → String → List String → Type 0
HaveUnit keys s ids = All (λ id. seen_unit keys id ≡ some s) ids

module _ (keys : List BasicKeysetResponse) (mixed : Error) where
  gather_units-one :
      (s : String) (ids : List String) (units : List String)
      → gather_units keys mixed (s ∷ []) ids ≡ ok units
      → (units ≡ s ∷ []) × HaveUnit keys s ids
  unfolding gather_units
  gather_units-one s [] units h = (cc, tt)
  gather_units-one s (id ∷ ids) units h = elim (Option-cases (seen_unit keys id)) [
    | inl unknown ↦ absurd (ground arith)
    | inr (u, known) ↦ elim (Bool-cases (str_eq u s)) [
      | inl same ↦
          let e : u ≡ s = (eq_iff u s).0 same in
          let rest = gather_units-one s ids units (ground arith) in (rest.0, (cc, rest.1))
      | inr other ↦ absurd (ground arith)
    ]
  ]

  gather_units-first :
      (id : String) (ids : List String) (units : List String)
      → gather_units keys mixed [] (id ∷ ids) ≡ ok units
      → (s : String) × (units ≡ s ∷ []) × HaveUnit keys s (id ∷ ids)
  unfolding gather_units
  gather_units-first id ids units h = elim (Option-cases (seen_unit keys id)) [
    | inl unknown ↦ absurd (ground arith)
    | inr (s, known) ↦
        let rest = gather_units-one s ids units (ground arith) in (s, rest.0, (known, rest.1))
  ]

-- If the check accepts some proofs with the unit `u`, then the keysets that their ids name last all
-- have one unit text, which is that of `u`.
pub check_proofs_are_same_unit-HaveUnit :
    (x : Externals) (proofs : List Proof) (keys : List BasicKeysetResponse) (u : CashuUnit)
    → check_proofs_are_same_unit x proofs keys ≡ ok u
    → (s : String) × (unit_from_string x s ≡ ok u) × HaveUnit keys s (proof_ids proofs)
unfolding check_proofs_are_same_unit unit_of_set gather_units
check_proofs_are_same_unit-HaveUnit x [] keys u h = cc
check_proofs_are_same_unit-HaveUnit x (p ∷ ps) keys u h =
    >>=-elim (gather_units keys (not_same_units ∷ []) [] (p.id ∷ proof_ids ps)) _ h
      λ units gathered h.
        let (s, one, all) =
          gather_units-first keys (not_same_units ∷ []) p.id (proof_ids ps) units gathered in
        (s, cc, all)
