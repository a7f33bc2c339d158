-- ===== src/Prelude/Maps.antt =====
-- Go maps as lists of entries, each key at most once.
use mathlib.Core.Path.{◌≡◌}
use mathlib.Core.Logic.{◌↔◌, ◌⊎◌, inl, inr}
use mathlib.Core.Bool.{Bool, true}
use mathlib.Core.Option.{Option, none, some}
use mathlib.Core.List.{List, [], ◌∷◌}
use nutmix.Prelude.Tests.{if◌then◌else◌, Bool-cases}

module _ {ℓ κ} {K : Type ℓ} {V : Type κ} (eq : K → K → Bool) where
  -- `m[k]` with its second result.
  abbrev pub lookup : K → List (K × V) → Option V
  lookup k [] = none
  lookup k ((j, v) ∷ m) = if eq j k then some v else lookup k m

  -- `m[k] = v`
  abbrev pub put : K → V → List (K × V) → List (K × V)
  put k v [] = (k, v) ∷ []
  put k v ((j, u) ∷ m) = if eq j k then (j, v) ∷ m else (j, u) ∷ put k v m

  -- A key is found after it is put, or was there before.
  pub lookup-put :
      (k j : K) (u v : V) (m : List (K × V))
      → ((a b : K) → (eq a b ≡ true) ↔ (a ≡ b))
      → lookup k (put j v m) ≡ some u
      → ((j ≡ k) × (u ≡ v)) ⊎ (lookup k m ≡ some u)
  lookup-put k j u v [] lawful h = elim (Bool-cases (eq j k)) [
    | inl hit ↦ inl ((lawful j k).0 hit, cc)
    | inr miss ↦ absurd (cc)
  ]
  lookup-put k j u v ((i, w) ∷ m) lawful h = elim (Bool-cases (eq i j)) [
    | inl same ↦ elim (Bool-cases (eq i k)) [
      | inl hit ↦ let at_j = (lawful i j).0 same in let at_k = (lawful i k).0 hit in inl (cc, cc)
      | inr miss ↦ inr (cc)
    ]
    | inr differ ↦ elim (Bool-cases (eq i k)) [
      | inl hit ↦ inr (cc)
      | inr miss ↦ elim (lookup-put k j u v m lawful (cc)) [
        | inl new ↦ inl new
        | inr old ↦ inr (cc)
      ]
    ]
  ]
