-- ===== src/Cashu/SpendCondition/SigAll/Repetition.antt =====
-- What the comparison of the inputs on the SIG_ALL path checks, and where it stops.
use nutmix.Prelude.{List, [], ◌∷◌, ◌++◌, ◌≡◌, refl, true, str_eq, eq_iff, All, arith, ◌⊎◌}
use nutmix.Cashu.Errors.{ok, err, Error}
use nutmix.Cashu.Types.{Proof}
use nutmix.Cashu.Externals.{Externals}
use nutmix.Cashu.SpendCondition.{SpendCondition, parse_spend_condition}
use nutmix.Cashu.SpendCondition.SigAll.{
  same_condition, verify_swap_repetition, verify_melt_repetition,
}

module _ (x : Externals) where
  -- The input carries a condition with the data and the tags of `first`.
  abbrev pub Matches : SpendCondition → Proof → Type 0
  Matches first p =
      (sc : SpendCondition) × (parse_spend_condition x p ≡ ok sc)
      × (sc.payload ≡ first.payload)
      × (sc.tags.original_tag ≡ first.tags.original_tag)

  same_condition-skip :
      (first : SpendCondition) (ps qs : List Proof) (plain : Proof) (e : Error)
      → All (Matches first) ps
      → parse_spend_condition x plain ≡ err e
      → same_condition x first (ps ++ plain ∷ qs) ≡ ok tt
  unfolding same_condition
  same_condition-skip first [] qs plain e h f = rw (f, same_condition) refl
  same_condition-skip first (p ∷ ps) qs plain e ((sc, parsed, payload, tag), h) f = ground (
    arith,
    parsed,
    eq_iff sc.payload first.payload,
    eq_iff sc.tags.original_tag first.tags.original_tag,
    same_condition-skip first ps qs plain e h f,
  )

  -- If every input carries a condition, the loop accepts exactly the inputs that share the data and
  -- the tags of the first.
  same_condition-Matches :
      (first : SpendCondition) (ps : List Proof)
      → same_condition x first ps ≡ ok tt
      → All (λ (p : Proof). (sc : SpendCondition) × (parse_spend_condition x p ≡ ok sc)) ps
      → All (Matches first) ps
  unfolding same_condition
  same_condition-Matches first [] e h = tt
  same_condition-Matches first (p ∷ ps) e ((sc, parsed), h) =
      let tail : same_condition x first ps ≡ ok tt = ground (arith, parsed) in
      let data' : str_eq sc.payload first.payload ≡ true = ground (arith, parsed) in
      let tags' : str_eq sc.tags.original_tag first.tags.original_tag ≡ true =
        ground (arith, parsed) in
      (
        (sc, parsed, (eq_iff _ _).0 data', (eq_iff _ _).0 tags'),
        same_condition-Matches first ps tail h,
      )

  -- The check of a swap's SIG_ALL inputs stops at the first input that carries no condition: once
  -- the inputs in front of it agree with the first input, it succeeds whatever stands behind,
  -- conditions of other owners included.
  pub verify_swap_repetition-skip :
      (p plain : Proof) (first : SpendCondition) (ps qs : List Proof) (e : Error)
      → parse_spend_condition x p ≡ ok first
      → All (Matches first) ps
      → parse_spend_condition x plain ≡ err e
      → verify_swap_repetition x (p ∷ ps ++ plain ∷ qs) ≡ ok tt
  unfolding verify_swap_repetition same_condition
  verify_swap_repetition-skip p plain first ps qs e parsed h f = ground (
    arith,
    eq_iff first.payload first.payload,
    eq_iff first.tags.original_tag first.tags.original_tag,
    same_condition-skip first ps qs plain e h f,
  )

  -- Where every input carries a condition, both requests' checks succeed only if all inputs share
  -- the data and the tags of the first.
  pub verify_swap_repetition-Matches :
      (p : Proof) (first : SpendCondition) (ps : List Proof)
      → parse_spend_condition x p ≡ ok first
      → All (λ (q : Proof). (sc : SpendCondition) × (parse_spend_condition x q ≡ ok sc)) ps
      → (verify_swap_repetition x (p ∷ ps) ≡ ok tt) ⊎ (verify_melt_repetition x (p ∷ ps) ≡ ok tt)
      → All (Matches first) ps
  unfolding verify_swap_repetition verify_melt_repetition same_condition
  verify_swap_repetition-Matches p first ps parsed h e =
      same_condition-Matches first ps
        (ground (
          arith,
          eq_iff first.payload first.payload,
          eq_iff first.tags.original_tag first.tags.original_tag,
        ))
        h
