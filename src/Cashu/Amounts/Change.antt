-- ===== src/Cashu/Amounts/Change.antt =====
-- GetMessagesForChange: what change a payer gets.
use nutmix.Prelude.{ℕ, zero, suc, ◌+◌, ◌≤◌, List, [], ◌∷◌, ◌≡◌, refl, arith, length}
use nutmix.Cashu.Types.{BlindedMessage}
use nutmix.Cashu.Amounts.{amount_split, get_messages_for_change, assign_amounts, first_outputs}
use nutmix.Cashu.Amounts.Split.{sum, sum-amount_split}

-- The change as an exact sum, with no wrap-around.
abbrev pub total : List BlindedMessage → ℕ
total [] = 0
total (m ∷ ms) = m.amount + total ms

total-assign_amounts-le :
    (os : List BlindedMessage) (as' : List ℕ)
    → length os ≤ length as'
    → total (assign_amounts os as') ≤ sum as'
unfolding assign_amounts
total-assign_amounts-le [] as' h = omega arith
total-assign_amounts-le (o ∷ os) [] h = absurd (omega arith)
total-assign_amounts-le (o ∷ os) (a ∷ as') h =
    omega (arith, total-assign_amounts-le os as' (omega arith))

total-assign_amounts :
    (os : List BlindedMessage) (as' : List ℕ)
    → length as' ≡ length os
    → total (assign_amounts os as') ≡ sum as'
unfolding assign_amounts
total-assign_amounts [] [] h = refl
total-assign_amounts [] (a ∷ as') h = absurd (omega arith)
total-assign_amounts (o ∷ os) [] h = absurd (omega arith)
total-assign_amounts (o ∷ os) (a ∷ as') h = omega (arith, total-assign_amounts os as' (omega arith))

length-first_outputs :
    (n : ℕ) (os : List BlindedMessage) → n ≤ length os → length (first_outputs n os) ≡ n
unfolding first_outputs
length-first_outputs zero os h = refl
length-first_outputs (suc n) [] h = absurd (omega arith)
length-first_outputs (suc n) (o ∷ os) h = ground (arith, length-first_outputs n os)

module _ (fees : ℕ) (outputs : List BlindedMessage) where
  -- With an output for each part of the overpaid fees the change is exactly those fees.
  pub total-get_messages_for_change :
      length (amount_split fees) ≤ length outputs
      → total (get_messages_for_change fees outputs) ≡ fees
  unfolding get_messages_for_change
  total-get_messages_for_change h = ground (
    arith,
    sum-amount_split fees,
    total-assign_amounts (first_outputs (length (amount_split fees)) outputs) (amount_split fees),
    length-first_outputs (length (amount_split fees)) outputs,
  )

  -- With fewer outputs the change is never more than the overpaid fees.
  pub total-get_messages_for_change-le : total (get_messages_for_change fees outputs) ≤ fees
  unfolding get_messages_for_change
  total-get_messages_for_change-le = ground (
    arith,
    sum-amount_split fees,
    total-assign_amounts-le outputs (amount_split fees),
    total-assign_amounts (first_outputs (length (amount_split fees)) outputs) (amount_split fees),
    length-first_outputs (length (amount_split fees)) outputs,
  )
