-- ===== src/Cashu/Amounts.antt =====
-- Amounts: AmountSplit (api/cashu/keys.go) and GetMessagesForChange (internal/utils/proofs.go).
pub mod Split
pub mod Change
pub mod Fuel
use nutmix.Prelude.{
  ℕ, zero, suc, ◌+◌, ◌/◌, ◌%◌, ◌^◌, List, [], ◌∷◌, ◌==◌, if◌then◌else◌, ltb, length,
}
use nutmix.Cashu.Types.{BlindedMessage}

-- The loop `for pos := 0; amount > 0; pos++`. Each round halves the amount, so as many rounds as
-- the amount itself are more than enough.
pub split_from : ℕ → ℕ → ℕ → List ℕ
split_from zero pos amount = []
split_from (suc fuel) pos amount =
    let rest = split_from fuel (pos + 1) (amount / 2) in
    if amount == 0 then [] else if amount % 2 == 1 then 2 ^ pos ∷ rest else rest

unfoldable pub amount_split : ℕ → List ℕ
unfolding split_from
amount_split amount = split_from amount 0 amount

-- GetAmountsForKeysets: `math.Pow(2, float64(i))` is exact for the orders in use, 32 and 64.
keyset_amounts_from : ℕ → ℕ → List ℕ
keyset_amounts_from zero i = []
keyset_amounts_from (suc left) i = 2 ^ i ∷ keyset_amounts_from left (i + 1)

unfoldable pub get_amounts_for_keysets : ℕ → List ℕ
unfolding keyset_amounts_from
get_amounts_for_keysets max_order = keyset_amounts_from max_order 0

-- `for i := range outputs { outputs[i].Amount = amounts[i] }`
assign_amounts : List BlindedMessage → List ℕ → List BlindedMessage
assign_amounts [] amounts = []
assign_amounts (o ∷ os) [] = o ∷ os
assign_amounts (o ∷ os) (a ∷ as') = record o { amount = a } ∷ assign_amounts os as'

-- `outputs[:n]`
first_outputs : ℕ → List BlindedMessage → List BlindedMessage
first_outputs zero os = []
first_outputs (suc n) [] = []
first_outputs (suc n) (o ∷ os) = o ∷ first_outputs n os

unfoldable pub get_messages_for_change : ℕ → List BlindedMessage → List BlindedMessage
unfolding assign_amounts first_outputs
get_messages_for_change overpaid_fees outputs =
    let amounts = amount_split overpaid_fees in
    if ltb (length outputs) (length amounts)
    then assign_amounts outputs amounts
    else assign_amounts (first_outputs (length amounts) outputs) amounts
