-- ===== src/Checks/Amounts.antt =====
-- Examples for amounts, fees, units and change.
use nutmix.Prelude.{
  String, List, [], ◌∷◌, ◌≡◌, ◌≢◌, str_eq, eq_iff, true, ◌≤◌, ◌<◌, ◌+◌, refl, arith, length, u64,
}
use nutmix.Cashu.Errors.{ok}
use nutmix.Cashu.Types.{BlindedMessage, sat, proofs_amount}
use nutmix.Cashu.Amounts.Fuel.{split_from-enough}
use nutmix.Cashu.Amounts.{split_from, amount_split, get_messages_for_change}
use nutmix.Cashu.Amounts.Split.{sum, sum-amount_split, ArePowers, amount_split-ArePowers}
use nutmix.Cashu.Amounts.Change.{total, total-get_messages_for_change}
use nutmix.Cashu.Convert.{unit_from_string}
use nutmix.Cashu.Fees.{fees}
use nutmix.Cashu.Fees.Ceiling.{fees-eq-rounded_up, rounded_up, rates}
use nutmix.Mint.Units.{check_proofs_are_same_unit}
use nutmix.Mint.Units.SameUnit.{check_proofs_are_same_unit-HaveUnit, HaveUnit}
use nutmix.Mint.Melt.Settle.{overpaid_fees}
use nutmix.Mint.Melt.Settle.Overpaid.{overpaid_fees-wraps}
use nutmix.Checks.Fixtures.{plain, keyset, proof, output, melt_quote}

amount_split-13 : amount_split 13 ≡ 1 ∷ 4 ∷ 8 ∷ []
unfolding amount_split
amount_split-13 = refl

sum-amount_split_example : sum (amount_split 13) ≡ 13
sum-amount_split_example = sum-amount_split 13

amount_split-ArePowers_example : ArePowers 0 4 (amount_split 13)
amount_split-ArePowers_example = amount_split-ArePowers 4 13 (omega arith)

abbrev three_outputs : List BlindedMessage
three_outputs = output ∷ output ∷ output ∷ []

three_parts : length (amount_split 13) ≤ length three_outputs
unfolding amount_split
three_parts = omega arith

total-get_messages_for_change_example : total (get_messages_for_change 13 three_outputs) ≡ 13
total-get_messages_for_change_example = total-get_messages_for_change 13 three_outputs three_parts

named : (proof "a").id ≢ ""
named e = let h : str_eq "ks" "" ≡ true = (eq_iff "ks" "").1 e in cc

fees-eq-rounded_up_example :
    fees (proof "a" ∷ proof "b" ∷ []) (keyset ∷ [])
    ≡ rounded_up (rates (keyset ∷ []) (proof "a" ∷ proof "b" ∷ []))
fees-eq-rounded_up_example =
    fees-eq-rounded_up (proof "a" ∷ proof "b" ∷ []) (keyset ∷ []) (named, (named, tt)) (omega arith)

check_proofs-ok : check_proofs_are_same_unit plain (proof "a" ∷ []) (keyset ∷ []) ≡ ok sat
unfolding check_proofs_are_same_unit unit_from_string
check_proofs-ok = refl

check_proofs_are_same_unit-HaveUnit_example :
    (s : String) × (unit_from_string plain s ≡ ok sat) × HaveUnit (keyset ∷ []) s ("ks" ∷ [])
check_proofs_are_same_unit-HaveUnit_example =
    check_proofs_are_same_unit-HaveUnit plain (proof "a" ∷ []) (keyset ∷ []) sat check_proofs-ok

-- The quote has cost 5 and the fee is 4: the proof of 8 does not cover it.
overpaid_fees-wraps_example :
    (9 ≤ proofs_amount (proof "a" ∷ [])
      → overpaid_fees melt_quote (proof "a" ∷ []) 4 + 9 ≡ proofs_amount (proof "a" ∷ []))
    × (proofs_amount (proof "a" ∷ []) < 9
        → overpaid_fees melt_quote (proof "a" ∷ []) 4 + 9 ≡ proofs_amount (proof "a" ∷ []) + u64)
overpaid_fees-wraps_example = overpaid_fees-wraps melt_quote (proof "a" ∷ []) 4 (omega arith)

overpaid_fees-18446744073709551615 :
    overpaid_fees melt_quote (proof "a" ∷ []) 4 ≡ 18446744073709551615
unfolding overpaid_fees proofs_amount
overpaid_fees-18446744073709551615 = refl

split_from-enough_example : split_from 70 0 13 ≡ amount_split 13
split_from-enough_example = split_from-enough 4 70 13 (omega arith) (omega arith)
