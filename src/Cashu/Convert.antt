-- ===== src/Cashu/Convert.antt =====
-- Units and their conversion (api/cashu/types.go): UnitFromString, CashuUnit.String, Amount.To.
use nutmix.Prelude.{ℕ, ◌≡◌, refl, String, [], ◌∷◌, Bool, str_eq, if◌then◌else◌, mul64, true, false}
use nutmix.Cashu.Errors.{Result, ok, err, could_not_parse_unit_string, could_not_convert_unit}
use nutmix.Cashu.Types.{CashuUnit, sat, msat, usd, eur, auth, unit_eq, Amount}
use nutmix.Cashu.Externals.{Externals}

-- CashuUnit.String
unfoldable pub unit_string : CashuUnit → String
unit_string sat = "sat"
unit_string msat = "msat"
unit_string usd = "usd"
unit_string eur = "eur"
unit_string auth = "auth"

-- The `switch` of UnitFromString.
unit_of_name : String → Result CashuUnit
unit_of_name s =
    if str_eq s "sat"
    then ok sat
    else if str_eq s "msat"
    then ok msat
    else if str_eq s "usd"
    then ok usd
    else if str_eq s "eur"
    then ok eur
    else if str_eq s "auth"
    then ok auth
    else err (could_not_parse_unit_string ∷ [])

-- The units of bitcoin.
abbrev pub is_coin : CashuUnit → Bool
is_coin sat = true
is_coin msat = true
is_coin _ = false

module _ (x : Externals) where
  unfoldable pub unit_from_string : String → Result CashuUnit
  unfolding unit_of_name
  unit_from_string s = unit_of_name (x.trim_spaces (x.to_lower s))

  -- Amount.To, with the new amount or the error. A pair that no case names is left as it is.
  unfoldable pub to : Amount → CashuUnit → Result Amount
  to a to_unit = if unit_eq a.unit to_unit then ok a else convert to_unit a.unit
    where
      convert : CashuUnit → CashuUnit → Result Amount
      convert msat sat = ok (record { unit = msat; amount = mul64 a.amount 1000 })
      convert msat from = ok a
      convert sat msat = ok (record { unit = sat; amount = x.floor_thousandth a.amount })
      convert sat from = ok a
      convert other from = err (could_not_convert_unit ∷ [])

  -- UnitFromString reads back what CashuUnit.String writes, if lower-casing and trimming leave the five
  -- lower-case names alone.
  pub unit_from_string-unit_string :
      (u : CashuUnit)
      → x.trim_spaces (x.to_lower (unit_string u)) ≡ unit_string u
      → unit_from_string (unit_string u) ≡ ok u
  unfolding unit_from_string unit_string
  unit_from_string-unit_string sat h = rw h
  unit_from_string-unit_string msat h = rw h
  unit_from_string-unit_string usd h = rw h
  unit_from_string-unit_string eur h = rw h
  unit_from_string-unit_string auth h = rw h

  -- `To` reports success for a pair of units that it cannot convert, from a fiat unit or auth to
  -- satoshis or millisatoshis, and leaves unit and amount as they were, where the opposite
  -- conversion is an error.
  pub to-unconverted :
      (n : ℕ) (coin fiat : CashuUnit)
      → is_coin coin ≡ true
      → is_coin fiat ≡ false
      → (to (record { unit = fiat; amount = n }) coin ≡ ok (record { unit = fiat; amount = n }))
        × (to (record { unit = coin; amount = n }) fiat ≡ err (could_not_convert_unit ∷ []))
  unfolding to
  to-unconverted n sat usd h k = (refl, refl)
  to-unconverted n sat eur h k = (refl, refl)
  to-unconverted n sat auth h k = (refl, refl)
  to-unconverted n msat usd h k = (refl, refl)
  to-unconverted n msat eur h k = (refl, refl)
  to-unconverted n msat auth h k = (refl, refl)
  to-unconverted n sat sat h k = cc
  to-unconverted n sat msat h k = cc
  to-unconverted n msat sat h k = cc
  to-unconverted n msat msat h k = cc
  to-unconverted n usd fiat h k = cc
  to-unconverted n eur fiat h k = cc
  to-unconverted n auth fiat h k = cc
