-- ===== src/Cashu/Amounts/Split.antt =====
-- AmountSplit: the parts are the binary digits of the amount.
use nutmix.Prelude.{
  ℕ, zero, suc, ◌+◌, ◌*◌, ◌/◌, ◌%◌, ◌^◌, ◌≤◌, ◌<◌, List, [], ◌∷◌, ◌≡◌, ◌≢◌, refl, ap, ◌==◌, arith,
  length, Bool-cases, inl, inr,
}
use native.Mathlib.Nat.{pow-suc, zero-add}
use native.Mathlib.Numerals.{add-one}
use nutmix.Cashu.Amounts.{split_from, amount_split}

abbrev pub sum : List ℕ → ℕ
sum [] = 0
sum (x ∷ xs) = x + sum xs

-- Powers of two with growing exponents, from 2 ^ `low` on and below 2 ^ `high`.
abbrev pub ArePowers : ℕ → ℕ → List ℕ → Type 0
ArePowers low high [] = Unit
ArePowers low high (x ∷ xs) =
    (k : ℕ) × (low ≤ k) × (k < high) × (x ≡ 2 ^ k) × ArePowers (k + 1) high xs

ArePowers-weaken :
    (low high high' : ℕ) (xs : List ℕ)
    → high ≡ high'
    → ArePowers (low + 1) high xs
    → ArePowers low high' xs
ArePowers-weaken low high high' [] e h = tt
ArePowers-weaken low high high' (x ∷ xs) e (k, p, q, r, t) = rw (← e) (k, omega arith, q, r, t)

pub pow_step : (pos : ℕ) → 2 ^ (pos + 1) ≡ 2 * 2 ^ pos
pow_step pos = rw add-one (omega (arith, pow-suc 2 pos))

even_or_odd : (a : ℕ) → a ≡ 2 * (a / 2) + a % 2
even_or_odd a = omega arith

odd_step : (p q a : ℕ) → q ≡ 2 * p → a % 2 ≡ 1 → p + q * (a / 2) ≡ p * a
odd_step p q a e o = omega (
  arith,
  ap (λ (t : ℕ). t * (a / 2)) e,
  ap (λ (t : ℕ). p * t) (even_or_odd a),
  ap (λ (t : ℕ). p * t) o,
)

even_step : (p q a : ℕ) → q ≡ 2 * p → a % 2 ≢ 1 → q * (a / 2) ≡ p * a
even_step p q a e o =
    let z : a % 2 ≡ 0 = omega arith in
    omega (
      arith,
      ap (λ (t : ℕ). t * (a / 2)) e,
      ap (λ (t : ℕ). p * t) (even_or_odd a),
      ap (λ (t : ℕ). p * t) z,
    )

sum-split_from : (fuel pos a : ℕ) → a ≤ fuel → sum (split_from fuel pos a) ≡ 2 ^ pos * a
unfolding split_from
sum-split_from zero pos a h =
    let z : a ≡ 0 = omega arith in omega (arith, ap (λ (t : ℕ). 2 ^ pos * t) z)
sum-split_from (suc fuel) pos zero h = omega arith
sum-split_from (suc fuel) pos (suc a) h = ground (
  arith,
  sum-split_from fuel (pos + 1) (suc a / 2) (omega arith),
  odd_step (2 ^ pos) (2 ^ (pos + 1)) (suc a) (pow_step pos),
  even_step (2 ^ pos) (2 ^ (pos + 1)) (suc a) (pow_step pos),
)

-- The parts of an amount add up to it.
pub sum-amount_split : (a : ℕ) → sum (amount_split a) ≡ a
unfolding amount_split
sum-amount_split a = omega (arith, sum-split_from a 0 a (omega arith))

-- The digits of `a`, put at place `low`, stay below place `low + n` if `a` is below 2 ^ n.
powers-split_from : (fuel low n a : ℕ) → a < 2 ^ n → ArePowers low (low + n) (split_from fuel low a)
unfolding split_from
powers-split_from zero low n a h = tt
powers-split_from (suc fuel) low zero a h = let z : a ≡ 0 = omega arith in rw z tt
powers-split_from (suc fuel) low (suc n) a h =
    let half : a / 2 < 2 ^ n = omega (arith, pow-suc 2 n) in
    let rest = powers-split_from fuel (low + 1) n (a / 2) half in
    let same : low + 1 + n ≡ low + suc n = omega arith in
    elim (Bool-cases (a == 0)) [
      | inl zero_left ↦ rw zero_left tt
      | inr some_left ↦ rw some_left (elim (Bool-cases (a % 2 == 1)) [
        | inl odd ↦ rw (odd, ← same) (low, omega arith, omega arith, refl, rest)
        | inr even ↦ rw even (ArePowers-weaken low _ _ _ same rest)
      ])
    ]

-- The parts of an amount below 2 ^ n are distinct powers of two in growing order, all below 2 ^ n.
pub amount_split-ArePowers : (n a : ℕ) → a < 2 ^ n → ArePowers 0 n (amount_split a)
unfolding amount_split
amount_split-ArePowers n a h = rw (zero-add n) at (powers-split_from a 0 n a h)

length-ArePowers :
    (low high : ℕ) (xs : List ℕ) → low ≤ high → ArePowers low high xs → low + length xs ≤ high
length-ArePowers low high [] h t = omega arith
length-ArePowers low high (x ∷ xs) h (k, p, q, r, t) =
    omega (arith, length-ArePowers (k + 1) high xs (omega arith) t)

-- An amount of n bits has at most n parts.
pub length-amount_split : (n a : ℕ) → a < 2 ^ n → length (amount_split a) ≤ n
length-amount_split n a h =
    omega
      (arith, length-ArePowers 0 n (amount_split a) (omega arith) (amount_split-ArePowers n a h))
