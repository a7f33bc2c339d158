-- ===== src/Cashu/Amounts/Fuel.antt =====
-- AmountSplit ends after as many rounds as the amount has bits.
use nutmix.Prelude.{ℕ, zero, suc, ◌+◌, ◌/◌, ◌^◌, ◌≤◌, ◌<◌, ◌≡◌, refl, arith}
use native.Mathlib.Nat.{pow-suc, pow-le-pow_right}
use nutmix.Cashu.Amounts.{split_from, amount_split}

lt_pow : (a : ℕ) → a < 2 ^ a
lt_pow zero = omega arith
lt_pow (suc a) = omega (arith, lt_pow a, pow-suc 2 a)

same_rounds : (f g pos a : ℕ) → a < 2 ^ f → a < 2 ^ g → split_from f pos a ≡ split_from g pos a
unfolding split_from
same_rounds zero zero pos a hf hg = refl
same_rounds zero (suc g) pos a hf hg = let z : a ≡ 0 = omega arith in rw z refl
same_rounds (suc f) zero pos a hf hg = let z : a ≡ 0 = omega arith in rw z refl
same_rounds (suc f) (suc g) pos a hf hg =
    let rest =
      same_rounds f g (pos + 1) (a / 2) (omega (arith, pow-suc 2 f)) (omega (arith, pow-suc 2 g)) in
    rw rest refl

-- The loop of AmountSplit has ended after n rounds if the amount is below 2 ^ n: with any number of
-- rounds from n on its parts are those of AmountSplit.
pub split_from-enough : (n fuel a : ℕ) → a < 2 ^ n → n ≤ fuel → split_from fuel 0 a ≡ amount_split a
unfolding amount_split
split_from-enough n fuel a h le =
    let enough = pow-le-pow_right {n = 2} (omega arith) le in
    same_rounds fuel a 0 a (omega (arith, enough)) (lt_pow a)
