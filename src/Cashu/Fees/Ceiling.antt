-- ===== src/Cashu/Fees/Ceiling.antt =====
-- The fee is the sum of the proofs' rates, each that of the last keyset with the proof's id, in
-- thousandths and rounded up; an unknown id is the only error.
use mathlib.Core.Path.{subst}
use nutmix.Prelude.{
  ℕ, ◌+◌, ◌/◌, ◌<◌, String, List, [], ◌∷◌, ◌≡◌, ◌≢◌, refl, sym, ◌∙◌, ap, Option, none, some, str_eq,
  eq_iff, if◌then◌else◌, add64, u64, arith, All, Bool-cases, inl, inr, ◌⊎◌,
}
use nutmix.Cashu.Errors.{Result, ok, err, keyset_not_know}
use nutmix.Cashu.Types.{Proof, BasicKeysetResponse}
use nutmix.Cashu.Fees.{find_keyset, next_keyset, fees_loop, fees, zero_keyset}

-- The rate of the last keyset with an id.
abbrev pub rate : List BasicKeysetResponse → String → Option ℕ
rate [] id = none
rate (k ∷ ks) id = elim (rate ks id) [
  | some r ↦ some r
  | none ↦ if str_eq k.id id then some k.input_fee_ppk else none
]

abbrev pub add_rate : Option ℕ → Option ℕ → Option ℕ
add_rate none o = none
add_rate (some r) none = none
add_rate (some r) (some s) = some (r + s)

-- The sum of the rates in thousandths, if every id is known.
abbrev pub rates : List BasicKeysetResponse → List Proof → Option ℕ
rates keysets [] = some 0
rates keysets (p ∷ ps) = add_rate (rate keysets p.id) (rates keysets ps)

-- What `find_keyset` yields, by whether the id is known.
find_keyset_lem :
    (id : String) (current : BasicKeysetResponse) (ks : List BasicKeysetResponse)
    → ((rate ks id ≡ none) × (find_keyset id current ks ≡ current))
      ⊎ ((rate ks id ≡ some (find_keyset id current ks).input_fee_ppk)
          × ((find_keyset id current ks).id ≡ id))
unfolding find_keyset
find_keyset_lem id current [] = inl (refl, refl)
find_keyset_lem id current (k ∷ ks) = elim (Bool-cases (str_eq k.id id)) [
  | inl hit ↦ rw hit (ground (arith, find_keyset_lem id k ks, eq_iff k.id id))
  | inr miss ↦ rw miss (ground (arith, find_keyset_lem id current ks))
]

-- The carried keyset is the zero keyset, or its rate is that of its id.
abbrev Fits : List BasicKeysetResponse → BasicKeysetResponse → Type 0
Fits ks k = (k.id ≡ "") ⊎ (rate ks k.id ≡ some k.input_fee_ppk)

module _ (ks : List BasicKeysetResponse) (current : BasicKeysetResponse) where
  next_keyset_lem :
      (p : Proof)
      → p.id ≢ ""
      → Fits ks current
      → ((rate ks p.id ≡ none) × (next_keyset ks current p ≡ err (keyset_not_know ∷ [])))
        ⊎ ((k : BasicKeysetResponse) × (next_keyset ks current p ≡ ok k)
            × (rate ks p.id ≡ some k.input_fee_ppk)
            × (k.id ≡ p.id))
  unfolding next_keyset
  next_keyset_lem p nonempty fits = elim (Bool-cases (str_eq current.id p.id)) [
    | inl same ↦ rw same (inr (current, refl, kept ((eq_iff _ _).0 same) fits, (eq_iff _ _).0 same))
    | inr new ↦ rw new (elim (find_keyset_lem p.id current ks) [
      | inl (unknown, f) ↦ inl (unknown, rw (f, new))
      | inr (known, f) ↦ rw ((eq_iff _ _).1 f) (inr (find_keyset p.id current ks, refl, known, f))
    ])
  ]
    where
      kept : current.id ≡ p.id → Fits ks current → rate ks p.id ≡ some current.input_fee_ppk
      kept e (inl z) = absurd (nonempty (sym e ∙ z))
      kept e (inr r) = subst (λ i. rate ks i ≡ some current.input_fee_ppk) e r

-- No proof has an empty keyset id.
abbrev pub HaveIds : List Proof → Type 0
HaveIds = All (λ (p : Proof). p.id ≢ "")

-- What the loop does, by whether every id is known.
abbrev Outcome : Result ℕ → ℕ → Option ℕ → Type 0
Outcome r total none = r ≡ err (keyset_not_know ∷ [])
Outcome r total (some s) = total + s < u64 → r ≡ ok (total + s)

fees_loop-Outcome :
    (ks : List BasicKeysetResponse) (current : BasicKeysetResponse) (total : ℕ) (ps : List Proof)
    → HaveIds ps
    → Fits ks current
    → Outcome (fees_loop ks current total ps) total (rates ks ps)
unfolding fees_loop
fees_loop-Outcome ks current total [] ids fits = λ small. ap ok (omega arith)
fees_loop-Outcome ks current total (p ∷ ps) ids fits =
    elim (next_keyset_lem ks current p ids.0 fits) [
      | inl (unknown, step) ↦ rw (unknown, step) refl
      | inr (k, step, known, same) ↦
          rw (known, step)
            (carry k (rates ks ps) (
              fees_loop-Outcome ks k (add64 total k.input_fee_ppk) ps ids.1
                (inr (subst (λ i. rate ks i ≡ some k.input_fee_ppk) (sym same) known))))
    ]
  where
    carry :
        (k : BasicKeysetResponse) (o : Option ℕ)
        → Outcome (fees_loop ks k (add64 total k.input_fee_ppk) ps) (add64 total k.input_fee_ppk) o
        → Outcome
            (fees_loop ks k (add64 total k.input_fee_ppk) ps)
            total
            (add_rate (some k.input_fee_ppk) o)
    carry k none h = h
    carry k (some s) h = λ small. h (omega arith) ∙ ap ok (omega arith)

abbrev pub or_zero : Option ℕ → ℕ
or_zero none = 0
or_zero (some s) = s

-- The fee of a sum of rates in thousandths.
abbrev pub rounded_up : Option ℕ → Result ℕ
rounded_up none = err (keyset_not_know ∷ [])
rounded_up (some s) = ok ((s + 999) / 1000)

-- For proofs whose keyset ids are not empty and whose rates do not overflow a word: `Fees` returns
-- the sum of the rates over 1000, rounded up, if every id is known, and ErrKeysetNotKnow if not.
pub fees-eq-rounded_up :
    (proofs : List Proof) (keysets : List BasicKeysetResponse)
    → HaveIds proofs
    → or_zero (rates keysets proofs) + 999 < u64
    → fees proofs keysets ≡ rounded_up (rates keysets proofs)
unfolding fees
fees-eq-rounded_up proofs keysets ids small =
    rounded (rates keysets proofs) small
      (fees_loop-Outcome keysets zero_keyset 0 proofs ids (inl refl))
  where
    rounded :
        (o : Option ℕ)
        → or_zero o + 999 < u64
        → Outcome (fees_loop keysets zero_keyset 0 proofs) 0 o
        → fees proofs keysets ≡ rounded_up o
    rounded none h e = rw e
    rounded (some s) h e = rw (e (omega arith)) (ground arith)
