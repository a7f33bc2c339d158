-- ===== src/Cashu/SpendCondition/Signatures.antt =====
-- The loop that counts valid signatures: proofs.go and checkSigAllValidSignature of
-- spend_condition.go. A Go map that stands for a set of keys is the list of its keys, in the order
-- in which `range` visits them.
use mathlib.Core.List.{Perm, Permᴰ}
use mathlib.Core.Logic.{∥∥₁_elim}
use native.Mathlib.Nat.{ℕ_set}
use nutmix.Prelude.{
  ℕ, ◌+◌, String, List, [], ◌∷◌, Bool, false, not, ◌||◌, ◌≡◌, refl, ap, ◌∙◌, some, if◌then◌else◌,
  arith, any, keep, count_if, All, Bool-cases, inl, inr,
}
use nutmix.Cashu.Errors.{Result, ok, ◌>>=◌}
use nutmix.Cashu.Types.{PublicKey, Signature}
use nutmix.Cashu.Externals.{Externals}
use nutmix.Cashu.SpendCondition.{or_error}

module _ (x : Externals) (hash : String) where
  -- One signature against the keys that are left: each key that it fits is counted and deleted.
  -- There is no `break`, so the rest of the keys is tried too.
  try_keys : Signature → List PublicKey → Result (ℕ × List PublicKey)
  try_keys sig [] = ok (0, [])
  try_keys sig (k ∷ ks) = or_error (x.parse_pub_key k) [] >>= λ key. try_keys sig ks >>= λ r.
      if x.verify sig hash key then ok (r.0 + 1, r.1) else ok (r.0, k ∷ r.1)

  unfoldable pub count_signatures : List Signature → List PublicKey → Result ℕ
  unfolding try_keys
  count_signatures [] keys = ok 0
  count_signatures (sig ∷ sigs) keys =
      try_keys sig keys >>= λ r. count_signatures sigs r.1 >>= λ n. ok (r.0 + n)

  -- Every key is one that ParsePubKey reads back from its compressed serialisation.
  abbrev pub AreParsable : List PublicKey → Type 0
  AreParsable = All (λ k. x.parse_pub_key k ≡ some k)

  -- Some of the signatures is one of the hash by the key.
  abbrev pub is_signed : List Signature → PublicKey → Bool
  is_signed sigs k = any (λ sig. x.verify sig hash k) sigs

  try_keys_lem :
      (sig : Signature) (ks : List PublicKey)
      → AreParsable ks
      → try_keys sig ks
        ≡ ok (count_if (x.verify sig hash) ks, keep (λ k. not (x.verify sig hash k)) ks)
  unfolding try_keys
  try_keys_lem sig [] h = refl
  try_keys_lem sig (k ∷ ks) h =
      rw (h.0, try_keys_lem sig ks h.1)
        (elim (Bool-cases (x.verify sig hash k)) [
          | inl hit ↦ rw hit (ground arith)
          | inr miss ↦ rw miss (ground arith)
        ])

  keep-AreParsable :
      (p : PublicKey → Bool) (ks : List PublicKey) → AreParsable ks → AreParsable (keep p ks)
  keep-AreParsable p [] h = tt
  keep-AreParsable p (k ∷ ks) h = elim (Bool-cases (p k)) [
    | inl hit ↦ rw hit (h.0, keep-AreParsable p ks h.1)
    | inr miss ↦ rw miss (keep-AreParsable p ks h.1)
  ]

-- Keys that pass one of two tests: those that pass the first, and of the others those that pass
-- the second.
count_if-or {ℓ} :
    {A : Type ℓ} (p q : A → Bool) (ks : List A)
    → count_if (λ k. p k || q k) ks ≡ count_if p ks + count_if q (keep (λ k. not (p k)) ks)
count_if-or p q [] = omega arith
count_if-or p q (k ∷ ks) = ground (arith, count_if-or p q ks)

count_if-none {ℓ} : {A : Type ℓ} (ks : List A) → count_if (λ k. false) ks ≡ 0
count_if-none [] = refl
count_if-none (k ∷ ks) = omega (arith, count_if-none ks)

module _ (x : Externals) (hash : String) where
  abbrev unsigned_by : Signature → PublicKey → Bool
  unsigned_by sig k = not (x.verify sig hash k)

  -- The loop counts the keys for which there is a valid signature: a key counts once, however many
  -- signatures fit it, and every key is tried, in whatever order the map yields them.
  pub count_signatures-eq-count_if :
      (sigs : List Signature) (keys : List PublicKey)
      → AreParsable x hash keys
      → count_signatures x hash sigs keys ≡ ok (count_if (is_signed x hash sigs) keys)
  unfolding count_signatures
  count_signatures-eq-count_if [] keys h = rw (count_if-none keys)
  count_signatures-eq-count_if (sig ∷ sigs) keys h = rw (
    try_keys_lem x hash sig keys h,
    count_signatures-eq-count_if sigs (keep (unsigned_by sig) keys)
        (keep-AreParsable x hash (unsigned_by sig) keys h),
    count_if-or (x.verify sig hash) (is_signed x hash sigs) keys,
  )

count_if-permᴰ {ℓ} :
    {A : Type ℓ} (p : A → Bool) {xs ys : List A} → Permᴰ xs ys → count_if p xs ≡ count_if p ys
count_if-permᴰ p Permᴰ.nil = refl
count_if-permᴰ p (Permᴰ.cons e h) = rw e (rw (count_if-permᴰ p h) refl)
count_if-permᴰ p (Permᴰ.swap e f) = rw (e, f) (omega arith)
count_if-permᴰ p (Permᴰ.trans h k) = count_if-permᴰ p h ∙ count_if-permᴰ p k

module _ (x : Externals) (hash : String) where
  -- Two orders in which the map may yield its keys give the same count.
  pub count_signatures-perm :
      (sigs : List Signature) (keys keys' : List PublicKey)
      → AreParsable x hash keys
      → AreParsable x hash keys'
      → Perm keys keys'
      → count_signatures x hash sigs keys ≡ count_signatures x hash sigs keys'
  count_signatures-perm sigs keys keys' h h' p =
      rw
        (
          count_signatures-eq-count_if x hash sigs keys h,
          count_signatures-eq-count_if x hash sigs keys' h',
        )
        (ap ok (∥∥₁_elim p (ℕ_set _ _) (count_if-permᴰ (is_signed x hash sigs))))
