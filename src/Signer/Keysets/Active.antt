-- ===== src/Signer/Keysets/Active.antt =====
-- Where the active keysets of a signer come from: GetKeysetsFromSeeds
-- (internal/signer/local_signer/derivation.go).
use mathlib.Core.List.{Memᴰ}
use nutmix.Prelude.{
  ℕ, String, List, [], ◌∷◌, true, some, ◌≡◌, refl, ◌⊎◌, inl, inr, str_eq, eq_iff, lookup, put,
  lookup-put, if◌then◌else◌, Bool-cases,
}
use nutmix.Cashu.Errors.{ok, >>=-elim}
use nutmix.Cashu.Types.{Seed, MintKey}
use nutmix.Cashu.Externals.{Externals}
use nutmix.Crypto.Curve.{Curve}
use nutmix.Signer.Library.{KeyLibrary}
use nutmix.Signer.Keysets.{
  MintKeysMap, Keysets, keys_by_amount, derive_seed, check_seed_id, seeds_loop,
  get_keysets_from_seeds,
}

module _ (x : Externals) (l : KeyLibrary) {P S : Type 0} (c : Curve P S) (master : String)
    (now : ℕ) where
  -- A keyset that is made of an active seed of a list, under the id of the seed.
  pub record FromActiveSeed (seeds : List Seed) (id : String) (keys : MintKeysMap) : Type 0 where
    pub seed : Seed
    pub derived : List MintKey
    pub stored : Memᴰ seed seeds
    pub active : seed.active ≡ true
    pub same_id : seed.id ≡ id
    pub derivation : derive_seed x l master seed now ≡ ok derived
    pub checked : check_seed_id x l c seed derived ≡ ok tt
    pub by_amount : keys ≡ keys_by_amount [] derived

  later :
      (seed : Seed) (seeds : List Seed) (id : String) (keys : MintKeysMap)
      → FromActiveSeed seeds id keys
      → FromActiveSeed (seed ∷ seeds) id keys
  later seed seeds id keys h = record {
    seed = h.seed;
    derived = h.derived;
    stored = Memᴰ.tail h.stored;
    active = h.active;
    same_id = h.same_id;
    derivation = h.derivation;
    checked = h.checked;
    by_amount = h.by_amount;
  }

  -- A keyset that is there after a round of the loop was there before it, or is that of its seed.
  put_last :
      (seed : Seed) (seeds : List Seed) (derived : List MintKey) (active : Keysets) (id : String)
      (keys : MintKeysMap)
      → derive_seed x l master seed now ≡ ok derived
      → check_seed_id x l c seed derived ≡ ok tt
      → lookup str_eq id
          (if seed.active then put str_eq seed.id (keys_by_amount [] derived) active else active)
        ≡ some keys
      → (lookup str_eq id active ≡ some keys) ⊎ FromActiveSeed (seed ∷ seeds) id keys
  put_last seed seeds derived active id keys derivation checked found =
      elim (Bool-cases seed.active) [
        | inl on ↦
            elim (lookup-put str_eq id seed.id keys (keys_by_amount [] derived) active eq_iff
              (cc)) [
                | inl (same_id, same_keys) ↦ inr (record {
                  seed = seed;
                  derived = derived;
                  stored = Memᴰ.head refl;
                  active = on;
                  same_id = same_id;
                  derivation = derivation;
                  checked = checked;
                  by_amount = same_keys;
                })
                | inr old ↦ inl old
              ]
        | inr off ↦ inl (cc)
      ]

  loop-FromActiveSeed :
      (seeds : List Seed) (keysets active keysets' active' : Keysets) (id : String)
      (keys : MintKeysMap)
      → seeds_loop x l c master now keysets active seeds ≡ ok (keysets', active')
      → lookup str_eq id active' ≡ some keys
      → (lookup str_eq id active ≡ some keys) ⊎ FromActiveSeed seeds id keys
  unfolding seeds_loop
  loop-FromActiveSeed [] keysets active keysets' active' id keys h found = inl (cc)
  loop-FromActiveSeed (seed ∷ seeds) keysets active keysets' active' id keys h found =
      >>=-elim (derive_seed x l master seed now) _ h λ derived derivation h.
        >>=-elim (check_seed_id x l c seed derived) _ h λ _ checked h.
          elim (loop-FromActiveSeed seeds _ _ keysets' active' id keys h found) [
            | inr later_one ↦ inr (later seed seeds id keys later_one)
            | inl before ↦ put_last seed seeds derived active id keys derivation checked before
          ]

  -- Every active keyset that GetKeysetsFromSeeds gives is made of the keys of an active seed with its
  -- id, whose stored id is the one that those keys give.
  pub get_keysets_from_seeds-FromActiveSeed :
      (seeds : List Seed) (keysets active : Keysets) (id : String) (keys : MintKeysMap)
      → get_keysets_from_seeds x l c seeds master now ≡ ok (keysets, active)
      → lookup str_eq id active ≡ some keys
      → FromActiveSeed seeds id keys
  unfolding get_keysets_from_seeds
  get_keysets_from_seeds-FromActiveSeed seeds keysets active id keys h found =
      elim (loop-FromActiveSeed seeds [] [] keysets active id keys h found) [
        | inl before ↦ absurd (cc)
        | inr made ↦ made
      ]
