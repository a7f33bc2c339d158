-- ===== src/Signer/Keysets.antt =====
-- The keys of a seed, and the keysets of all seeds: derivation.go and legacy.go
-- (internal/signer/local_signer).
pub mod Active
use text.Mathlib.Text.{get?}
use nutmix.Prelude.{
  ℕ, ◌+◌, ◌%◌, String, List, [], ◌∷◌, Bool, Option, none, some, str_eq, ◌==◌, if◌then◌else◌, put,
  map,
}
use nutmix.Cashu.Errors.{Result, ok, err, panic, ◌>>=◌}
use nutmix.Cashu.Types.{MintKey, Seed, PublicKey, enum_index}
use nutmix.Cashu.Convert.{unit_from_string}
use nutmix.Cashu.Externals.{Externals}
use nutmix.Crypto.Curve.{Curve}
use nutmix.Signer.Library.{KeyLibrary}
use nutmix.Signer.Paths.{hardened, get_derivation_steps}
use nutmix.Signer.Ids.{PubkeyWithAmount, derive_keyset_id, derive_keyset_id_v2}

-- cashu.MintKeysMap, and the maps of a signer.
abbrev pub MintKeysMap : Type 0
MintKeysMap = List (ℕ × MintKey)

abbrev pub Keysets : Type 0
Keysets = List (String × MintKeysMap)

abbrev pub required : {A : Type 0} → Option A → Result A
required none = err []
required (some a) = ok a

-- The key of one amount of a seed.
unfoldable pub mint_key : Seed → ℕ → ℕ → String → MintKey
mint_key seed now amount priv_key = record {
  priv_key = some priv_key;
  final_expiry = none;
  id = seed.id;
  unit = seed.unit;
  amount = amount;
  created_at = now;
  input_fee_ppk = seed.input_fee_ppk;
  active = seed.active;
}

-- `mintkeyMap[keyset.Amount] = keyset` for each key.
pub keys_by_amount : MintKeysMap → List MintKey → MintKeysMap
keys_by_amount keys [] = keys
keys_by_amount keys (k ∷ ks) = keys_by_amount (put ◌==◌ k.amount k keys) ks

module _ {P S : Type 0} (c : Curve P S) where
  -- MintKey.GetPubKey, serialised; the private key is dereferenced.
  unfoldable pub get_pub_key : MintKey → Result PublicKey
  get_pub_key k = elim k.priv_key [
    | none ↦ panic
    | some key ↦ ok (c.encode (c.base (c.scalar_of key)))
  ]

  pub_keys : List MintKey → Result (List PublicKey)
  unfolding get_pub_key
  pub_keys [] = ok []
  pub_keys (k ∷ ks) = get_pub_key k >>= λ p. pub_keys ks >>= λ ps. ok (p ∷ ps)

  -- `pubkeysWithValues[keysets[i].Amount] = keysets[i].GetPubKey()` for each key.
  unfoldable pub pubkeys_with_values :
      List PubkeyWithAmount → List MintKey → Result (List PubkeyWithAmount)
  unfolding get_pub_key
  pubkeys_with_values found [] = ok found
  pubkeys_with_values found (k ∷ ks) =
      get_pub_key k >>= λ p. pubkeys_with_values (put ◌==◌ k.amount p found) ks

module _ (x : Externals) (l : KeyLibrary) where
  -- The loop of GenerateKeysets from an index on; all keys have the time `now`.
  keys_from : String → Seed → ℕ → ℕ → List ℕ → Result (List MintKey)
  unfolding mint_key
  keys_from version_key seed now i [] = ok []
  keys_from version_key seed now i (amount ∷ amounts) =
      required (l.derive version_key (if seed.legacy then i % 4294967296 else hardened i))
      >>= λ child. required (l.ec_priv_key child) >>= λ priv_key.
          keys_from version_key seed now (i + 1) amounts >>= λ keys.
          ok (mint_key seed now amount priv_key ∷ keys)

  -- GenerateKeysets
  unfoldable pub generate_keysets : String → Seed → ℕ → Result (List MintKey)
  unfolding keys_from
  generate_keysets version_key seed now = keys_from version_key seed now 0 seed.amounts

  derive_steps : String → List ℕ → Result String
  derive_steps key [] = ok key
  derive_steps key (i ∷ is) = required (l.derive key i) >>= λ child. derive_steps child is

  -- DeriveKeyset
  unfoldable pub derive_keyset : String → Seed → ℕ → Result (List MintKey)
  unfolding derive_steps generate_keysets
  derive_keyset master seed now = get_derivation_steps x l seed.derivation_path >>= λ path.
      derive_steps master path >>= λ version_key. generate_keysets version_key seed now

  -- The loop of legacyGenerateKeysets
  legacy_keys_from : String → Seed → ℕ → ℕ → List ℕ → Result (List MintKey)
  unfolding mint_key
  legacy_keys_from version_key seed now i [] = ok []
  legacy_keys_from version_key seed now i (amount ∷ amounts) =
      required (l.new_child_key version_key (i % 4294967296)) >>= λ child.
      legacy_keys_from version_key seed now (i + 1) amounts >>= λ keys.
      ok (mint_key seed now amount (l.normal_key (l.key_bytes child)) ∷ keys)

  -- legacyGenerateKeysets
  unfoldable pub legacy_generate_keysets : String → Seed → ℕ → Result (List MintKey)
  unfolding legacy_keys_from
  legacy_generate_keysets version_key seed now =
      legacy_keys_from version_key seed now 0 seed.amounts

  -- legacyDeriveKeyset
  unfoldable pub legacy_derive_keyset : String → Seed → ℕ → Result (List MintKey)
  unfolding legacy_generate_keysets
  legacy_derive_keyset master seed now = unit_from_string x seed.unit >>= λ unit.
      required (l.new_child_key master (enum_index unit)) >>= λ unit_key.
      required (l.new_child_key unit_key seed.version) >>= λ version_key.
      legacy_generate_keysets version_key seed now

  -- legacyGetMintPrivateKey
  unfoldable pub legacy_get_mint_private_key : Result String
  legacy_get_mint_private_key =
      if str_eq l.mint_private_key ""
      then err []
      else (required (x.hex_decode l.mint_private_key) >>= λ bytes.
          required (l.legacy_master (l.normal_key bytes)))

  -- getSignerPrivateKey (signer.go)
  unfoldable pub get_signer_private_key : Result String
  get_signer_private_key =
      if str_eq l.mint_private_key ""
      then err []
      else (required (x.hex_decode l.mint_private_key) >>= λ bytes. required (l.new_master bytes))

  -- deriveSeed
  unfoldable pub derive_seed : String → Seed → ℕ → Result (List MintKey)
  unfolding legacy_get_mint_private_key legacy_derive_keyset derive_keyset
  derive_seed master seed now =
      if seed.legacy
      then (legacy_get_mint_private_key >>= λ key. legacy_derive_keyset key seed now)
      else derive_keyset master seed now

  module _ {P S : Type 0} (c : Curve P S) where
    id_by_version : Option String → Seed → List PublicKey → List PubkeyWithAmount → Result String
    unfolding derive_keyset_id derive_keyset_id_v2
    id_by_version none seed keys values = panic
    id_by_version (some version) seed keys values =
        if str_eq version "00"
        then derive_keyset_id x keys
        else if str_eq version "01"
        then ok (derive_keyset_id_v2 x values seed.unit seed.input_fee_ppk seed.final_expiry)
        else err []

    -- The id that the keys of a seed give again; a stored id that differs from it is a panic.
    unfoldable pub check_seed_id : Seed → List MintKey → Result (Unit {0})
    unfolding id_by_version pub_keys pubkeys_with_values
    check_seed_id seed keys = pub_keys c keys >>= λ just_keys.
        pubkeys_with_values c [] keys >>= λ values.
        id_by_version (get? seed.id 0 2) seed just_keys values >>= λ id.
        if str_eq id seed.id then ok tt else panic

    -- The loop of GetKeysetsFromSeeds over the maps of all and of the active keysets.
    seeds_loop : String → ℕ → Keysets → Keysets → List Seed → Result (Keysets × Keysets)
    unfolding derive_seed check_seed_id keys_by_amount
    seeds_loop master now keysets active [] = ok (keysets, active)
    seeds_loop master now keysets active (seed ∷ seeds) = derive_seed master seed now >>= λ keys.
        check_seed_id seed keys >>= λ _.
        let m = keys_by_amount [] keys in
        seeds_loop master now (put str_eq seed.id m keysets)
          (if seed.active then put str_eq seed.id m active else active) seeds

    -- GetKeysetsFromSeeds
    unfoldable pub get_keysets_from_seeds : List Seed → String → ℕ → Result (Keysets × Keysets)
    unfolding seeds_loop
    get_keysets_from_seeds seeds master now = seeds_loop master now [] [] seeds
