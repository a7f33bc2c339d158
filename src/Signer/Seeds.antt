-- ===== src/Signer/Seeds.antt =====
-- A new seed for a unit: createNewSeed (internal/signer/local_signer/signer.go), and the version that
-- RotateKeyset chooses.
use nutmix.Prelude.{
  ℕ, ◌+◌, ◌%◌, String, List, [], ◌∷◌, true, false, ◌≡◌, Option, none, some, if◌then◌else◌, leb,
}
use nutmix.Cashu.Errors.{Result, ok, panic, ◌>>=◌, >>=-elim}
use nutmix.Cashu.Types.{Seed, CashuUnit, auth, unit_eq}
use nutmix.Cashu.Convert.{unit_string}
use nutmix.Cashu.Externals.{Externals}
use nutmix.Cashu.Amounts.{get_amounts_for_keysets}
use nutmix.Cashu.Keys.{derive_keyset_id_v2}
use nutmix.Crypto.Curve.{Curve}
use nutmix.Signer.Library.{KeyLibrary}
use nutmix.Signer.Paths.{key_derivation}
use nutmix.Signer.Keysets.{derive_keyset, pubkeys_with_values}

-- The version behind the highest one, in 32 bits.
unfoldable pub next_version : ℕ → List Seed → ℕ
next_version highest [] = highest
next_version highest (s ∷ ss) =
    next_version (if leb highest s.version then (s.version + 1) % 4294967296 else highest) ss

-- `amounts[0]` of the list, for the auth unit.
abbrev first_amount : List ℕ → Result (List ℕ)
first_amount [] = panic
first_amount (a ∷ as') = ok (a ∷ [])

module _ (x : Externals) (l : KeyLibrary) {P S : Type 0} (c : Curve P S) where
  -- The seed before its id is known; the issuer's version is a constant of the build.
  unfoldable pub blank_seed : String → CashuUnit → ℕ → ℕ → ℕ → List ℕ → Seed
  unfolding key_derivation unit_string
  blank_seed issuer unit version fee now amounts = record {
    final_expiry = none;
    issuer_version = some issuer;
    unit = unit_string unit;
    id = "";
    derivation_path = key_derivation x l version unit;
    amounts = amounts;
    created_at = now;
    input_fee_ppk = fee;
    version = version;
    active = true;
    legacy = false;
  }

  -- createNewSeed; the expiry is a Unix time.
  unfoldable pub create_new_seed : String → String → CashuUnit → ℕ → ℕ → Option ℕ → ℕ → Result Seed
  unfolding blank_seed derive_keyset pubkeys_with_values derive_keyset_id_v2 get_amounts_for_keysets
  create_new_seed issuer master unit version fee final_expiry now =
      (if unit_eq unit auth
        then first_amount (get_amounts_for_keysets 32)
        else ok (get_amounts_for_keysets 32))
      >>= λ amounts.
          let seed = blank_seed issuer unit version fee now amounts in
          derive_keyset x l master seed now >>= λ keys. pubkeys_with_values c [] keys >>= λ values.
          ok (record seed {
            id = derive_keyset_id_v2 x values (unit_string unit) fee final_expiry;
            final_expiry = final_expiry;
          })

  -- A new seed is active, and has the unit, the version and the fee that are asked for.
  pub create_new_seed-eq-ok :
      (issuer master : String) (unit : CashuUnit) (version fee : ℕ) (final_expiry : Option ℕ)
      (now : ℕ) (seed : Seed)
      → create_new_seed issuer master unit version fee final_expiry now ≡ ok seed
      → (seed.active ≡ true)
        × (seed.unit ≡ unit_string unit)
        × (seed.version ≡ version)
        × (seed.input_fee_ppk ≡ fee)
  unfolding create_new_seed blank_seed
  create_new_seed-eq-ok issuer master unit version fee final_expiry now seed h =
      >>=-elim
        (if unit_eq unit auth
          then first_amount (get_amounts_for_keysets 32)
          else ok (get_amounts_for_keysets 32))
        _ h
        λ amounts _ h.
          >>=-elim (derive_keyset x l master (blank_seed issuer unit version fee now amounts) now) _
            h
            λ keys _ h. >>=-elim (pubkeys_with_values c [] keys) _ h λ values _ h. (cc, cc, cc, cc)
