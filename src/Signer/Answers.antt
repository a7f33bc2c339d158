-- ===== src/Signer/Answers.antt =====
-- The public keys that the signer tells: OrderKeysetByUnit (internal/signer/utils.go), and the
-- methods of the local signer that answer with it.
use nutmix.Prelude.{
  ℕ, String, List, [], ◌∷◌, ◌++◌, Bool, none, some, not, str_eq, ◌==◌, if◌then◌else◌, ltb, lookup,
  put, keep,
}
use nutmix.Cashu.Errors.{Result, ok, err, panic, ◌>>=◌, no_keyset_found}
use nutmix.Cashu.Types.{MintKey}
use nutmix.Cashu.Externals.{Externals}
use nutmix.Crypto.Curve.{Curve}
use nutmix.Signer.Keysets.{Keysets, get_pub_key}
use nutmix.Signer.Local.{LocalSigner}

-- signer.KeysetResponse
pub record KeysetResponse : Type 0 where
  pub keys : List (ℕ × String)
  pub id : String
  pub unit : String
  pub input_fee_ppk : ℕ
  pub active : Bool

-- `typesOfUnits[keyset.Unit] = append(typesOfUnits[keyset.Unit], keyset)`; both branches append.
keys_by_unit : List (String × List MintKey) → List MintKey → List (String × List MintKey)
keys_by_unit units [] = units
keys_by_unit units (k ∷ ks) =
    keys_by_unit
      (put str_eq k.unit
        (elim (lookup str_eq k.unit units) [ none ↦ k ∷ [] | some held ↦ held ++ k ∷ [] ]) units)
      ks

module _ (x : Externals) {P S : Type 0} (c : Curve P S) where
  key_texts : List (ℕ × String) → List MintKey → Result (List (ℕ × String))
  key_texts found [] = ok found
  key_texts found (k ∷ ks) =
      get_pub_key c k >>= λ p. key_texts (put ◌==◌ k.amount (x.hex_encode p) found) ks

  -- The response of one unit, whose head is that of its first key.
  response_of : List MintKey → Result KeysetResponse
  unfolding key_texts
  response_of [] = panic
  response_of (k ∷ ks) = key_texts [] (k ∷ ks) >>= λ texts. ok (record {
    keys = texts;
    id = k.id;
    unit = k.unit;
    input_fee_ppk = k.input_fee_ppk;
    active = k.active;
  })

  responses_of : List (String × List MintKey) → Result (List KeysetResponse)
  unfolding response_of
  responses_of [] = ok []
  responses_of ((_, keys) ∷ units) =
      response_of keys >>= λ r. responses_of units >>= λ rest. ok (r ∷ rest)

  -- OrderKeysetByUnit
  unfoldable pub order_keyset_by_unit : List MintKey → Result (List KeysetResponse)
  unfolding keys_by_unit responses_of
  order_keyset_by_unit keys = responses_of (keys_by_unit [] keys)

abbrev pub values_of : {K V : Type 0} → List (K × V) → List V
values_of [] = []
values_of ((_, v) ∷ m) = v ∷ values_of m

abbrev all_keys : Keysets → List MintKey
all_keys [] = []
all_keys ((_, keys) ∷ m) = values_of keys ++ all_keys m

abbrev pub is_auth : MintKey → Bool
is_auth k = str_eq k.unit "auth"

-- `sort.Slice` by amount
place_key : MintKey → List MintKey → List MintKey
place_key k [] = k ∷ []
place_key k (j ∷ js) = if ltb k.amount j.amount then k ∷ j ∷ js else j ∷ place_key k js

sort_keys : List MintKey → List MintKey
unfolding place_key
sort_keys [] = []
sort_keys (k ∷ ks) = place_key k (sort_keys ks)

module _ (x : Externals) {P S : Type 0} (c : Curve P S) (s : LocalSigner) where
  -- GetActiveKeys and GetAuthActiveKeys
  unfoldable pub get_active_keys : Result (List KeysetResponse)
  unfolding order_keyset_by_unit sort_keys
  get_active_keys =
      order_keyset_by_unit x c (sort_keys (keep (λ k. not (is_auth k)) (all_keys s.active_keysets)))

  unfoldable pub get_auth_active_keys : Result (List KeysetResponse)
  unfolding order_keyset_by_unit sort_keys
  get_auth_active_keys =
      order_keyset_by_unit x c (sort_keys (keep is_auth (all_keys s.active_keysets)))

  -- GetKeysById and GetAuthKeysById
  unfoldable pub get_keys_by_id : String → Result (List KeysetResponse)
  unfolding order_keyset_by_unit
  get_keys_by_id id = elim (lookup str_eq id s.keysets) [
    | none ↦ err (no_keyset_found ∷ [])
    | some keys ↦ order_keyset_by_unit x c (keep (λ k. not (is_auth k)) (values_of keys))
  ]

  unfoldable pub get_auth_keys_by_id : String → Result (List KeysetResponse)
  unfolding order_keyset_by_unit
  get_auth_keys_by_id id = elim (lookup str_eq id s.keysets) [
    | none ↦ err (no_keyset_found ∷ [])
    | some keys ↦ order_keyset_by_unit x c (keep is_auth (values_of keys))
  ]
