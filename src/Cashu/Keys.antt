-- ===== src/Cashu/Keys.antt =====
-- The ids of keysets (api/cashu/keys.go): a hash over the public keys. The local signer has a copy of
-- this code of its own, which differs in the preimage.
use Prim.Native.String.{◌++◌}
use text.Mathlib.Text.{get?}
use nutmix.Prelude.{
  ℕ, String, List, [], ◌∷◌, Bool, Option, none, some, if◌then◌else◌, ltb, leb, sub64,
}
use nutmix.Cashu.Errors.{Result, ok, panic}
use nutmix.Cashu.Types.{PublicKey}
use nutmix.Cashu.Externals.{Externals}

-- pubkeyWithAmount
abbrev pub PubkeyWithAmount : Type 0
PubkeyWithAmount = ℕ × PublicKey

-- `int(a.Amount) - int(b.Amount)` is negative.
abbrev comes_before : PubkeyWithAmount → PubkeyWithAmount → Bool
comes_before a b = leb 9223372036854775808 (sub64 a.0 b.0)

place : PubkeyWithAmount → List PubkeyWithAmount → List PubkeyWithAmount
place k [] = k ∷ []
place k (j ∷ js) = if comes_before k j then k ∷ j ∷ js else j ∷ place k js

-- sortPubkeyMapToOrganizedArray, with slices.SortFunc as an insertion sort: the amounts of a map
-- differ.
unfoldable pub sort_pubkey_map : List PubkeyWithAmount → List PubkeyWithAmount
unfolding place
sort_pubkey_map [] = []
sort_pubkey_map (k ∷ ks) = place k (sort_pubkey_map ks)

module _ (x : Externals) where
  concatenated : List PublicKey → String
  concatenated [] = ""
  concatenated (k ∷ ks) = k ++ concatenated ks

  -- DeriveKeysetId; slicing a text that is too short panics.
  unfoldable pub derive_keyset_id : List PublicKey → Result String
  unfolding concatenated
  derive_keyset_id keys = elim (get? (x.hex_encode (x.sha256 (concatenated keys))) 0 14) [
    | none ↦ panic
    | some digits ↦ ok ("00" ++ digits)
  ]

  listed : List PubkeyWithAmount → String
  listed [] = ""
  listed (k ∷ []) = x.format_uint k.0 ++ ":" ++ x.hex_encode k.1
  listed (k ∷ ks) = x.format_uint k.0 ++ ":" ++ x.hex_encode k.1 ++ "," ++ listed ks

  -- generateKeysetV2Preimage; the expiry is a Unix time.
  unfoldable pub generate_keyset_v2_preimage :
      List PubkeyWithAmount → String → ℕ → Option ℕ → String
  unfolding listed
  generate_keyset_v2_preimage keys unit fee final_expiry =
      listed keys
      ++ "|unit:"
      ++ unit
      ++ (if ltb 0 fee then "|input_fee_ppk:" ++ x.format_uint fee else "")
      ++ elim final_expiry [ none ↦ "" | some at ↦ "|final_expiry:" ++ x.format_uint at ]

  -- DeriveKeysetIdV2
  unfoldable pub derive_keyset_id_v2 : List PubkeyWithAmount → String → ℕ → Option ℕ → String
  unfolding generate_keyset_v2_preimage sort_pubkey_map
  derive_keyset_id_v2 keys unit fee final_expiry =
      "01"
      ++ x.hex_encode
          (x.sha256 (generate_keyset_v2_preimage (sort_pubkey_map keys) unit fee final_expiry))
