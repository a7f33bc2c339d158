-- ===== src/Signer/Paths.antt =====
-- Derivation paths: signatory.go and getDerivationSteps (internal/signer/local_signer).
use Prim.Native.String.{◌++◌}
use nutmix.Prelude.{ℕ, ◌+◌, ◌%◌, String, List, [], ◌∷◌, none, some}
use nutmix.Cashu.Errors.{Result, ok, err, panic, ◌>>=◌}
use nutmix.Cashu.Types.{CashuUnit}
use nutmix.Cashu.Convert.{unit_string}
use nutmix.Cashu.Externals.{Externals}
use nutmix.Signer.Library.{KeyLibrary}

-- hdkeychain.HardenedKeyStart + uint32(i)
abbrev pub hardened : ℕ → ℕ
hardened i = (2147483648 + i) % 4294967296

module _ (x : Externals) (l : KeyLibrary) where
  -- unitNormalization
  unfoldable pub unit_normalization : String → String
  unit_normalization unit = l.to_upper (l.nfc (l.trim_space unit))

  -- parseUnitToIntegerReference: `&^ (1 << 31)` clears the highest bit of the word.
  unfoldable pub parse_unit_to_integer_reference : String → ℕ
  unfolding unit_normalization
  parse_unit_to_integer_reference unit =
      l.big_endian (x.sha256 (unit_normalization unit)) % 2147483648

  -- keyDerivation
  unfoldable pub key_derivation : ℕ → CashuUnit → String
  unfolding parse_unit_to_integer_reference unit_string
  key_derivation version unit =
      x.format_uint 129372
      ++ "'/"
      ++ x.format_uint (parse_unit_to_integer_reference (unit_string unit))
      ++ "'/"
      ++ x.format_uint version
      ++ "'"

  step_number : String → Result ℕ
  step_number text = elim (l.parse_uint32 text) [ none ↦ err [] | some i ↦ ok i ]

  -- A step is hardened if it is in two parts around its apostrophe.
  step_of : List String → Result ℕ
  unfolding step_number
  step_of (number ∷ rest ∷ []) = step_number number >>= λ i. ok (hardened i)
  step_of (number ∷ parts) = step_number number
  step_of [] = panic

  steps_of : List String → Result (List ℕ)
  unfolding step_of
  steps_of [] = ok []
  steps_of (part ∷ parts) = step_of (l.split part "'") >>= λ i. steps_of parts >>= λ is. ok (i ∷ is)

  -- getDerivationSteps
  unfoldable pub get_derivation_steps : String → Result (List ℕ)
  unfolding steps_of
  get_derivation_steps path = steps_of (l.split path "/")
