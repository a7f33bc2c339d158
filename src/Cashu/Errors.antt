-- ===== src/Cashu/Errors.antt =====
-- The sentinel errors of api/cashu (types.go, errors.go, spend_condition.go) and results.
-- An error value is the list of the sentinels that `errors.Is` finds in its chain: `%w` keeps the
-- list, `errors.Join` joins two lists, an error with no sentinel is the empty list.
use nutmix.Prelude.{ℕ, List, [], ◌∷◌, Bool, true, false, ◌==◌, ◌≡◌}

-- `lock_unavailable` stands for a database error whose text has "could not obtain lock".
pub data Sentinel : Type 0 where
  could_not_parse_unit_string could_not_parse_public_key invalid_proof message_too_big : Sentinel
  invalid_blind_message could_not_convert_unit unbalanced not_same_units : Sentinel
  repeated_output repeated_input payment_failed payment_no_route : Sentinel
  mint_quote_no_public_key mint_quote_no_valid_signature using_inactive_keyset : Sentinel
  melt_already_paid quote_is_pending unit_not_supported different_input_output_unit : Sentinel
  not_enought_proofs proof_spent proof_pending blind_message_already_signed : Sentinel
  common_secret_not_correct_size payment_method_not_supported : Sentinel
  mint_request_already_issued amount_not_equal_to_invoice mintint_disabled : Sentinel
  amount_outside_limit request_not_paid amountless_invoice_not_supported keyset_not_know : Sentinel
  invalid_spend_condition invalid_tag_name invalid_tag_value invalid_sig_flag : Sentinel
  malformed_tag could_not_parse_spend_condition could_not_parse_witness empty_witness : Sentinel
  no_valid_signatures not_enough_signatures invalid_hex_preimage invalid_preimage : Sentinel
  no_keyset_found no_rows tx_closed lock_unavailable : Sentinel

abbrev pub Error : Type 0
Error = List Sentinel

-- What a Go function with a final `error` result does; `panic` is a run-time panic.
pub data Result {ℓ} (A : Type ℓ) : Type ℓ where
  ok : A → Result A
  err : Error → Result A
  panic : Result A

module _ {ℓ κ} {A : Type ℓ} {B : Type κ} where
  infixl 5 ◌>>=◌
  -- The early return of an error.
  abbrev pub ◌>>=◌ : Result A → (A → Result B) → Result B
  panic >>= step = panic
  err e >>= step = err e
  ok value >>= step = step value

  -- A chain that succeeds has a first step that succeeds.
  pub >>=-eq-ok :
      (r : Result A) (step : A → Result B) {out : B}
      → (r >>= step) ≡ ok out
      → (value : A) × (r ≡ ok value) × (step value ≡ ok out)
  >>=-eq-ok panic step h = cc
  >>=-eq-ok (err e) step h = cc
  >>=-eq-ok (ok value) step h = (value, nutmix.Prelude.refl, h)

  pub >>=-elim :
      {C : Type 0} (r : Result A) (step : A → Result B) {out : B}
      → (r >>= step) ≡ ok out
      → ((value : A) → r ≡ ok value → step value ≡ ok out → C)
      → C
  >>=-elim r step h k = let found = >>=-eq-ok r step h in k found.0 found.1 found.2

-- `if bad { return err }`
abbrev pub fail_if : Bool → Error → Result (Unit {0})
fail_if true e = err e
fail_if false e = ok tt

-- `errors.Join(sentinel, err)` around a call.
abbrev pub join {ℓ} : {A : Type ℓ} → Sentinel → Result A → Result A
join s (ok a) = ok a
join s (err e) = err (s ∷ e)
join s panic = panic

pub fail_if-eq-ok : (b : Bool) (e : Error) {u : Unit {0}} → fail_if b e ≡ ok u → b ≡ false
fail_if-eq-ok true e h = cc
fail_if-eq-ok false e h = nutmix.Prelude.refl
