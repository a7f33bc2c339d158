-- ===== src/Cashu/SpendCondition/Verify.antt =====
-- Spend conditions of single proofs (api/cashu/proofs.go): P2PK, HTLC and their time locks.
pub mod Quorum
use nutmix.Prelude.{
  ℕ, ◌+◌, String, List, [], ◌∷◌, Bool, true, false, not, ◌&&◌, Option, none, some, str_eq,
  if◌then◌else◌, ltb, leb, length, is_empty, ◌==◌, insert,
}
use nutmix.Cashu.Errors.{
  Result, ok, err, panic, ◌>>=◌, fail_if, no_valid_signatures, not_enough_signatures,
  invalid_spend_condition, common_secret_not_correct_size,
}
use nutmix.Cashu.Types.{PublicKey, Signature, Proof}
use nutmix.Cashu.Externals.{Externals}
use nutmix.Cashu.SpendCondition.{
  SpendCondition, SpendConditionType, any_one_can_spend, p2pk, htlc, Witness, or_error, check_valid,
  parse_witness, is_proof_spend_conditioned, verify_preimage,
}
use nutmix.Cashu.SpendCondition.Signatures.{count_signatures}

-- 2 ^ 63: an `int64` reads a greater `uint` as a negative number.
abbrev pub i64_limit : ℕ
i64_limit = 9223372036854775808

-- timelockPassed: `currentTime > int64(Locktime)`, for a clock `now` that is not negative.
unfoldable pub timelock_passed : ℕ → SpendCondition → Bool
timelock_passed now sc =
    let lock = sc.tags.locktime in
    not (lock == 0) && (if ltb lock i64_limit then ltb lock now else true)

insert_all : List PublicKey → List PublicKey → List PublicKey
insert_all [] set = set
insert_all (k ∷ ks) set = insert_all ks (insert k set)

-- pubkeysForRefund
unfoldable pub pubkeys_for_refund : SpendCondition → List PublicKey
unfolding insert_all
pubkeys_for_refund sc = insert_all sc.tags.refund []

-- The `switch` at the end of verifyP2PKSpendCondition and verifyHtlcSpendCondition.
unfoldable pub enough_signatures : ℕ → ℕ → Result Bool
enough_signatures valid required =
    if valid == 0
    then err (no_valid_signatures ∷ [])
    else if ltb 0 required && ltb valid required
    then err (not_enough_signatures ∷ [])
    else if ltb 0 required && leb required valid
    then ok true
    else ok (leb 1 valid)

-- `nsigToCheck`: at least `least`, and more if the tag says so.
abbrev pub required_from : ℕ → ℕ → ℕ
required_from least tag = if ltb least tag then tag else least

-- The number of signatures that the refund path asks for.
abbrev pub refund_required : SpendCondition → ℕ
refund_required sc = required_from (if is_empty sc.tags.refund then 0 else 1) sc.tags.n_sig_refund

module _ (x : Externals) where
  -- Proof.pubkeysForVerification
  unfoldable pub pubkeys_for_verification : SpendCondition → Result (List PublicKey)
  unfolding insert_all
  pubkeys_for_verification sc = by_type sc.type
    where
      by_type : SpendConditionType → Result (List PublicKey)
      by_type p2pk = or_error (x.hex_decode sc.payload) [] >>= λ bytes.
          or_error (x.parse_pub_key bytes) [] >>= λ key. ok (insert_all sc.tags.pubkeys (key ∷ []))
      by_type htlc = ok (insert_all sc.tags.pubkeys [])
      by_type any_one_can_spend = ok []

  -- Proof.verifyP2PKSpendCondition
  unfoldable pub verify_p2pk_spend_condition : Proof → SpendCondition → Witness → Result Bool
  verify_p2pk_spend_condition p sc w = pubkeys_for_verification sc >>= λ keys.
      count_signatures x (x.sha256 p.secret) w.signatures keys >>= λ valid.
      enough_signatures valid (required_from 1 sc.tags.n_sigs)

  -- Proof.verifyHtlcSpendCondition
  unfoldable pub verify_htlc_spend_condition : Proof → SpendCondition → Witness → Result Bool
  verify_htlc_spend_condition p sc w = verify_preimage x sc w >>= λ _.
      if is_empty sc.tags.pubkeys
      then ok true
      else (pubkeys_for_verification sc >>= λ keys.
          count_signatures x (x.sha256 p.secret) w.signatures keys >>= λ valid.
          enough_signatures valid (required_from 1 sc.tags.n_sigs))

  -- Proof.verifyTimelockPassedSpendCondition
  unfoldable pub verify_timelock_passed_spend_condition :
      Proof → SpendCondition → Witness → Result Bool
  verify_timelock_passed_spend_condition p sc w =
      count_signatures x (x.sha256 p.secret) w.signatures (pubkeys_for_refund sc) >>= λ valid.
      if refund_required sc == 0 then ok true else enough_signatures valid (refund_required sc)

  -- `valid, _ = ...`: the error is dropped, and `valid` is false beside one.
  abbrev pub is_valid : Result Bool → Bool
  is_valid (ok b) = b
  is_valid (err e) = false
  is_valid panic = false

  -- Proof.VerifyP2PK and Proof.VerifyHTLC at the time `now`.
  unfoldable pub verify_p2pk : ℕ → Proof → SpendCondition → Result Bool
  verify_p2pk now p sc = parse_witness x p >>= λ w.
      if timelock_passed now sc && is_valid (verify_timelock_passed_spend_condition p sc w)
      then ok true
      else verify_p2pk_spend_condition p sc w

  unfoldable pub verify_htlc : ℕ → Proof → SpendCondition → Result Bool
  verify_htlc now p sc = parse_witness x p >>= λ w.
      if timelock_passed now sc && is_valid (verify_timelock_passed_spend_condition p sc w)
      then ok true
      else verify_htlc_spend_condition p sc w

  -- The `switch spendCondition.Type` of VerifyProofCondition.
  verify_by_type : SpendConditionType → ℕ → Proof → SpendCondition → Result Bool
  verify_by_type p2pk now p sc = verify_p2pk now p sc
  verify_by_type htlc now p sc = verify_htlc now p sc
  verify_by_type any_one_can_spend now p sc = ok true

  -- VerifyProofCondition
  unfoldable pub verify_proof_condition : ℕ → Proof → Result (Unit {0})
  unfolding verify_by_type
  verify_proof_condition now p = is_proof_spend_conditioned x p >>= λ locked. elim locked [
    | none ↦ fail_if (not (x.len p.secret == 64)) (common_secret_not_correct_size ∷ [])
    | some sc ↦ check_valid sc >>= λ _. verify_by_type sc.type now p sc >>= λ valid.
        fail_if (not valid) (invalid_spend_condition ∷ [])
  ]

  -- VerifyProofsSpendConditions
  unfoldable pub verify_proofs_spend_conditions : ℕ → List Proof → Result (Unit {0})
  verify_proofs_spend_conditions now [] = ok tt
  verify_proofs_spend_conditions now (p ∷ ps) =
      verify_proof_condition now p >>= λ _. verify_proofs_spend_conditions now ps
