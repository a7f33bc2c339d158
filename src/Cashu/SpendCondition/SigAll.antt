-- ===== src/Cashu/SpendCondition/SigAll.antt =====
-- The SIG_ALL path: one signature for all inputs and outputs (spend_condition.go, swap.go,
-- melt.go of api/cashu).
pub mod Repetition
use nutmix.Prelude.{
  ℕ, String, List, [], ◌∷◌, Bool, true, false, not, ◌&&◌, Option, none, some, str_eq, if◌then◌else◌,
  ltb, leb, ◌==◌, is_empty,
}
use Prim.Native.String.{◌++◌}
use nutmix.Cashu.Errors.{
  Result, ok, err, panic, ◌>>=◌, fail_if, not_enough_signatures, invalid_spend_condition,
}
use nutmix.Cashu.Types.{
  PublicKey, Signature, Proof, BlindedMessage, PostSwapRequest, PostMeltBolt11Request,
}
use nutmix.Cashu.Externals.{Externals}
use nutmix.Cashu.SpendCondition.{
  SpendCondition, SpendConditionType, any_one_can_spend, p2pk, htlc, SigFlag, sig_all, sig_inputs,
  is_sig_all, has_sig_all, Witness, parse_spend_condition, parse_witness,
  is_proof_spend_conditioned, verify_preimage,
}
use nutmix.Cashu.SpendCondition.Signatures.{count_signatures}
use nutmix.Cashu.SpendCondition.Verify.{
  timelock_passed, pubkeys_for_refund, pubkeys_for_verification,
}

pub record SigflagValidation : Type 0 where
  pub pubkeys : List PublicKey
  pub refund_pubkeys : List PublicKey
  pub sig_flag : SigFlag
  pub proof_type : SpendConditionType
  pub signatures_required : ℕ
  pub signatures_required_refund : ℕ

abbrev pub no_sig_all : SigflagValidation
no_sig_all = record {
  pubkeys = [];
  refund_pubkeys = [];
  sig_flag = sig_inputs;
  proof_type = any_one_can_spend;
  signatures_required = 0;
  signatures_required_refund = 0;
}

-- `signaturesRequired`: 1 for P2PK, more if the tag says so, 1 if there are keys at all.
abbrev pub required_signatures : SpendCondition → List PublicKey → ℕ
required_signatures sc keys =
    let base : ℕ = elim sc.type [ p2pk ↦ 1 | _ ↦ 0 ] in
    let tagged = if ltb 1 sc.tags.n_sigs then sc.tags.n_sigs else base in
    if not (is_empty keys) && tagged == 0 then 1 else tagged

-- `signaturesRequiredRefund`: 0 with no refund key.
abbrev pub required_refund : SpendCondition → ℕ
required_refund sc =
    if is_empty sc.tags.refund
    then 0
    else if ltb 1 sc.tags.n_sig_refund
    then sc.tags.n_sig_refund
    else 1

module _ (x : Externals) where
  -- What the first SIG_ALL proof asks for.
  sig_all_validation : SpendCondition → Result SigflagValidation
  sig_all_validation sc = pubkeys_for_verification x sc >>= λ keys. ok (record {
    pubkeys = keys;
    refund_pubkeys = if is_empty sc.tags.refund then [] else pubkeys_for_refund sc;
    sig_flag = sig_all;
    proof_type = sc.type;
    signatures_required = required_signatures sc keys;
    signatures_required_refund = required_refund sc;
  })

  -- checkForSigAll
  unfoldable pub check_for_sig_all : List Proof → Result SigflagValidation
  unfolding sig_all_validation
  check_for_sig_all [] = ok no_sig_all
  check_for_sig_all (p ∷ ps) =
      let rest = check_for_sig_all ps in
      is_proof_spend_conditioned x p >>= λ locked. elim locked [
        | none ↦ rest
        | some sc ↦ if is_sig_all sc.tags.sigflag then sig_all_validation sc else rest
      ]

  -- ProofsHaveSigAll
  unfoldable pub proofs_have_sig_all : List Proof → Result Bool
  proofs_have_sig_all [] = ok false
  proofs_have_sig_all (p ∷ ps) =
      let rest = proofs_have_sig_all ps in
      is_proof_spend_conditioned x p >>= λ locked. elim locked [
        | none ↦ rest
        | some sc ↦ if has_sig_all sc then ok true else rest
      ]

  -- The refund path of checkSigAllProofValid: whether it settles the matter.
  refund_settles : ℕ → String → SigflagValidation → SpendCondition → Witness → Result Bool
  refund_settles now msg v sc w =
      if timelock_passed now sc
      then (count_signatures x (x.sha256 msg) w.signatures v.refund_pubkeys >>= λ n.
          ok (leb v.signatures_required_refund n))
      else ok false

  -- `if proofType == HTLC { VerifyPreimage }`
  preimage_if_htlc : SpendConditionType → SpendCondition → Witness → Result (Unit {0})
  preimage_if_htlc htlc sc w = verify_preimage x sc w
  preimage_if_htlc _ sc w = ok tt

  -- checkSigAllProofValid
  unfoldable pub check_sig_all_proof_valid :
      ℕ → String → SigflagValidation → Proof → Result (Unit {0})
  unfolding refund_settles preimage_if_htlc
  check_sig_all_proof_valid now msg v first_proof =
      fail_if (not (is_sig_all v.sig_flag)) [] >>= λ _.
      parse_spend_condition x first_proof >>= λ sc. parse_witness x first_proof >>= λ w.
      refund_settles now msg v sc w >>= λ settled.
      if settled
      then ok tt
      else (preimage_if_htlc v.proof_type sc w >>= λ _.
          count_signatures x (x.sha256 msg) w.signatures v.pubkeys >>= λ n.
          fail_if (ltb n v.signatures_required) (not_enough_signatures ∷ []))

  -- WrappedPublicKey.ToHex
  unfoldable pub to_hex : PublicKey → String
  to_hex k = if str_eq k "" then "" else x.hex_encode k

  inputs_text : List Proof → String
  inputs_text [] = ""
  inputs_text (p ∷ ps) = (p.secret ++ to_hex p.c) ++ inputs_text ps

  outputs_text : List BlindedMessage → String
  outputs_text [] = ""
  outputs_text (o ∷ os) = (x.format_uint o.amount ++ to_hex o.b_) ++ outputs_text os

  -- makeSigAllMsg of a swap, and of a melt, which adds the quote.
  unfoldable pub make_swap_msg : PostSwapRequest → String
  unfolding inputs_text outputs_text
  make_swap_msg r = inputs_text r.inputs ++ outputs_text r.outputs

  unfoldable pub make_melt_msg : PostMeltBolt11Request → String
  unfolding inputs_text outputs_text
  make_melt_msg r = (inputs_text r.inputs ++ outputs_text r.outputs) ++ r.quote

  -- The loop of verifySigAllRepetition. At the first input whose secret is no spend condition it
  -- returns with no error, and the inputs behind that one are not looked at.
  same_condition : SpendCondition → List Proof → Result (Unit {0})
  same_condition first [] = ok tt
  same_condition first (p ∷ ps) =
      let rest = same_condition first ps in
      elim (parse_spend_condition x p) [
        | err e ↦ ok tt
        | panic ↦ panic
        | ok sc ↦
            if not (str_eq sc.payload first.payload)
            then err (invalid_spend_condition ∷ [])
            else if not (str_eq sc.tags.original_tag first.tags.original_tag)
            then err (invalid_spend_condition ∷ [])
            else rest
      ]

  -- PostSwapRequest.verifySigAllRepetition and PostMeltBolt11Request.verifySigAllRepetition: they
  -- differ where the first input is no spend condition.
  unfoldable pub verify_swap_repetition : List Proof → Result (Unit {0})
  unfolding same_condition
  verify_swap_repetition [] = panic
  verify_swap_repetition (p ∷ ps) = elim (parse_spend_condition x p) [
    | ok sc ↦ same_condition sc (p ∷ ps)
    | err e ↦ ok tt
    | panic ↦ panic
  ]

  unfoldable pub verify_melt_repetition : List Proof → Result (Unit {0})
  unfolding same_condition
  verify_melt_repetition [] = panic
  verify_melt_repetition (p ∷ ps) = parse_spend_condition x p >>= λ sc. same_condition sc (p ∷ ps)

  -- `Inputs[0]`
  abbrev pub first_input : List Proof → Result Proof
  first_input [] = panic
  first_input (p ∷ ps) = ok p

  -- PostSwapRequest.ValidateSigflag
  unfoldable pub validate_swap_sigflag : ℕ → PostSwapRequest → Result (Unit {0})
  validate_swap_sigflag now r = check_for_sig_all r.inputs >>= λ v.
      if is_sig_all v.sig_flag
      then (first_input r.inputs >>= λ first. parse_spend_condition x first >>= λ _.
          parse_witness x first >>= λ _. verify_swap_repetition r.inputs >>= λ _.
          check_sig_all_proof_valid now (make_swap_msg r) v first)
      else ok tt

  -- PostMeltBolt11Request.ValidateSigflag
  unfoldable pub validate_melt_sigflag : ℕ → PostMeltBolt11Request → Result (Unit {0})
  validate_melt_sigflag now r = check_for_sig_all r.inputs >>= λ v.
      if is_sig_all v.sig_flag
      then (first_input r.inputs >>= λ first. verify_melt_repetition r.inputs >>= λ _.
          check_sig_all_proof_valid now (make_melt_msg r) v first)
      else ok tt
