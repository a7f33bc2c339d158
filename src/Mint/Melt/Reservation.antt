-- ===== src/Mint/Melt/Reservation.antt =====
-- What a melt has checked before it pays, and the quote that it takes: validateBolt11MeltInputs
-- and reserveMeltInputsAndMarkPending (internal/mint/melting.go).
use mathlib.Core.Path.{subst, sym}
use nutmix.Prelude.{ℕ, List, Bool, true, false, ◌≡◌, ◌≤◌, arith, is_empty, add64, if◌then◌else◌}
use nutmix.Cashu.Errors.{ok, fail_if-eq-ok}
use nutmix.Cashu.Types.{
  PostMeltBolt11Request, MeltRequestDb, proofs_amount, is_pending, unit_eq, BasicKeysetResponse,
}
use nutmix.Cashu.Fees.{fees}
use nutmix.Cashu.Convert.{unit_from_string}
use nutmix.Cashu.SpendCondition.SigAll.{proofs_have_sig_all, validate_melt_sigflag}
use nutmix.Cashu.SpendCondition.Verify.{verify_proofs_spend_conditions}
use nutmix.Mint.Environment.{Environment}
use nutmix.Mint.Exec.{World}
use nutmix.Mint.Exec.Returns.{Returns-elim, lift-Returns, pure-Returns}
use nutmix.Mint.Units.{check_proofs_are_same_unit}
use nutmix.Mint.Melt.Reserve.{Bolt11MeltData, validate_bolt11_melt_inputs}

-- The terms of a melt that is accepted.
pub record Funded (e : Environment) (r : PostMeltBolt11Request) (q : MeltRequestDb)
    (d : Bolt11MeltData) : Type 0 where
  pub keysets : List BasicKeysetResponse
  pub have_inputs : is_empty r.inputs ≡ false
  pub not_pending : is_pending q.state ≡ false
  pub not_melted : q.melted ≡ false
  pub signer_keysets : e.signer.get_keysets ≡ ok keysets
  pub fee_due : fees r.inputs keysets ≡ ok d.fee.amount
  pub enough : add64 (add64 q.amount q.fee_reserve) d.fee.amount ≤ proofs_amount r.inputs
  pub quote_unit : unit_from_string e.x q.unit ≡ ok d.unit
  pub proofs_unit : check_proofs_are_same_unit e.x r.inputs keysets ≡ ok d.fee.unit
  pub same_unit : unit_eq d.unit d.fee.unit ≡ true
  pub signatures : e.signer.verify_proofs r.inputs ≡ ok tt
  pub checked_at : ℕ
  pub sig_all : Bool
  pub has_sig_all : proofs_have_sig_all e.x r.inputs ≡ ok sig_all
  pub conditions :
      (if sig_all
        then validate_melt_sigflag e.x checked_at r
        else verify_proofs_spend_conditions e.x checked_at r.inputs)
      ≡ ok tt
  pub worth : d.amount_proofs.amount ≡ proofs_amount r.inputs

-- If the inputs of a melt are accepted, then there are some, the quote is neither pending nor
-- melted, the inputs cover the amount, the fee reserve and the input fee (in unsigned 64-bit words),
-- their keysets have one unit, which is that of the quote, and their signatures and spend conditions
-- are verified.
pub validate_bolt11_melt_inputs-Funded :
    (e : Environment) (r : PostMeltBolt11Request) (q : MeltRequestDb) (w w' : World)
    (d : Bolt11MeltData)
    → validate_bolt11_melt_inputs e r q w ≡ (ok d, w')
    → Funded e r q d
unfolding validate_bolt11_melt_inputs
validate_bolt11_melt_inputs-Funded e r q w w' d h = Returns-elim _ _ h λ _ w1 filled h.
    Returns-elim _ _ h λ _ w2 idle h. Returns-elim _ _ h λ _ w3 unmelted h.
      Returns-elim _ _ h λ keysets w4 known h. Returns-elim _ _ h λ fee w5 due h.
        Returns-elim _ _ h λ _ w6 enough h. Returns-elim _ _ h λ unit w7 unit_is h.
          Returns-elim _ _ h λ proof_unit w8 proofs_unit h. Returns-elim _ _ h λ _ w9 _ h.
            Returns-elim _ _ h λ _ w10 verified h. Returns-elim _ _ h λ now w11 _ h.
              Returns-elim _ _ h λ sig_all w12 has_sig_all h.
                Returns-elim _ _ h λ _ w13 conditions h. Returns-elim _ _ h λ _ w14 same h.
                  let (data_is, _) = pure-Returns h in
                  let equal : unit_eq unit proof_unit ≡ true =
                    ground (arith, fail_if-eq-ok _ _ (lift-Returns same).0) in
                  let covered : add64 (add64 q.amount q.fee_reserve) fee ≤ proofs_amount r.inputs =
                    ground (arith, fail_if-eq-ok _ _ (lift-Returns enough).0) in
                  let fee_is : d.fee.amount ≡ fee = cc in
                  let unit_is' : d.unit ≡ unit = cc in
                  let proof_unit_is : d.fee.unit ≡ proof_unit = cc in
                  record {
                    keysets = keysets;
                    have_inputs = fail_if-eq-ok _ _ (lift-Returns filled).0;
                    not_pending = fail_if-eq-ok _ _ (lift-Returns idle).0;
                    not_melted = fail_if-eq-ok _ _ (lift-Returns unmelted).0;
                    signer_keysets = (lift-Returns known).0;
                    fee_due = cc ((lift-Returns due).0);
                    enough =
                        subst (λ f. add64 (add64 q.amount q.fee_reserve) f ≤ proofs_amount r.inputs)
                          (sym fee_is) covered;
                    quote_unit = cc ((lift-Returns unit_is).0);
                    proofs_unit = cc ((lift-Returns proofs_unit).0);
                    same_unit = rw (unit_is', proof_unit_is) equal;
                    signatures = (lift-Returns verified).0;
                    checked_at = now;
                    sig_all = sig_all;
                    has_sig_all = (lift-Returns has_sig_all).0;
                    conditions = (lift-Returns conditions).0;
                    worth = cc;
                  }
