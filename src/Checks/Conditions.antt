-- ===== src/Checks/Conditions.antt =====
-- Examples for spend conditions.
use mathlib.Core.List.Perm
use nutmix.Prelude.{
  String, [], ◌∷◌, ◌++◌, ◌≡◌, refl, true, ◌||◌, All, inl, count_if, if◌then◌else◌, is_empty, leb,
}
use nutmix.Cashu.Errors.{ok, err, ◌>>=◌, could_not_parse_spend_condition}
use nutmix.Cashu.SpendCondition.{
  SpendCondition, Witness, p2pk, htlc, no_tags, parse_spend_condition, parse_witness,
  verify_preimage, spend_condition_type_unmarshal_json, witness_unmarshal_json,
}
use nutmix.Cashu.SpendCondition.Signatures.{
  count_signatures, is_signed, count_signatures-eq-count_if, count_signatures-perm,
}
use nutmix.Cashu.SpendCondition.Verify.{
  pubkeys_for_verification, pubkeys_for_refund, required_from, verify_p2pk, verify_htlc,
}
use nutmix.Cashu.SpendCondition.Verify.Quorum.{
  verify_p2pk-quorum, verify_htlc-quorum, refund_quorum, signers, shortage,
}
use nutmix.Cashu.SpendCondition.SigAll.{verify_swap_repetition}
use nutmix.Cashu.SpendCondition.SigAll.Repetition.{
  Matches, verify_swap_repetition-skip, verify_swap_repetition-Matches,
}
use nutmix.Checks.Fixtures.{plain, proof}

abbrev lock_of : String → SpendCondition
lock_of owner = record { type = p2pk; nonce = "nonce"; payload = owner; tags = no_tags plain }

abbrev hash_lock : SpendCondition
hash_lock = record { type = htlc; nonce = "nonce"; payload = "preimage"; tags = no_tags plain }

abbrev far_lock : SpendCondition
far_lock = record (lock_of "owner") {
  tags = record (no_tags plain) { locktime = 9223372036854775808 };
}

abbrev signed_by_owner : Witness
signed_by_owner = record { preimage = "preimage"; signatures = "owner" ∷ [] }

parsed : parse_spend_condition plain (proof "lock") ≡ ok (lock_of "owner")
unfolding parse_spend_condition spend_condition_type_unmarshal_json
parsed = refl

unlocked : parse_spend_condition plain (proof "text") ≡ err (could_not_parse_spend_condition ∷ [])
unfolding parse_spend_condition
unlocked = refl

witness_parsed : parse_witness plain (proof "lock") ≡ ok signed_by_owner
unfolding parse_witness witness_unmarshal_json
witness_parsed = refl

owner_keys : pubkeys_for_verification plain (lock_of "owner") ≡ ok ("owner" ∷ [])
unfolding pubkeys_for_verification
owner_keys = refl

hash_lock_keys : pubkeys_for_verification plain hash_lock ≡ ok []
unfolding pubkeys_for_verification
hash_lock_keys = refl

count_signatures-eq-count_if_example :
    count_signatures plain "hash" ("a" ∷ "a" ∷ "b" ∷ []) ("a" ∷ "b" ∷ "c" ∷ [])
    ≡ ok (count_if (is_signed plain "hash" ("a" ∷ "a" ∷ "b" ∷ [])) ("a" ∷ "b" ∷ "c" ∷ []))
count_signatures-eq-count_if_example =
    count_signatures-eq-count_if plain "hash" ("a" ∷ "a" ∷ "b" ∷ []) ("a" ∷ "b" ∷ "c" ∷ [])
      (refl, (refl, (refl, tt)))

count_signatures-perm_example :
    count_signatures plain "hash" ("a" ∷ []) ("a" ∷ "b" ∷ [])
    ≡ count_signatures plain "hash" ("a" ∷ []) ("b" ∷ "a" ∷ [])
count_signatures-perm_example =
    count_signatures-perm plain "hash" ("a" ∷ []) ("a" ∷ "b" ∷ []) ("b" ∷ "a" ∷ [])
      (refl, (refl, tt)) (refl, (refl, tt)) (Perm.swap "b" "a" [])

verify_p2pk-quorum_example : verify_p2pk plain 1000 (proof "lock") (lock_of "owner") ≡ (
    if refund_quorum plain (proof "lock") (lock_of "owner") signed_by_owner 1000
      || leb
          (required_from 1 0)
          (signers plain (proof "lock") (lock_of "owner") signed_by_owner ("owner" ∷ []))
    then ok true
    else err
        (shortage (signers plain (proof "lock") (lock_of "owner") signed_by_owner ("owner" ∷ []))))
unfolding pubkeys_for_refund
verify_p2pk-quorum_example =
    verify_p2pk-quorum plain 1000 (proof "lock") (lock_of "owner") signed_by_owner ("owner" ∷ [])
      witness_parsed owner_keys (refl, tt) tt

verify_htlc-quorum_example : verify_htlc plain 1000 (proof "lock") hash_lock ≡ (
    if refund_quorum plain (proof "lock") hash_lock signed_by_owner 1000
    then ok true
    else (verify_preimage plain hash_lock signed_by_owner >>= λ _.
        if is_empty {A = String} []
          || leb (required_from 1 0) (signers plain (proof "lock") hash_lock signed_by_owner [])
        then ok true
        else err (shortage (signers plain (proof "lock") hash_lock signed_by_owner []))))
unfolding pubkeys_for_refund
verify_htlc-quorum_example =
    verify_htlc-quorum plain 1000 (proof "lock") hash_lock signed_by_owner [] witness_parsed
      hash_lock_keys tt tt

-- The third input is locked by another key, and the second carries no lock.
verify_swap_repetition-skip_example :
    verify_swap_repetition plain (proof "lock" ∷ [] ++ proof "text" ∷ proof "other lock" ∷ [])
    ≡ ok tt
verify_swap_repetition-skip_example =
    verify_swap_repetition-skip plain (proof "lock") (proof "text") (lock_of "owner") []
      (proof "other lock" ∷ []) (could_not_parse_spend_condition ∷ []) parsed tt unlocked

repeated : verify_swap_repetition plain (proof "lock" ∷ proof "lock" ∷ []) ≡ ok tt
unfolding verify_swap_repetition parse_spend_condition spend_condition_type_unmarshal_json
repeated = refl

verify_swap_repetition-Matches_example : All (Matches plain (lock_of "owner")) (proof "lock" ∷ [])
verify_swap_repetition-Matches_example =
    verify_swap_repetition-Matches plain (proof "lock") (lock_of "owner") (proof "lock" ∷ []) parsed
      ((lock_of "owner", parsed), tt) (inl repeated)
