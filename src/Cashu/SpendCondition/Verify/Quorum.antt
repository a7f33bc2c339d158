-- ===== src/Cashu/SpendCondition/Verify/Quorum.antt =====
-- What it takes to spend a locked proof: a quorum of signatures.
use nutmix.Prelude.{
  ℕ, ◌≤◌, ◌<◌, List, [], ◌∷◌, ◌≡◌, ap, Bool, true, ◌&&◌, ◌||◌, if◌then◌else◌, leb, ◌==◌, count_if,
  arith, is_empty,
}
use nutmix.Cashu.Errors.{Result, ok, err, Error, ◌>>=◌, no_valid_signatures, not_enough_signatures}
use nutmix.Cashu.Types.{Proof, PublicKey}
use nutmix.Cashu.Externals.{Externals}
use nutmix.Cashu.SpendCondition.{SpendCondition, Witness, parse_witness, verify_preimage}
use nutmix.Cashu.SpendCondition.Signatures.{AreParsable, is_signed, count_signatures-eq-count_if}
use nutmix.Cashu.SpendCondition.Verify.{
  timelock_passed, pubkeys_for_refund, enough_signatures, required_from, refund_required,
  pubkeys_for_verification, verify_p2pk_spend_condition, verify_htlc_spend_condition,
  verify_timelock_passed_spend_condition, is_valid, verify_p2pk, verify_htlc, i64_limit,
}

-- The error of a quorum that is missed: no valid signature, or too few.
abbrev pub shortage : ℕ → Error
shortage valid = (if valid == 0 then no_valid_signatures else not_enough_signatures) ∷ []

enough_signatures_lem :
    (valid required : ℕ)
    → 0 < required
    → enough_signatures valid required
      ≡ (if leb required valid then ok true else err (shortage valid))
unfolding enough_signatures
enough_signatures_lem valid required h = ground arith

-- Any lock time of 2 ^ 63 or more counts as passed at once.
pub timelock_passed_wraps :
    (now : ℕ) (sc : SpendCondition) → i64_limit ≤ sc.tags.locktime → timelock_passed now sc ≡ true
unfolding timelock_passed
timelock_passed_wraps now sc h = ground arith

module _ (x : Externals) (p : Proof) (sc : SpendCondition) (w : Witness) where
  -- How many of the keys have a valid signature of the proof's secret in the witness.
  abbrev pub signers : List PublicKey → ℕ
  signers keys = count_if (is_signed x (x.sha256 p.secret) w.signatures) keys

  abbrev pub refund_quorum : ℕ → Bool
  refund_quorum now =
      timelock_passed now sc && leb (refund_required sc) (signers (pubkeys_for_refund sc))

  refund_lem :
      AreParsable x (x.sha256 p.secret) (pubkeys_for_refund sc)
      → is_valid x (verify_timelock_passed_spend_condition x p sc w)
        ≡ leb (refund_required sc) (signers (pubkeys_for_refund sc))
  unfolding verify_timelock_passed_spend_condition enough_signatures
  refund_lem h =
      rw (count_signatures-eq-count_if x (x.sha256 p.secret) w.signatures (pubkeys_for_refund sc) h)
        (decide (refund_required sc) (signers (pubkeys_for_refund sc)))
    where
      decide :
          (required valid : ℕ)
          → is_valid x (if required == 0 then ok true else enough_signatures valid required)
            ≡ leb required valid
      decide required valid = ground arith

module _ (x : Externals) (now : ℕ) (p : Proof) (sc : SpendCondition) (w : Witness)
    (keys : List PublicKey) (witness : parse_witness x p ≡ ok w)
    (key_set : pubkeys_for_verification x sc ≡ ok keys)
    (parsable : AreParsable x (x.sha256 p.secret) keys)
    (refund_parsable : AreParsable x (x.sha256 p.secret) (pubkeys_for_refund sc)) where
  -- A P2PK proof whose witness and keys can be read is accepted if the lock time has passed and
  -- the refund keys reach their quorum, or if the keys reach theirs, which is at least one; in all
  -- other cases the error says whether no key or too few keys signed.
  pub verify_p2pk-quorum : verify_p2pk x now p sc ≡ (
      if refund_quorum x p sc w now || leb (required_from 1 sc.tags.n_sigs) (signers x p sc w keys)
      then ok true
      else err (shortage (signers x p sc w keys)))
  unfolding verify_p2pk verify_p2pk_spend_condition
  verify_p2pk-quorum =
      rw
        (
          witness,
          refund_lem x p sc w refund_parsable,
          key_set,
          count_signatures-eq-count_if x (x.sha256 p.secret) w.signatures keys parsable,
        )
        (ground
          (arith, enough_signatures_lem (signers x p sc w keys) (required_from 1 sc.tags.n_sigs)))

  -- An HTLC whose witness and keys can be read is accepted if the lock time has passed and the
  -- refund keys reach their quorum, or if the preimage hashes to the lock and the keys, where it
  -- names any, reach theirs. A wrong preimage or a missed quorum is an error.
  pub verify_htlc-quorum : verify_htlc x now p sc ≡ (
      if refund_quorum x p sc w now
      then ok true
      else (verify_preimage x sc w >>= λ _.
          if is_empty sc.tags.pubkeys
            || leb (required_from 1 sc.tags.n_sigs) (signers x p sc w keys)
          then ok true
          else err (shortage (signers x p sc w keys))))
  unfolding verify_htlc verify_htlc_spend_condition
  verify_htlc-quorum =
      rw
        (
          witness,
          refund_lem x p sc w refund_parsable,
          key_set,
          count_signatures-eq-count_if x (x.sha256 p.secret) w.signatures keys parsable,
        )
        (ap
          (λ (r : Result Bool).
            if refund_quorum x p sc w now then ok true else (verify_preimage x sc w >>= λ _. r))
          signed)
    where
      signed :
          (if is_empty sc.tags.pubkeys
            then ok true
            else enough_signatures (signers x p sc w keys) (required_from 1 sc.tags.n_sigs))
          ≡ (if is_empty sc.tags.pubkeys
                || leb (required_from 1 sc.tags.n_sigs) (signers x p sc w keys)
              then ok true
              else err (shortage (signers x p sc w keys)))
      signed =
          ground
            (arith, enough_signatures_lem (signers x p sc w keys) (required_from 1 sc.tags.n_sigs))
