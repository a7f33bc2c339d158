-- ===== src/Crypto/Blinding.antt =====
-- The blind Diffie-Hellman key exchange (pkg/crypto/bdhke.go): what a wallet and the mint do with a
-- secret, and the check of an unblinded signature.
use nutmix.Prelude.{String, Bool, true, false, ◌≡◌, ◌∙◌, ap, sym}
use nutmix.Cashu.Errors.{Result, ok, err, panic, ◌>>=◌}
use nutmix.Cashu.Types.{PublicKey}
use nutmix.Cashu.Externals.{Externals}
use nutmix.Crypto.{hash_to_curve}
use nutmix.Crypto.Curve.{Curve, CurveLaws}

module _ {P S : Type 0} (c : Curve P S) where
  -- SignBlindedMessage: C_ = kB_
  unfoldable pub sign_blinded_message : P → S → P
  sign_blinded_message b_ k = c.scale k b_

  -- UnblindSignature: C = C_ - rK
  unfoldable pub unblind_signature : P → S → P → P
  unblind_signature c_ r k = c.add c_ (c.scale (c.negate r) k)

  -- The unexported `verify`: k * HashToCurve(secret) == C
  verify_point : P → S → P → Bool
  verify_point y k point = c.point_eq point (c.scale k y)

  verify_hashed : Result PublicKey → S → P → Bool
  unfolding verify_point
  verify_hashed (ok y) k point = verify_point (c.decode y) k point
  verify_hashed _ k point = false

  abbrev blind_with : S → PublicKey → Result (P × S)
  blind_with r y = ok (c.add (c.decode y) (c.base r), r)

  module _ (x : Externals) where
    -- BlindMessage: B_ = Y + rG
    unfoldable pub blind_message : String → S → Result (P × S)
    blind_message secret r = hash_to_curve x secret >>= blind_with r

    -- Verify
    unfoldable pub verify : String → S → P → Bool
    unfolding verify_hashed
    verify secret k point = verify_hashed (hash_to_curve x secret) k point

module _ {P S : Type 0} (c : Curve P S) (laws : CurveLaws c) where
  scale_swap : (a b : S) (p : P) → c.scale a (c.scale b p) ≡ c.scale b (c.scale a p)
  scale_swap a b p =
      sym (laws.product_scale a b p)
      ∙ ap (λ s. c.scale s p) (laws.product_comm a b)
      ∙ laws.product_scale b a p

  -- What is added and taken away again leaves the point.
  pub cancel : (p q : P) (a : S) → c.add (c.add p (c.scale a q)) (c.scale (c.negate a) q) ≡ p
  cancel p q a =
      laws.add_assoc p (c.scale a q) (c.scale (c.negate a) q)
      ∙ ap (λ s. c.add p s) (laws.scale_negate a q)
      ∙ laws.add_zero p

  unblinded :
      (y : P) (r k : S)
      → unblind_signature c (sign_blinded_message c (c.add y (c.base r)) k) r (c.base k)
        ≡ c.scale k y
  unfolding unblind_signature sign_blinded_message
  unblinded y r k =
      let blinded : c.scale k (c.add y (c.base r)) ≡ c.add (c.scale k y) (c.scale r (c.base k)) =
        laws.scale_add k y (c.base r)
        ∙ ap (λ g. c.add (c.scale k y) (c.scale k g)) (laws.base_scale r)
        ∙ ap (λ g. c.add (c.scale k y) g) (scale_swap k r laws.generator)
        ∙ ap (λ g. c.add (c.scale k y) (c.scale r g)) (sym (laws.base_scale k)) in
      ap (λ s. c.add s (c.scale (c.negate r) (c.base k))) blinded
      ∙ cancel (c.scale k y) (c.base k) r

  -- A wallet that blinds a secret, has it signed with the key `k` and unblinds the signature has a
  -- proof that verifies under `k`, whatever the blinding factor, if the points are a group on which
  -- the scalars act.
  pub verify-unblind_signature :
      (x : Externals) (secret : String) (r k : S) (b_ : P)
      → blind_message c x secret r ≡ ok (b_, r)
      → verify c x secret k (unblind_signature c (sign_blinded_message c b_ k) r (c.base k)) ≡ true
  unfolding blind_message verify verify_hashed verify_point
  verify-unblind_signature x secret r k b_ h = judged (hash_to_curve x secret) h
    where
      judged :
          (y : Result PublicKey)
          → (y >>= blind_with c r) ≡ ok (b_, r)
          → verify_hashed c y k (unblind_signature c (sign_blinded_message c b_ k) r (c.base k))
            ≡ true
      judged (ok y) h =
          let point : b_ ≡ c.add (c.decode y) (c.base r) = cc in
          let same = unblinded (c.decode y) r k in
          let here : unblind_signature c (sign_blinded_message c b_ k) r (c.base k)
              ≡ c.scale k (c.decode y) =
            cc in
          rw here (laws.point_eq_refl _)
      judged (err e) h = cc
      judged panic h = cc
