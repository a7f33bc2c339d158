-- ===== src/Crypto/Dleq.antt =====
-- The proof that the mint signed with the key that it published, by equal discrete logarithms:
-- GenerateDLEQ, VerifyDLEQ and GenerateBlindSignature (api/cashu/types.go), Hash_e
-- (pkg/crypto/bdhke.go).
use Prim.Native.String.{◌++◌}
use nutmix.Prelude.{
  String, List, [], ◌∷◌, Bool, true, false, ◌≡◌, ◌∙◌, ap, Option, none, some, str_eq, if◌then◌else◌,
}
use nutmix.Cashu.Errors.{Result, ok, err, panic, ◌>>=◌, >>=-elim}
use nutmix.Cashu.Types.{BlindedMessage, BlindSignature, BlindSignatureDleq}
use nutmix.Cashu.Externals.{Externals}
use nutmix.Crypto.Curve.{Curve, CurveLaws}
use nutmix.Crypto.Blinding.{sign_blinded_message, cancel}

module _ (x : Externals) {P S : Type 0} (c : Curve P S) where
  joined : List P → String
  joined [] = ""
  joined (p ∷ ps) = x.hex_encode (c.uncompressed p) ++ joined ps

  -- Hash_e, with the key that PrivKeyFromBytes makes of the hash
  unfoldable pub hash_e : List P → S
  unfolding joined
  hash_e points = c.scalar_of (x.sha256 (joined points))

  -- GenerateDLEQ for the signature point `c_`, with the bytes that `rand.Read` fills.
  unfoldable pub generate_dleq : Option String → P → P → S → Result (S × S)
  generate_dleq none c_ b_ a = err []
  generate_dleq (some random) c_ b_ a =
      let r = c.scalar_of random in
      let e = hash_e (c.base r ∷ c.scale r b_ ∷ c.base a ∷ c_ ∷ []) in
      ok (e, c.sum r (c.product e a))

  -- VerifyDLEQ for the signature point `c_`, with what it leaves in the caller's `e`: the key is
  -- negated in place.
  unfoldable pub verify_dleq : P → P → S → S → P → Bool × S
  verify_dleq c_ b_ e s a =
      let n = c.negate e in
      let r1 = c.add (c.base s) (c.scale n a) in
      let r2 = c.add (c.scale s b_) (c.scale n c_) in
      (c.scalar_eq (c.negate (hash_e (r1 ∷ r2 ∷ a ∷ c_ ∷ []))) n, n)

  abbrev pub with_dleq : BlindedMessage → P → S × S → Result BlindSignature
  with_dleq m point dleq = ok (record {
    c_ = c.encode point;
    dleq = some (record { e = c.scalar_text dleq.0; s = c.scalar_text dleq.1 });
    id = m.id;
    amount = m.amount;
  })

  -- GenerateBlindSignature; a nil point is dereferenced by SignBlindedMessage.
  unfoldable pub generate_blind_signature :
      Option String → BlindedMessage → S → Result BlindSignature
  generate_blind_signature random m k =
      if str_eq m.b_ ""
      then panic
      else (let point = sign_blinded_message c (c.decode m.b_) k in
          generate_dleq random point (c.decode m.b_) k >>= with_dleq m point)

module _ (x : Externals) {P S : Type 0} (c : Curve P S) (laws : CurveLaws c) where
  -- (r + e a) q - e (a q) = r q
  recovered :
      (r e a : S) (q : P)
      → c.add (c.scale (c.sum r (c.product e a)) q) (c.scale (c.negate e) (c.scale a q))
        ≡ c.scale r q
  recovered r e a q =
      ap (λ p. c.add p (c.scale (c.negate e) (c.scale a q)))
        (laws.sum_scale r (c.product e a) q
          ∙ ap (λ p. c.add (c.scale r q) p) (laws.product_scale e a q))
      ∙ cancel c laws (c.scale r q) (c.scale a q) e

  answered :
      (random : Option String) (b_ : P) (a e s : S)
      → generate_dleq x c random (c.scale a b_) b_ a ≡ ok (e, s)
      → (verify_dleq x c (c.scale a b_) b_ e s (c.base a)).0 ≡ true
  unfolding generate_dleq verify_dleq
  answered none b_ a e s h = absurd (cc)
  answered (some random) b_ a e s h =
      let r = c.scalar_of random in
      let challenge : e ≡ hash_e x c (c.base r ∷ c.scale r b_ ∷ c.base a ∷ c.scale a b_ ∷ []) =
        cc in
      let response : s ≡ c.sum r (c.product e a) = cc in
      let base_s = laws.base_scale s in
      let base_a = laws.base_scale a in
      let base_r = laws.base_scale r in
      let on_generator = recovered r e a laws.generator in
      let on_message = recovered r e a b_ in
      let r1 : c.add (c.base s) (c.scale (c.negate e) (c.base a)) ≡ c.base r = cc in
      let r2 : c.add (c.scale s b_) (c.scale (c.negate e) (c.scale a b_)) ≡ c.scale r b_ = cc in
      rw (r1, r2, ← challenge) (laws.scalar_eq_refl (c.negate e))

  -- The discrete-log proof of a blind signature that is made with the key `k` verifies, once, for
  -- the output and the public key of `k`, if the points are a group on which the scalars act.
  pub verify_dleq-generate_blind_signature :
      (random : Option String) (m : BlindedMessage) (k : S) (sig : BlindSignature)
      → generate_blind_signature x c random m k ≡ ok sig
      → (d : BlindSignatureDleq) × (sig.dleq ≡ some d)
        × ((verify_dleq x c
              (c.decode sig.c_)
              (c.decode m.b_)
              (c.scalar_of d.e)
              (c.scalar_of d.s)
              (c.base k)).0
            ≡ true)
  unfolding generate_blind_signature sign_blinded_message
  verify_dleq-generate_blind_signature random m k sig h = judged (str_eq m.b_ "") h
    where
      point : P
      point = c.scale k (c.decode m.b_)

      judged :
          (nil : Bool)
          → (if nil
              then panic
              else (generate_dleq x c random point (c.decode m.b_) k >>= with_dleq x c m point))
            ≡ ok sig
          → (d : BlindSignatureDleq) × (sig.dleq ≡ some d)
            × ((verify_dleq x c
                  (c.decode sig.c_)
                  (c.decode m.b_)
                  (c.scalar_of d.e)
                  (c.scalar_of d.s)
                  (c.base k)).0
                ≡ true)
      judged true h = absurd (cc)
      judged false h = >>=-elim (generate_dleq x c random point (c.decode m.b_) k) _ h λ d made h.
          let verified = answered random (c.decode m.b_) k d.0 d.1 made in
          let e_is = laws.scalar_of_text d.0 in
          let s_is = laws.scalar_of_text d.1 in
          let point_is = laws.decode_encode point in
          let sig_is : sig ≡ record {
            c_ = c.encode point;
            dleq = some (record { e = c.scalar_text d.0; s = c.scalar_text d.1 });
            id = m.id;
            amount = m.amount;
          } =
            cc in
          (record { e = c.scalar_text d.0; s = c.scalar_text d.1 }, cc, cc)
