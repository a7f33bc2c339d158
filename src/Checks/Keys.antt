-- ===== src/Checks/Keys.antt =====
-- Examples for keys and signatures over a small curve: the group of two elements, on which the two
-- scalars act by multiplication.
use nutmix.Prelude.{String, Bool, true, false, not, ◌&&◌, some, ◌≡◌, refl, str_eq}
use nutmix.Cashu.Errors.{ok}
use nutmix.Cashu.Types.{BlindedMessage, BlindSignature, BlindSignatureDleq}
use nutmix.Crypto.{hash_to_curve}
use nutmix.Crypto.Curve.{Curve, CurveLaws}
use nutmix.Crypto.Blinding.{
  blind_message, sign_blinded_message, unblind_signature, verify, verify-unblind_signature,
}
use nutmix.Crypto.Dleq.{
  hash_e, generate_dleq, verify_dleq, generate_blind_signature,
  verify_dleq-generate_blind_signature,
}
use nutmix.Checks.Fixtures.{plain, output}

abbrev parity : Bool → Bool → Bool
parity true b = not b
parity false b = b

abbrev same : Bool → Bool → Bool
same a b = not (parity a b)

abbrev odd_text : String → Bool
odd_text s = str_eq s "odd"

abbrev text_of : Bool → String
text_of true = "odd"
text_of false = "even"

abbrev pub small : Curve Bool Bool
small = record {
  add = parity;
  scale = λ k p. k && p;
  base = λ k. k;
  sum = parity;
  product = λ a b. a && b;
  negate = λ a. a;
  point_eq = same;
  scalar_eq = same;
  scalar_of = odd_text;
  scalar_text = text_of;
  decode = odd_text;
  encode = text_of;
  uncompressed = text_of;
}

parity-false : (p : Bool) → parity p false ≡ p
parity-false true = refl
parity-false false = refl

parity_assoc : (p q r : Bool) → parity (parity p q) r ≡ parity p (parity q r)
parity_assoc true true true = refl
parity_assoc true true false = refl
parity_assoc true false r = refl
parity_assoc false q r = refl

and_parity : (k p q : Bool) → (k && parity p q) ≡ parity (k && p) (k && q)
and_parity true p q = refl
and_parity false p q = refl

parity_and : (a b p : Bool) → (parity a b && p) ≡ parity (a && p) (b && p)
parity_and true true true = refl
parity_and true true false = refl
parity_and true false true = refl
parity_and true false false = refl
parity_and false b p = refl

and_assoc : (a b p : Bool) → ((a && b) && p) ≡ (a && (b && p))
and_assoc true b p = refl
and_assoc false b p = refl

and_comm : (a b : Bool) → (a && b) ≡ (b && a)
and_comm true true = refl
and_comm true false = refl
and_comm false true = refl
and_comm false false = refl

parity_self : (a : Bool) → parity a a ≡ false
parity_self true = refl
parity_self false = refl

and_true : (a : Bool) → a ≡ (a && true)
and_true true = refl
and_true false = refl

same_self : (a : Bool) → same a a ≡ true
same_self true = refl
same_self false = refl

odd_text-text_of : (a : Bool) → odd_text (text_of a) ≡ a
odd_text-text_of true = refl
odd_text-text_of false = refl

small_laws : CurveLaws small
small_laws = record {
  zero = false;
  add_zero = parity-false;
  add_assoc = parity_assoc;
  scale_add = and_parity;
  sum_scale = parity_and;
  product_scale = and_assoc;
  product_comm = and_comm;
  scale_negate = λ a p. parity_self (a && p);
  generator = true;
  base_scale = and_true;
  point_eq_refl = same_self;
  scalar_eq_refl = same_self;
  decode_encode = odd_text-text_of;
  scalar_of_text = odd_text-text_of;
}

blinded : blind_message small plain "text" true ≡ ok (true, true)
unfolding blind_message hash_to_curve
blinded = refl

verify-unblind_signature_example :
    verify small plain "text" true
      (unblind_signature small (sign_blinded_message small true true) true true)
    ≡ true
verify-unblind_signature_example =
    verify-unblind_signature small small_laws plain "text" true true true blinded

abbrev odd_output : BlindedMessage
odd_output = record output { b_ = "odd" }

abbrev odd_signature : BlindSignature
odd_signature = record {
  c_ = "odd";
  dleq = some (record { e = "even"; s = "odd" });
  id = "ks";
  amount = 7;
}

signed_once : generate_blind_signature plain small (some "odd") odd_output true ≡ ok odd_signature
unfolding generate_blind_signature generate_dleq hash_e sign_blinded_message
signed_once = refl

verify_dleq-generate_blind_signature_example :
    (d : BlindSignatureDleq) × (odd_signature.dleq ≡ some d)
    × ((verify_dleq plain small
          (odd_text odd_signature.c_)
          (odd_text odd_output.b_)
          (odd_text d.e)
          (odd_text d.s)
          true).0
        ≡ true)
verify_dleq-generate_blind_signature_example =
    verify_dleq-generate_blind_signature plain small small_laws (some "odd") odd_output true
      odd_signature signed_once
