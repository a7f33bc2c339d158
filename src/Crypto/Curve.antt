-- ===== src/Crypto/Curve.antt =====
-- The curve secp256k1, as pkg/crypto and api/cashu call its library: points, and the scalars that
-- private keys are. Nothing of it has a definition here; what a theorem relies on is in `CurveLaws`.
use nutmix.Prelude.{String, Bool, true, ◌≡◌}
use nutmix.Cashu.Types.{PublicKey}

pub record Curve (P S : Type 0) : Type 0 where
  -- AddNonConst and ScalarMultNonConst
  pub add : P → P → P
  pub scale : S → P → P
  -- PrivateKey.PubKey, the multiple of the generator
  pub base : S → P
  -- ModNScalar.Add, Mul and Negate
  pub sum : S → S → S
  pub product : S → S → S
  pub negate : S → S
  -- IsEqual, and the equality of two ModNScalar.String
  pub point_eq : P → P → Bool
  pub scalar_eq : S → S → Bool
  -- PrivKeyFromBytes and PrivateKey.Serialize
  pub scalar_of : String → S
  pub scalar_text : S → String
  -- ParsePubKey of a text that parses, SerializeCompressed and SerializeUncompressed
  pub decode : PublicKey → P
  pub encode : P → PublicKey
  pub uncompressed : P → String

-- The points are a group on which the scalars act, as every textbook on the curve has it, and
-- serialising loses nothing.
pub record CurveLaws {P S : Type 0} (c : Curve P S) : Type 0 where
  pub zero : P
  pub add_zero : (p : P) → c.add p zero ≡ p
  pub add_assoc : (p q r : P) → c.add (c.add p q) r ≡ c.add p (c.add q r)
  pub scale_add : (k : S) (p q : P) → c.scale k (c.add p q) ≡ c.add (c.scale k p) (c.scale k q)
  pub sum_scale : (a b : S) (p : P) → c.scale (c.sum a b) p ≡ c.add (c.scale a p) (c.scale b p)
  pub product_scale : (a b : S) (p : P) → c.scale (c.product a b) p ≡ c.scale a (c.scale b p)
  pub product_comm : (a b : S) → c.product a b ≡ c.product b a
  pub scale_negate : (a : S) (p : P) → c.add (c.scale a p) (c.scale (c.negate a) p) ≡ zero
  pub generator : P
  pub base_scale : (a : S) → c.base a ≡ c.scale a generator
  pub point_eq_refl : (p : P) → c.point_eq p p ≡ true
  pub scalar_eq_refl : (a : S) → c.scalar_eq a a ≡ true
  pub decode_encode : (p : P) → c.decode (c.encode p) ≡ p
  pub scalar_of_text : (a : S) → c.scalar_of (c.scalar_text a) ≡ a
