-- ===== src/Crypto.antt =====
-- HashToCurve (pkg/crypto/bdhke.go).
pub mod Curve
pub mod Blinding
pub mod Dleq
use Prim.Native.String.{◌++◌}
use nutmix.Prelude.{ℕ, zero, suc, ◌+◌, String, [], none, some}
use nutmix.Cashu.Errors.{Result, ok, err}
use nutmix.Cashu.Types.{PublicKey}
use nutmix.Cashu.Externals.{Externals}

module _ (x : Externals) where
  -- The rounds left, 2 ^ 16 at first, and the counter. A text that ParsePubKey accepts is a point on
  -- the curve, so the test IsOnCurve does not fail behind it.
  hash_rounds : ℕ → ℕ → String → Result PublicKey
  hash_rounds zero counter hashed = err []
  hash_rounds (suc left) counter hashed =
      elim (x.parse_pub_key ("\u{2}" ++ x.sha256 (hashed ++ x.little_endian counter))) [
        | some point ↦ ok point
        | none ↦ hash_rounds left (counter + 1) hashed
      ]

  unfoldable pub hash_to_curve : String → Result PublicKey
  unfolding hash_rounds
  hash_to_curve message = hash_rounds 65536 0 (x.sha256 ("Secp256k1_HashToCurve_Cashu_" ++ message))
