-- ===== src/Cashu/Auth.antt =====
-- Blind auth tokens (api/cashu/auth.go): the proof in a token and its decoding.
use text.Mathlib.Text.{get?}
use Prim.Native.String.{len}
use nutmix.Prelude.{ℕ, String, [], Bool, Option, none, some, str_eq, if◌then◌else◌}
use nutmix.Cashu.Errors.{Result, ok, err, panic}
use nutmix.Cashu.Types.{PublicKey, Proof, ProofState}

pub record AuthProof : Type 0 where
  pub c : PublicKey
  pub id : String
  pub secret : String
  pub amount : ℕ

-- What the code calls and does not implement: HashToCurve of gonuts, base64.URLEncoding and
-- RawURLEncoding, json.Unmarshal into an AuthProof, and regexp.Compile with MatchString (none for a
-- pattern that does not compile).
pub record AuthLibrary : Type 0 where
  pub hash_to_curve : String → Result PublicKey
  pub base64_url : String → Option String
  pub base64_raw_url : String → Option String
  pub json_auth_proof : String → Option AuthProof
  pub regexp_match : String → String → Option Bool

-- AuthProof.Proof, at the time `now`
unfoldable pub proof_of : AuthProof → PublicKey → ProofState → ℕ → Proof
proof_of a y state now = record {
  c = a.c;
  y = y;
  quote = none;
  id = a.id;
  secret = a.secret;
  witness = "";
  state = state;
  amount = a.amount;
  seen_at = now;
}

module _ (l : AuthLibrary) where
  token_bytes : String → Option String
  token_bytes text = elim (l.base64_url text) [
    | some bytes ↦ some bytes
    | none ↦ l.base64_raw_url text
  ]

  parsed : Option String → Result AuthProof
  parsed none = err []
  parsed (some bytes) = elim (l.json_auth_proof bytes) [ none ↦ err [] | some a ↦ ok a ]

  decode_parts : Option String → Option String → Result AuthProof
  unfolding token_bytes parsed
  decode_parts (some prefix) (some rest) =
      if str_eq prefix "authA" then parsed (token_bytes rest) else err []
  decode_parts _ _ = panic

  -- DecodeAuthToken; a text of less than five bytes is sliced out of range.
  unfoldable pub decode_auth_token : String → Result AuthProof
  unfolding decode_parts
  decode_auth_token text = decode_parts (get? text 0 5) (get? text 5 (len text))
