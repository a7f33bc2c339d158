-- ===== src/Cashu/Externals.antt =====
-- What api/cashu calls and does not implement: encoding/json, encoding/hex, crypto/sha256,
-- strconv, strings, math and the secp256k1 libraries. No field has a definition here; a theorem
-- that relies on documented behaviour of one takes that behaviour as a hypothesis.
use nutmix.Prelude.{ℕ, String, Bool, Option, List}
use nutmix.Cashu.Types.{PublicKey, Signature}

pub record Externals : Type 0 where
  -- strings.ToLower, strings.Trim(_, " ")
  pub to_lower : String → String
  pub trim_spaces : String → String
  -- uint64(math.Floor(float64(n) / 1000))
  pub floor_thousandth : ℕ → ℕ
  -- hex.DecodeString and hex.EncodeToString; a byte string is a text
  pub hex_decode : String → Option String
  pub hex_encode : String → String
  -- sha256.Sum256
  pub sha256 : String → String
  -- len of a text in bytes
  pub len : String → ℕ
  -- strconv.ParseUint(_, 10, 64) and strconv.FormatUint(_, 10)
  pub parse_uint : String → Option ℕ
  pub format_uint : ℕ → String
  -- btcec.ParsePubKey, to the compressed serialisation of the point
  pub parse_pub_key : String → Option PublicKey
  -- schnorr.ParseSignature and Signature.Verify(hash, key)
  pub parse_signature : String → Option Signature
  pub verify : Signature → String → PublicKey → Bool
  -- json.Unmarshal into []json.RawMessage, string and [][]string
  pub json_array : String → Option (List String)
  pub json_string : String → Option String
  pub json_strings : String → Option (List (List String))
  -- json.Unmarshal of an object into { Nonce, Data string; Tags }, with the raw text of the tags
  -- if the object has them
  pub json_condition_data : String → Option (String × String × Option String)
  -- json.Unmarshal of an object into { preimage string; signatures []string }
  pub json_witness : String → Option (String × List String)
  -- binary.LittleEndian.PutUint32 into four bytes
  pub little_endian : ℕ → String
