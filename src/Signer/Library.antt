-- ===== src/Signer/Library.antt =====
-- What the local signer calls and does not implement: strings, norm and strconv, hdkeychain and
-- bip32 for the derivation of keys, and the check of a proof by gonuts. An extended key is the text
-- of its serialisation, a private key likewise.
use nutmix.Prelude.{ℕ, String, Option, List, Bool}
use nutmix.Cashu.Types.{PublicKey}

pub record KeyLibrary : Type 0 where
  -- os.Getenv("MINT_PRIVATE_KEY")
  pub mint_private_key : String
  -- strings.TrimSpace, norm.NFC.String, strings.ToUpper, strings.Split
  pub trim_space : String → String
  pub nfc : String → String
  pub to_upper : String → String
  pub split : String → String → List String
  -- strconv.ParseUint(_, 10, 32)
  pub parse_uint32 : String → Option ℕ
  -- binary.BigEndian.Uint32 of the first four bytes
  pub big_endian : String → ℕ
  -- hdkeychain.NewMaster, ExtendedKey.Derive, ExtendedKey.ECPrivKey, ExtendedKey.ECPubKey with
  -- SerializeCompressed
  pub new_master : String → Option String
  pub derive : String → ℕ → Option String
  pub ec_priv_key : String → Option String
  pub ec_pub_key : String → Option PublicKey
  -- secp256k1.PrivKeyFromBytes(_).Serialize()
  pub normal_key : String → String
  -- bip32.NewMasterKey, Key.NewChildKey, Key.Key
  pub legacy_master : String → Option String
  pub new_child_key : String → ℕ → Option String
  pub key_bytes : String → String
  -- crypto.Verify of gonuts; it dereferences the private key
  pub verify_proof : String → String → PublicKey → Bool
  -- rand.Read, by the place of the output in its request
  pub random_bytes : ℕ → Option String
