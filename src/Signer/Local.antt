-- ===== src/Signer/Local.antt =====
-- The local signer at work (internal/signer/local_signer/signer.go): signatures on outputs, the
-- check of proofs, and what it is behind the interface that the mint calls.
pub mod Signed
use nutmix.Prelude.{
  ℕ, suc, String, List, [], ◌∷◌, Bool, Option, none, some, not, ◌&&◌, str_eq, ◌==◌, if◌then◌else◌,
  lookup,
}
use nutmix.Cashu.Errors.{
  Result, ok, err, panic, ◌>>=◌, join, fail_if, keyset_not_know, using_inactive_keyset,
  invalid_blind_message, invalid_proof,
}
use nutmix.Cashu.Types.{
  MintKey, Seed, Proof, BlindedMessage, BlindSignature, RecoverSigDb, BasicKeysetResponse,
  PublicKey,
}
use nutmix.Cashu.Externals.{Externals}
use nutmix.Crypto.Curve.{Curve}
use nutmix.Crypto.Dleq.{generate_blind_signature}
use nutmix.Mint.Environment.{Signer}
use nutmix.Signer.Library.{KeyLibrary}
use nutmix.Signer.Keysets.{MintKeysMap, Keysets}

pub record LocalSigner : Type 0 where
  pub active_keysets : Keysets
  pub keysets : Keysets
  pub pubkey : PublicKey

abbrev known : {A : Type 0} → Option A → Result A
known none = err (keyset_not_know ∷ [])
known (some a) = ok a

abbrev recovery_sig : ℕ → BlindedMessage → BlindSignature → RecoverSigDb
recovery_sig now output sig = record {
  b_ = output.b_;
  c_ = sig.c_;
  dleq = sig.dleq;
  id = output.id;
  melt_quote = "";
  amount = output.amount;
  created_at = now;
}

module _ (x : Externals) (l : KeyLibrary) {P S : Type 0} (c : Curve P S) where
  -- One round of SignBlindMessages: the output at a place of the request.
  unfoldable pub sign_output :
      LocalSigner → ℕ → ℕ → BlindedMessage → Result (BlindSignature × RecoverSigDb)
  sign_output s now i output = known (lookup str_eq output.id s.active_keysets) >>= λ keys.
      known (lookup ◌==◌ output.amount keys) >>= λ key. known key.priv_key >>= λ priv_key.
      fail_if (not key.active) (using_inactive_keyset ∷ []) >>= λ _.
      join invalid_blind_message
        (generate_blind_signature x c (l.random_bytes i) output (c.scalar_of priv_key))
      >>= λ sig. ok (sig, recovery_sig now output sig)

  sign_from :
      LocalSigner → ℕ → ℕ → List BlindedMessage → Result (List BlindSignature × List RecoverSigDb)
  unfolding sign_output
  sign_from s now i [] = ok ([], [])
  sign_from s now i (output ∷ outputs) = sign_output s now i output >>= λ made.
      sign_from s now (suc i) outputs >>= λ rest. ok (made.0 ∷ rest.0, made.1 ∷ rest.1)

  -- SignBlindMessages
  unfoldable pub sign_blind_messages :
      LocalSigner → ℕ → List BlindedMessage → Result (List BlindSignature × List RecoverSigDb)
  unfolding sign_from
  sign_blind_messages s now outputs = sign_from s now 0 outputs

-- The first key of a keyset with the amount and the id of a proof.
find_key : Proof → MintKeysMap → Option MintKey
find_key p [] = none
find_key p ((_, k) ∷ keys) =
    if k.amount == p.amount && str_eq k.id p.id then some k else find_key p keys

-- A key with an empty id counts as none.
abbrev assigned : Option MintKey → Option MintKey
assigned none = none
assigned (some k) = if str_eq k.id "" then none else some k

module _ (l : KeyLibrary) where
  verify_with : Option String → Proof → Result (Unit {0})
  verify_with none p = panic
  verify_with (some key) p = fail_if (not (l.verify_proof p.secret key p.c)) (invalid_proof ∷ [])

  -- validateProof
  unfoldable pub validate_proof : LocalSigner → Proof → Result (Unit {0})
  unfolding find_key verify_with
  validate_proof s p = known (lookup str_eq p.id s.keysets) >>= λ keys.
      known (assigned (find_key p keys)) >>= λ key. verify_with key.priv_key p

  -- VerifyProofs
  unfoldable pub verify_proofs : LocalSigner → List Proof → Result (Unit {0})
  unfolding validate_proof
  verify_proofs s [] = ok tt
  verify_proofs s (p ∷ ps) = validate_proof s p >>= λ _. verify_proofs s ps

-- GetSignerPubkey
unfoldable pub get_signer_pubkey : Externals → LocalSigner → String
get_signer_pubkey x s = x.hex_encode s.pubkey

-- GetKeysets and GetAuthKeys (the units other than auth, and auth) for the seeds that GetAllSeeds
-- answers.
abbrev basic_response : Seed → BasicKeysetResponse
basic_response s = record {
  final_expiry = s.final_expiry;
  id = s.id;
  unit = s.unit;
  input_fee_ppk = s.input_fee_ppk;
  version = s.version;
  active = s.active;
}

unfoldable pub get_keysets : List Seed → List BasicKeysetResponse
get_keysets [] = []
get_keysets (s ∷ ss) =
    let rest = get_keysets ss in
    if not (str_eq s.unit "auth") then basic_response s ∷ rest else rest

unfoldable pub get_auth_keys : List Seed → List BasicKeysetResponse
get_auth_keys [] = []
get_auth_keys (s ∷ ss) =
    let rest = get_auth_keys ss in if str_eq s.unit "auth" then basic_response s ∷ rest else rest

-- The local signer behind signer.Signer, over the seeds that are stored.
unfoldable pub local_interface :
    Externals → KeyLibrary → {P S : Type 0} → Curve P S → LocalSigner → List Seed → Signer
local_interface x l c s seeds = record {
  get_keysets = ok (get_keysets seeds);
  sign_blind_messages = sign_blind_messages x l c s;
  verify_proofs = verify_proofs l s;
}
