-- ===== src/Signer/Local/Signed.antt =====
-- What the local signer has signed: SignBlindMessages (internal/signer/local_signer/signer.go).
use mathlib.Core.Path.{subst}
use nutmix.Prelude.{
  ℕ, suc, String, List, [], ◌∷◌, Bool, true, false, Option, none, some, not, ◌≡◌, refl, str_eq,
  ◌==◌, lookup, add64, arith, if◌then◌else◌,
}
use nutmix.Cashu.Errors.{
  Result, ok, err, panic, ◌>>=◌, >>=-elim, join, fail_if, fail_if-eq-ok, using_inactive_keyset,
  invalid_blind_message,
}
use nutmix.Cashu.Types.{
  MintKey, BlindedMessage, BlindSignature, RecoverSigDb, messages_amount, messages_amount_from,
}
use nutmix.Cashu.Externals.{Externals}
use nutmix.Crypto.Curve.{Curve}
use nutmix.Crypto.Blinding.{sign_blinded_message}
use nutmix.Crypto.Dleq.{generate_blind_signature, generate_dleq, with_dleq}
use nutmix.Signer.Library.{KeyLibrary}
use nutmix.Signer.Keysets.{MintKeysMap}
use nutmix.Signer.Local.{
  LocalSigner, known, recovery_sig, sign_output, sign_from, sign_blind_messages,
}

-- The amount of signatures, as unsigned 64-bit words.
abbrev signatures_amount_from : ℕ → List BlindSignature → ℕ
signatures_amount_from total [] = total
signatures_amount_from total (s ∷ ss) = signatures_amount_from (add64 total s.amount) ss

abbrev pub signatures_amount : List BlindSignature → ℕ
signatures_amount sigs = signatures_amount_from 0 sigs

-- The key of an active keyset that stands under an id and an amount.
pub record ActiveKey (s : LocalSigner) (id : String) (amount : ℕ) : Type 0 where
  pub keys : MintKeysMap
  pub key : MintKey
  pub priv_key : String
  pub keyset : lookup str_eq id s.active_keysets ≡ some keys
  pub held : lookup ◌==◌ amount keys ≡ some key
  pub private : key.priv_key ≡ some priv_key
  pub active : key.active ≡ true

module _ {P S : Type 0} (c : Curve P S) (s : LocalSigner) (now : ℕ) where
  -- One signature and what is stored to restore it.
  pub record SignedOutput (o : BlindedMessage) (sig : BlindSignature) (r : RecoverSigDb)
      : Type 0 where
    pub used : ActiveKey s o.id o.amount
    pub same_id : sig.id ≡ o.id
    pub same_amount : sig.amount ≡ o.amount
    pub point : sig.c_ ≡ c.encode (c.scale (c.scalar_of used.priv_key) (c.decode o.b_))
    pub restored : r ≡ recovery_sig now o sig

  abbrev pub SignedOutputs : List BlindedMessage → List BlindSignature → List RecoverSigDb → Type 0
  SignedOutputs [] [] [] = Unit
  SignedOutputs (o ∷ os) (g ∷ gs) (r ∷ rs) = SignedOutput o g r × SignedOutputs os gs rs
  SignedOutputs _ _ _ = ⊥

join-eq-ok : {A : Type 0} (r : Result A) {a : A} → join invalid_blind_message r ≡ ok a → r ≡ ok a
join-eq-ok (ok b) h = cc
join-eq-ok (err x) h = absurd (cc)
join-eq-ok panic h = absurd (cc)

known-eq-ok : {A : Type 0} (o : Option A) {a : A} → known o ≡ ok a → o ≡ some a
known-eq-ok none h = absurd (cc)
known-eq-ok (some b) h = cc

module _ (x : Externals) (l : KeyLibrary) {P S : Type 0} (c : Curve P S) where
  -- A signature has the id and the amount of its output, and is the output's point times the key.
  generate_blind_signature-eq-ok :
      (random : Option String) (m : BlindedMessage) (k : S) (sig : BlindSignature)
      → generate_blind_signature x c random m k ≡ ok sig
      → (sig.id ≡ m.id) × (sig.amount ≡ m.amount) × (sig.c_ ≡ c.encode (c.scale k (c.decode m.b_)))
  unfolding generate_blind_signature sign_blinded_message
  generate_blind_signature-eq-ok random m k sig h = judged (str_eq m.b_ "") h
    where
      judged :
          (nil : Bool)
          → (if nil
              then panic
              else (generate_dleq x c random (c.scale k (c.decode m.b_)) (c.decode m.b_) k
                  >>= with_dleq x c m (c.scale k (c.decode m.b_))))
            ≡ ok sig
          → (sig.id ≡ m.id)
            × (sig.amount ≡ m.amount)
            × (sig.c_ ≡ c.encode (c.scale k (c.decode m.b_)))
      judged true h = absurd (cc)
      judged false h =
          >>=-elim (generate_dleq x c random (c.scale k (c.decode m.b_)) (c.decode m.b_) k) _ h
            λ d _ h. (cc, cc, cc)

  sign_output-SignedOutput :
      (s : LocalSigner) (now i : ℕ) (o : BlindedMessage) (made : BlindSignature × RecoverSigDb)
      → sign_output x l c s now i o ≡ ok made
      → SignedOutput c s now o made.0 made.1
  unfolding sign_output
  sign_output-SignedOutput s now i o made h =
      >>=-elim (known (lookup str_eq o.id s.active_keysets)) _ h λ keys keyset h.
        >>=-elim (known (lookup ◌==◌ o.amount keys)) _ h λ key held h.
          >>=-elim (known key.priv_key) _ h λ priv_key private h.
            >>=-elim (fail_if (not key.active) (using_inactive_keyset ∷ [])) _ h λ _ active h.
              >>=-elim
                (join invalid_blind_message
                  (generate_blind_signature x c (l.random_bytes i) o (c.scalar_of priv_key)))
                _ h
                λ sig signed h.
                  let (id, amount, point) =
                    generate_blind_signature-eq-ok (l.random_bytes i) o (c.scalar_of priv_key) sig
                      (join-eq-ok _ signed) in
                  record {
                    used = record {
                      keys = keys;
                      key = key;
                      priv_key = priv_key;
                      keyset = known-eq-ok _ keyset;
                      held = known-eq-ok _ held;
                      private = known-eq-ok _ private;
                      active = ground (arith, fail_if-eq-ok _ _ active);
                    };
                    same_id = cc;
                    same_amount = cc;
                    point = cc;
                    restored = cc;
                  }

  sign_from-SignedOutputs :
      (s : LocalSigner) (now i : ℕ) (os : List BlindedMessage) (sigs : List BlindSignature)
      (recovery : List RecoverSigDb)
      → sign_from x l c s now i os ≡ ok (sigs, recovery)
      → SignedOutputs c s now os sigs recovery
  unfolding sign_from
  sign_from-SignedOutputs s now i [] sigs recovery h =
      let no_sigs : [] ≡ sigs = cc in
      let no_recovery : [] ≡ recovery = cc in
      subst (λ (gs : List BlindSignature). SignedOutputs c s now [] gs recovery) no_sigs
        (subst (λ (rs : List RecoverSigDb). SignedOutputs c s now [] [] rs) no_recovery tt)
  sign_from-SignedOutputs s now i (o ∷ os) sigs recovery h =
      >>=-elim (sign_output x l c s now i o) _ h λ made first h.
        >>=-elim (sign_from x l c s now (suc i) os) _ h λ rest others h.
          let some_sigs : made.0 ∷ rest.0 ≡ sigs = cc in
          let some_recovery : made.1 ∷ rest.1 ≡ recovery = cc in
          subst (λ gs. SignedOutputs c s now (o ∷ os) gs recovery) some_sigs
            (subst (λ rs. SignedOutputs c s now (o ∷ os) (made.0 ∷ rest.0) rs) some_recovery
              (
                sign_output-SignedOutput s now i o made first,
                sign_from-SignedOutputs s now (suc i) os rest.0 rest.1 others,
              ))

  -- If the outputs are signed, then there is, in order, one signature and one row to restore it for
  -- each output, with its id, its amount and its point times the private key that an active keyset
  -- holds under them; the row has the output's point, the signature and the time.
  pub sign_blind_messages-SignedOutputs :
      (s : LocalSigner) (now : ℕ) (os : List BlindedMessage) (sigs : List BlindSignature)
      (recovery : List RecoverSigDb)
      → sign_blind_messages x l c s now os ≡ ok (sigs, recovery)
      → SignedOutputs c s now os sigs recovery
  unfolding sign_blind_messages
  sign_blind_messages-SignedOutputs s now os sigs recovery h =
      sign_from-SignedOutputs s now 0 os sigs recovery h

signatures_amount_from-eq :
    {P S : Type 0} (c : Curve P S) (s : LocalSigner) (now total : ℕ) (os : List BlindedMessage)
    (sigs : List BlindSignature) (recovery : List RecoverSigDb)
    → SignedOutputs c s now os sigs recovery
    → signatures_amount_from total sigs ≡ messages_amount_from total os
unfolding messages_amount_from
signatures_amount_from-eq c s now total [] [] [] h = refl
signatures_amount_from-eq c s now total (o ∷ os) (g ∷ gs) (r ∷ rs) (here, h) =
    rw here.same_amount (signatures_amount_from-eq c s now (add64 total o.amount) os gs rs h)
signatures_amount_from-eq c s now total [] (g ∷ gs) recovery h = absurd h
signatures_amount_from-eq c s now total [] [] (r ∷ rs) h = absurd h
signatures_amount_from-eq c s now total (o ∷ os) [] recovery h = absurd h
signatures_amount_from-eq c s now total (o ∷ os) (g ∷ gs) [] h = absurd h

-- Signatures are worth what their outputs are.
pub signatures_amount-SignedOutputs :
    {P S : Type 0} (c : Curve P S) (s : LocalSigner) (now : ℕ) (os : List BlindedMessage)
    (sigs : List BlindSignature) (recovery : List RecoverSigDb)
    → SignedOutputs c s now os sigs recovery
    → signatures_amount sigs ≡ messages_amount os
unfolding messages_amount
signatures_amount-SignedOutputs c s now os sigs recovery h =
    signatures_amount_from-eq c s now 0 os sigs recovery h
