-- ===== src/Mint/Auth/Once.antt =====
-- A blind auth token is accepted once: VerifyAuthBlindToken (internal/mint/auth.go).
use nutmix.Prelude.{ℕ, List, [], ◌∷◌, true, none, ◌≡◌, ◌≢◌, refl, str_eq, eq_iff, is_empty, arith}
use nutmix.Cashu.Errors.{ok, fail_if-eq-ok}
use nutmix.Cashu.Types.{ProofState, PublicKey, set_proofs_state}
use nutmix.Cashu.Auth.{AuthProof, AuthLibrary, proof_of}
use nutmix.Database
use nutmix.Database.{Tables, ys, get_proofs_from_secret_curve, save_proof}
use nutmix.Database.Laws.{Spent, unknown_keys, set_proofs_state-save_proof}
use nutmix.Mint.Environment.{Environment}
use nutmix.Mint.Exec.{World}
use nutmix.Mint.Exec.Returns.{
  Returns-elim, lift-Returns, get_tx-Returns, clock-Returns, query-Returns, insert-Returns,
  update-Returns, commit-Returns,
}
use nutmix.Mint.Auth.{verify_auth_blind_token}

is_empty-nil : {A : Type 0} (xs : List A) → is_empty xs ≡ true → xs ≡ []
is_empty-nil [] h = refl
is_empty-nil (x ∷ xs) h = absurd (cc)

module _ (e : Environment) (l : AuthLibrary) where
  -- What an accepted token was and left.
  pub record Accepted (a : AuthProof) (w w' : World) : Type 0 where
    pub y : PublicKey
    pub hashed : l.hash_to_curve a.secret ≡ ok y
    pub unknown : get_proofs_from_secret_curve (y ∷ []) (e.others w.calls w.committed) ≡ []
    pub seen : ℕ
    pub verified : e.signer.verify_proofs (proof_of a y ProofState.pending seen ∷ []) ≡ ok tt
    pub spent : Spent y w'.committed
    pub closed : w'.tx ≡ none

  pub verify_auth_blind_token-Accepted :
      (a : AuthProof) (w w' : World)
      → verify_auth_blind_token e l a w ≡ (ok tt, w')
      → Accepted a w w'
  unfolding verify_auth_blind_token proof_of Database.set_proofs_state set_proofs_state
  verify_auth_blind_token-Accepted a w w' h = Returns-elim _ _ h λ y w1 hashed h.
      Returns-elim _ _ h λ u w2 begun h. Returns-elim _ _ h λ known w3 asked h.
        Returns-elim _ _ h λ _ w4 unused h. Returns-elim _ _ h λ now w5 read h.
          Returns-elim _ _ h λ _ w6 saved h. Returns-elim _ _ h λ _ w7 verified h.
            Returns-elim _ _ h λ v w8 marked h.
              let (hash, w1_is) = lift-Returns hashed in
              let begun = get_tx-Returns e w1 w2 u begun in
              let (t, open_, answer, w3_is) = query-Returns e _ w2 w3 known asked in
              let (fresh, w4_is) = lift-Returns unused in
              let (now_is, w5_is) = clock-Returns e w4 w5 now read in
              let (t1, t2, open1, rows, w6_is) = insert-Returns e _ w5 w6 _ saved in
              let (valid, w7_is) = lift-Returns verified in
              let (t3, open3, w8_is) = update-Returns e _ w7 w8 v marked in
              let (t4, open4, end) = commit-Returns e w8 w' tt h in
              let none_known : is_empty known ≡ true = ground (arith, fail_if-eq-ok _ _ fresh) in
              let empty = is_empty-nil known none_known in
              let marked_row =
                set_proofs_state-save_proof (proof_of a y ProofState.pending now) t1 t2 rows in
              record {
                y = y;
                hashed = hash;
                unknown = cc;
                seen = now;
                verified = valid;
                spent = cc;
                closed = cc;
              }

  -- If the other requests leave a spent proof spent, then a blind auth token that was accepted is
  -- not accepted a second time.
  pub verify_auth_blind_token-once :
      (a : AuthProof) (w w' w'' : World)
      → ((n : ℕ) (t : Tables) (y : PublicKey) → Spent y t → Spent y (e.others n t))
      → verify_auth_blind_token e l a w ≡ (ok tt, w')
      → verify_auth_blind_token e l a w' ≢ (ok tt, w'')
  verify_auth_blind_token-once a w w' w'' kept first second =
      let before = verify_auth_blind_token-Accepted a w w' first in
      let again = verify_auth_blind_token-Accepted a w' w'' second in
      let same : before.y ≡ again.y = (let h1 = before.hashed in let h2 = again.hashed in cc) in
      let spent = kept w'.calls w'.committed before.y before.spent in
      let absent =
        unknown_keys again.y (again.y ∷ []) (e.others w'.calls w'.committed) again.unknown
          (rw same at spent) in
      let itself : str_eq again.y again.y ≡ true = (eq_iff again.y again.y).1 refl in
      (ground (arith, absent, itself))
