-- ===== src/Checks/Auth.antt =====
-- Examples for blind auth tokens.
use nutmix.Prelude.{[], ◌∷◌, true, some, ◌≡◌, ◌≢◌, refl}
use nutmix.Cashu.Errors.{ok}
use nutmix.Cashu.Types.{set_proofs_state}
use nutmix.Cashu.Auth.{AuthProof, AuthLibrary, proof_of, decode_auth_token}
use nutmix.Cashu.Codes.{blind_auth_failed}
use nutmix.Database
use nutmix.Database.{Tables, get_proofs_from_secret_curve, save_proof}
use nutmix.Mint.Exec.{World, get_tx, clock, commit, statement, pure, lift, try, ◌>>=◌}
use nutmix.Mint.Auth.{verify_auth_blind_token}
use nutmix.Mint.Auth.Once.{verify_auth_blind_token-once}
use nutmix.Mint.Auth.Guard.{
  Reply, readable, matches_pattern, blind_auth_middleware, blind_auth_middleware-runs,
}
use nutmix.Checks.Fixtures.{env, empty_tables, start}

abbrev token : AuthProof
token = record { c = "c"; id = "ks"; secret = "secret"; amount = 1 }

abbrev tokens : AuthLibrary
tokens = record {
  hash_to_curve = λ s. ok s;
  base64_url = λ s. some s;
  base64_raw_url = λ s. some s;
  json_auth_proof = λ _. some token;
  regexp_match = λ _ _. some true;
}

abbrev after_token : World
after_token = (verify_auth_blind_token env tokens token (start empty_tables)).1

accepted : verify_auth_blind_token env tokens token (start empty_tables) ≡ (ok tt, after_token)
unfolding verify_auth_blind_token proof_of get_proofs_from_secret_curve save_proof
    Database.set_proofs_state set_proofs_state get_tx clock commit statement lift ◌>>=◌
accepted = refl

verify_auth_blind_token-once_example :
    verify_auth_blind_token env tokens token after_token
    ≢ (ok tt, (verify_auth_blind_token env tokens token after_token).1)
verify_auth_blind_token-once_example =
    verify_auth_blind_token-once env tokens token (start empty_tables) after_token
      (verify_auth_blind_token env tokens token after_token).1 (λ n t y h. h) accepted

-- The token was spent before, and the handlers behind the middleware run all the same.
abbrev refused : Reply
refused = record { answers = (400, blind_auth_failed) ∷ []; runs = true }

abbrev after_refusal : World
after_refusal =
    (blind_auth_middleware env tokens true ("^/v1/mint" ∷ []) "/v1/mint" "authAtoken" after_token).1

let_through :
    blind_auth_middleware env tokens true ("^/v1/mint" ∷ []) "/v1/mint" "authAtoken" after_token
    ≡ (ok refused, after_refusal)
unfolding blind_auth_middleware matches_pattern decode_auth_token verify_auth_blind_token proof_of
    get_proofs_from_secret_curve save_proof Database.set_proofs_state set_proofs_state get_tx clock
    commit statement lift pure try ◌>>=◌
let_through = refl

blind_auth_middleware-runs_example : true ≡ readable env tokens "authAtoken"
blind_auth_middleware-runs_example =
    blind_auth_middleware-runs env tokens ("^/v1/mint" ∷ []) "/v1/mint" "authAtoken" after_token
      after_refusal refused let_through refl
