-- ===== src/Mint/Auth/Guard.antt =====
-- The middleware in front of routes that need a blind auth token: BlindAuthMiddleware
-- (internal/routes/middleware/auth.go). A middleware of gin that returns without Abort lets the
-- handlers behind it run.
use nutmix.Prelude.{
  ℕ, String, List, [], ◌∷◌, Bool, true, false, Option, none, some, not, ◌&&◌, ◌≡◌, refl, str_eq,
  if◌then◌else◌, any, arith,
}
use nutmix.Cashu.Errors.{Result, ok, err, panic}
use nutmix.Cashu.Codes.{ErrorCode, endpoint_requires_blind_auth, blind_auth_failed}
use nutmix.Cashu.Auth.{AuthProof, AuthLibrary, decode_auth_token}
use nutmix.Mint.Environment.{Environment}
use nutmix.Mint.Exec.{World, M, pure, lift, try, ◌>>=◌}
use nutmix.Mint.Exec.Returns.{Returns, Returns-elim, lift-Returns, pure-Returns}
use nutmix.Mint.Auth.{verify_auth_blind_token}

-- What the middleware answers, with the status of each answer, and whether the handlers behind it
-- run.
pub record Reply : Type 0 where
  pub answers : List (ℕ × ErrorCode)
  pub runs : Bool

abbrev pub passes : Reply
passes = record { answers = []; runs = true }

abbrev aborts : ℕ → ErrorCode → Reply
aborts status code = record { answers = (status, code) ∷ []; runs = false }

abbrev answers_only : ℕ → ErrorCode → Reply
answers_only status code = record { answers = (status, code) ∷ []; runs = true }

module _ (e : Environment) (l : AuthLibrary) where
  -- matchesPattern; the middleware panics for a pattern that does not compile.
  unfoldable pub matches_pattern : String → String → Result Bool
  matches_pattern path pattern = elim (l.regexp_match pattern path) [
    | none ↦ panic
    | some hit ↦ ok hit
  ]

  -- After a token is decoded; its amount is set to 1. A token that fails is answered without Abort.
  spend_token : Result AuthProof → M Reply
  spend_token (ok a) = try (verify_auth_blind_token e l (record a { amount = 1 })) >>= elim [
    | ok _ ↦ pure passes
    | err x ↦ pure (answers_only 400 blind_auth_failed)
    | panic ↦ lift panic
  ]
  spend_token (err x) = pure (aborts 400 blind_auth_failed)
  spend_token panic = lift panic

  check_header : String → M Reply
  unfolding spend_token
  check_header header =
      if str_eq header ""
      then pure (aborts 401 endpoint_requires_blind_auth)
      else spend_token (decode_auth_token l header)

  check_patterns : List String → String → String → M Reply
  unfolding check_header
  check_patterns [] path header = pure passes
  check_patterns (pattern ∷ patterns) path header = lift (matches_pattern path pattern) >>= λ hit.
      if hit then check_header header else check_patterns patterns path header

  -- BlindAuthMiddleware for a request to a path with the text of the header `Blind-auth`.
  unfoldable pub blind_auth_middleware : Bool → List String → String → String → M Reply
  unfolding check_patterns
  blind_auth_middleware require_auth patterns path header =
      if require_auth then check_patterns patterns path header else pure passes

  -- A path that one of the patterns matches, and a header that a token can be read from.
  abbrev pub is_hit : Option Bool → Bool
  is_hit none = false
  is_hit (some hit) = hit

  abbrev pub guarded : List String → String → Bool
  guarded patterns path = any (λ p. is_hit (l.regexp_match p path)) patterns

  abbrev pub decoded : Result AuthProof → Bool
  decoded (ok a) = true
  decoded _ = false

  abbrev pub readable : String → Bool
  readable header = not (str_eq header "") && decoded (decode_auth_token l header)

  spend_token-runs :
      (token : Result AuthProof) (w w' : World) (r : Reply)
      → Returns (spend_token token) w r w'
      → r.runs ≡ decoded token
  unfolding spend_token
  spend_token-runs (ok a) w w' r h = Returns-elim _ _ h (elim [
    | ok u ↦ λ w1 _ h. let (same, _) = pure-Returns h in cc
    | err x ↦ λ w1 _ h. let (same, _) = pure-Returns h in cc
    | panic ↦ λ w1 _ h. absurd (cc ((lift-Returns h).0))
  ])
  spend_token-runs (err x) w w' r h = let (same, _) = pure-Returns h in cc
  spend_token-runs panic w w' r h = absurd (cc ((lift-Returns h).0))

  check_header-runs :
      (header : String) (w w' : World) (r : Reply)
      → Returns (check_header header) w r w'
      → r.runs ≡ readable header
  unfolding check_header
  check_header-runs header w w' r h = judged (str_eq header "") h
    where
      judged :
          (none_given : Bool)
          → Returns
              (if none_given
                then pure (aborts 401 endpoint_requires_blind_auth)
                else spend_token (decode_auth_token l header))
              w
              r
              w'
          → r.runs ≡ (not none_given && decoded (decode_auth_token l header))
      judged true h = let (same, _) = pure-Returns h in cc
      judged false h = spend_token-runs (decode_auth_token l header) w w' r h

  not_hit :
      (o : Option Bool)
      → (elim o [ none ↦ panic | some hit ↦ ok hit ]) ≡ ok false
      → is_hit o ≡ false
  not_hit none h = refl
  not_hit (some hit) h = cc

  check_patterns-runs :
      (patterns : List String) (path header : String) (w w' : World) (r : Reply)
      → Returns (check_patterns patterns path header) w r w'
      → guarded patterns path ≡ true
      → r.runs ≡ readable header
  unfolding check_patterns matches_pattern
  check_patterns-runs [] path header w w' r h on = absurd (cc)
  check_patterns-runs (p ∷ ps) path header w w' r h on = Returns-elim _ _ h (elim [
    | true ↦ λ w1 _ h. check_header-runs header w1 w' r h
    | false ↦ λ w1 matched h. check_patterns-runs ps path header w1 w' r h (
        let missed = not_hit (l.regexp_match p path) (lift-Returns matched).0 in
        ground (arith, missed, on))
  ])

  -- Where authentication is required and a pattern matches the path, the handlers behind the
  -- middleware run exactly if the header is there and a token can be read from it, if the middleware
  -- comes back: whether the token verifies makes no difference.
  pub blind_auth_middleware-runs :
      (patterns : List String) (path header : String) (w w' : World) (r : Reply)
      → blind_auth_middleware true patterns path header w ≡ (ok r, w')
      → guarded patterns path ≡ true
      → r.runs ≡ readable header
  unfolding blind_auth_middleware
  blind_auth_middleware-runs patterns path header w w' r h on =
      check_patterns-runs patterns path header w w' r h on
