-- ===== src/Routes/Cache.antt =====
-- The cache of responses in front of the routes that issue, melt and swap
-- (internal/routes/middleware/cache.go). The handlers behind it are a parameter, over any state.
pub mod Replay
use Prim.Native.String.{◌++◌ as append}
use nutmix.Prelude.{
  ℕ, suc, zero, String, Bool, true, false, ◌||◌, Option, none, some, if◌then◌else◌, ◌==◌, ◌≡◌, refl,
  str_eq, ◌∙◌, ap,
}

-- A request: its body is missing if io.ReadAll fails.
pub record CacheRequest : Type 0 where
  pub path : String
  pub body : Option String

-- What the handlers send, and what of it goes through Write.
pub record Sent : Type 0 where
  pub status : ℕ
  pub body : String
  pub captured : String

-- persistence.InMemoryStore: a key that is missing or too old has no value; storing may fail.
pub record CacheStore (S : Type 0) : Type 0 where
  pub get : S → String → Option String
  pub set : S → String → String → Option S

-- `cachedPaths[...]`
unfoldable pub cached_paths : String → Bool
cached_paths path =
    str_eq path "/v1/mint/bolt11" || str_eq path "/v1/melt/bolt11" || str_eq path "/v1/swap"

module _ {S W : Type 0} (store : CacheStore S) (digest : String → String)
    (next : CacheRequest → W → Sent × W) where
  -- `digest` is the hexadecimal SHA-256 of the body.
  cache_key : String → String → String
  cache_key path body = append path (append "-" (digest body))

  -- Where nothing is cached: a response of status 200 is stored, and the failure to store it is
  -- only logged.
  store_sent : String → S → Sent → S
  store_sent key s sent =
      if sent.status == 200
      then elim (store.set s key sent.captured) [ some s' ↦ s' | none ↦ s ]
      else s

  run_and_store : String → CacheRequest → S → Sent × W → Sent × (S × W)
  unfolding store_sent
  run_and_store key r s done = (done.0, (store_sent key s done.0, done.1))

  answer_cached : CacheRequest → String → S → W → Option String → Sent × (S × W)
  unfolding run_and_store
  answer_cached r key s w (some bytes) =
      (record { status = 200; body = bytes; captured = bytes }, (s, w))
  answer_cached r key s w none = run_and_store key r s (next r w)

  pass : CacheRequest → S → Sent × W → Sent × (S × W)
  pass r s done = (done.0, (s, done.1))

  on_body : CacheRequest → S → W → Option String → Sent × (S × W)
  unfolding cache_key answer_cached pass
  on_body r s w none = pass r s (next r w)
  on_body r s w (some body) =
      answer_cached r (cache_key r.path body) s w (store.get s (cache_key r.path body))

  -- CacheMiddleware
  unfoldable pub cache_middleware : CacheRequest → S × W → Sent × (S × W)
  unfolding on_body pass
  cache_middleware r state =
      if cached_paths r.path
      then on_body r state.0 state.1 r.body
      else pass r state.0 (next r state.1)
