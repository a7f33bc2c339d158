-- ===== src/Routes/Cache/Replay.antt =====
-- What a client gets that repeats a request (internal/routes/middleware/cache.go).
use nutmix.Prelude.{ℕ, suc, zero, String, true, Option, none, some, ◌≡◌, refl, ◌∙◌, ap, ==_iff}
use nutmix.Routes.Cache.{
  CacheRequest, Sent, CacheStore, cached_paths, cache_key, answer_cached, run_and_store, store_sent,
  on_body, cache_middleware,
}

-- Storing works, and what was stored is found, as it is until the entry is too old.
abbrev pub Remembers : {S : Type 0} → CacheStore S → Type 0
Remembers {S} store =
    (s : S) (key value : String)
    → (s' : S) × (store.set s key value ≡ some s') × (store.get s' key ≡ some value)

-- The answer from the cache.
abbrev pub replay : Sent → Sent
replay sent = record { status = 200; body = sent.captured; captured = sent.captured }

module _ {S W : Type 0} (store : CacheStore S) (digest : String → String)
    (next : CacheRequest → W → Sent × W) where
  -- The state after the same request has come so many times.
  abbrev pub after : ℕ → CacheRequest → S × W → S × W
  after zero r state = state
  after (suc n) r state = after n r (cache_middleware store digest next r state).1

  cached-answer :
      (r : CacheRequest) (body : String) (s : S) (w : W)
      → cached_paths r.path ≡ true
      → r.body ≡ some body
      → cache_middleware store digest next r (s, w)
        ≡ answer_cached store digest next r
            (cache_key store digest next r.path body)
            s
            w
            (store.get s (cache_key store digest next r.path body))
  unfolding cache_middleware on_body
  cached-answer r body s w cached there = rw (cached, there) refl

  -- After an answer of status 200 its bytes are found.
  answer_cached-stores :
      (r : CacheRequest) (key : String) (s : S) (w : W) (found : Option String)
      → Remembers store
      → store.get s key ≡ found
      → (answer_cached store digest next r key s w found).0.status ≡ 200
      → store.get (answer_cached store digest next r key s w found).1.0 key
        ≡ some (answer_cached store digest next r key s w found).0.captured
  unfolding answer_cached run_and_store store_sent
  answer_cached-stores r key s w (some bytes) remembers found fine = found
  answer_cached-stores r key s w none remembers found fine =
      let sent = next r w in
      let (s', stored, hit) = remembers s key sent.0.captured in
      let is_200 = (==_iff sent.0.status 200).1 fine in rw (is_200, stored) hit

  once :
      (r : CacheRequest) (body : String) (state : S × W)
      → Remembers store
      → cached_paths r.path ≡ true
      → r.body ≡ some body
      → (cache_middleware store digest next r state).0.status ≡ 200
      → cache_middleware store digest next r (cache_middleware store digest next r state).1 ≡ (
        replay (cache_middleware store digest next r state).0,
        (cache_middleware store digest next r state).1,
      )
  unfolding answer_cached
  once r body (s, w) remembers cached there fine =
      let key = cache_key store digest next r.path body in
      let first = cached-answer r body s w cached there in
      let done = cache_middleware store digest next r (s, w) in
      let kept = answer_cached-stores r key s w (store.get s key) remembers refl (cc) in
      let again = cached-answer r body done.1.0 done.1.1 cached there in
      let hit : store.get done.1.0 key ≡ some done.0.captured = cc in again ∙ rw hit refl

  after-once :
      (n : ℕ) (r : CacheRequest) (body : String) (state : S × W)
      → Remembers store
      → cached_paths r.path ≡ true
      → r.body ≡ some body
      → (cache_middleware store digest next r state).0.status ≡ 200
      → after n r (cache_middleware store digest next r state).1
        ≡ (cache_middleware store digest next r state).1
  after-once zero r body state remembers cached there fine = refl
  after-once (suc n) r body state remembers cached there fine =
      let again = once r body state remembers cached there fine in
      ap (λ (done : Sent × (S × W)). after n r done.1) again
      ∙ after-once n r body state remembers cached there fine

  -- If the cache keeps what it stores, and a request on a cached path was answered with status 200,
  -- then the same request, after any number of repetitions, gets the bytes of that answer, and
  -- neither the cache nor what is behind it changes: the handlers do not run again.
  pub cache_middleware-replay :
      (n : ℕ) (r : CacheRequest) (body : String) (state : S × W)
      → Remembers store
      → cached_paths r.path ≡ true
      → r.body ≡ some body
      → (cache_middleware store digest next r state).0.status ≡ 200
      → cache_middleware store digest next r
          (after n r (cache_middleware store digest next r state).1)
        ≡ (
          replay (cache_middleware store digest next r state).0,
          (cache_middleware store digest next r state).1,
        )
  cache_middleware-replay n r body state remembers cached there fine =
      ap (cache_middleware store digest next r)
        (after-once n r body state remembers cached there fine)
      ∙ once r body state remembers cached there fine
