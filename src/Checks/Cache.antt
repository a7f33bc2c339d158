-- ===== src/Checks/Cache.antt =====
-- An example for the cache of responses: a store of one entry, and handlers that count their runs.
use nutmix.Prelude.{
  ℕ, suc, String, Option, none, some, ◌≡◌, refl, str_eq, if◌then◌else◌, true, eq_iff,
}
use nutmix.Routes.Cache.{CacheRequest, Sent, CacheStore, cached_paths, cache_middleware}
use nutmix.Routes.Cache.Replay.{Remembers, after, replay, cache_middleware-replay}

-- The latest entry.
abbrev Entry : Type 0
Entry = Option (String × String)

abbrev latest : String → Entry → Option String
latest key none = none
latest key (some (k, v)) = if str_eq k key then some v else none

abbrev one_entry : CacheStore Entry
one_entry = record { get = λ s key. latest key s; set = λ s key value. some (some (key, value)) }

one_entry-Remembers : Remembers one_entry
one_entry-Remembers s key value =
    let same = (eq_iff key key).1 refl in (some (key, value), refl, rw same refl)

abbrev counted : CacheRequest → ℕ → Sent × ℕ
counted r runs = (record { status = 200; body = "signatures"; captured = "signatures" }, suc runs)

abbrev swap : CacheRequest
swap = record { path = "/v1/swap"; body = some "inputs and outputs" }

abbrev first : Sent × (Entry × ℕ)
first = cache_middleware one_entry (λ text. text) counted swap (none, 0)

cached : cached_paths "/v1/swap" ≡ true
unfolding cached_paths
cached = refl

accepted : first.0.status ≡ 200
unfolding cache_middleware cached_paths
accepted = refl

cache_middleware-replay_example :
    cache_middleware one_entry
      (λ text. text)
      counted
      swap
      (after one_entry (λ text. text) counted 3 swap first.1)
    ≡ (replay first.0, first.1)
cache_middleware-replay_example =
    cache_middleware-replay one_entry (λ text. text) counted 3 swap "inputs and outputs" (none, 0)
      one_entry-Remembers cached refl accepted
