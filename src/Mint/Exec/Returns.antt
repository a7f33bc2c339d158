-- ===== src/Mint/Exec/Returns.antt =====
-- What a request that succeeded has done, step by step.
use nutmix.Prelude.{ℕ, suc, List, [], ◌∷◌, Option, none, some, ◌≡◌, ◌⊎◌, refl, arith}
use nutmix.Cashu.Errors.{Result, ok, err, panic, lock_unavailable}
use nutmix.Database.{Tables}
use nutmix.Mint.Environment.{Environment, Fault, works, locked, lost_reply}
use nutmix.Mint.Exec.{
  pool_query, query_unchecked, read_none, World, M, pure, lift, try, continue, clock, network,
  get_tx, statement, run_statement, commit, commit_tables, rollback, rollback_tables, update,
  insert, query, find, ◌>>=◌,
}

-- The request succeeds with a value and leaves a world.
abbrev pub Returns : {A : Type 0} → M A → World → A → World → Type 0
Returns m w a w' = m w ≡ (ok a, w')

module _ {A B : Type 0} where
  continue-Returns :
      (r : Result A × World) (f : A → M B) {b : B} {w'' : World}
      → continue r.0 f r.1 ≡ (ok b, w'')
      → (a : A) × (w' : World) × (r ≡ (ok a, w')) × (f a w' ≡ (ok b, w''))
  continue-Returns (ok a, w) f h = (a, w, refl, h)
  continue-Returns (err x, w) f h = absurd (cc h)
  continue-Returns (panic, w) f h = absurd (cc h)

  pub >>=-Returns :
      (m : M A) (f : A → M B) {w : World} {b : B} {w'' : World}
      → Returns (m >>= f) w b w''
      → (a : A) × (w' : World) × Returns m w a w' × Returns (f a) w' b w''
  unfolding ◌>>=◌
  >>=-Returns m f {w} h = continue-Returns (m w) f h

module _ {A : Type 0} where
  pub pure-Returns : {a b : A} {w w' : World} → Returns (pure a) w b w' → (a ≡ b) × (w ≡ w')
  unfolding pure
  pure-Returns h = (cc, cc)

  pub lift-Returns :
      {r : Result A} {b : A} {w w' : World} → Returns (lift r) w b w' → (r ≡ ok b) × (w ≡ w')
  unfolding lift
  lift-Returns h = (cc, cc)

module _ (e : Environment) where
  pub get_tx-Returns :
      (w w' : World) (u : Unit {0})
      → Returns (get_tx e) w u w'
      → w' ≡ record w {
        committed = e.others w.calls w.committed;
        tx = some (e.others w.calls w.committed);
        calls = suc w.calls;
      }
  unfolding get_tx
  get_tx-Returns w w' u h = ground arith

  pub commit-Returns :
      (w w' : World) (u : Unit {0})
      → Returns (commit e) w u w'
      → (t : Tables) × (w.tx ≡ some t)
        × (w' ≡ record w { committed = t; tx = none; calls = suc w.calls })
  unfolding commit commit_tables
  commit-Returns w w' u h = ground arith

  run_statement-Returns :
      {A : Type 0} (op : Tables → Result (A × Tables)) (w w' : World) (a : A) (tx : Option Tables)
      → run_statement e op w tx ≡ (ok a, w')
      → (t : Tables) × (t' : Tables) × (tx ≡ some t)
        × (op t ≡ ok (a, t'))
        × (w' ≡ record w { tx = some t'; calls = suc w.calls })
  unfolding run_statement
  run_statement-Returns op w w' a none h = absurd (cc h)
  run_statement-Returns {A} op w w' a (some t) h = on_fault (e.fault w.calls) h
    where
      on_result :
          (r : Result (A × Tables))
          → op t ≡ r
          → ◌≡◌ {A = Result A × World}
              (elim r [
                | ok (a, t') ↦ (ok a, record w { tx = some t'; calls = suc w.calls })
                | err x ↦ (err x, record w { calls = suc w.calls })
                | panic ↦ (panic, record w { calls = suc w.calls })
              ])
              (ok a, w')
          → (t₁ : Tables) × (t' : Tables) × (some t ≡ some t₁)
            × (op t₁ ≡ ok (a, t'))
            × (w' ≡ record w { tx = some t'; calls = suc w.calls })
      on_result (ok (b, t')) eq h = (t, t', refl, cc, cc)
      on_result (err x) eq h = absurd (cc h)
      on_result panic eq h = absurd (cc h)

      on_fault :
          (f : Fault)
          → ◌≡◌ {A = Result A × World}
              (elim f [
                | works ↦ elim (op t) [
                  | ok (a, t') ↦ (ok a, record w { tx = some t'; calls = suc w.calls })
                  | err x ↦ (err x, record w { calls = suc w.calls })
                  | panic ↦ (panic, record w { calls = suc w.calls })
                ]
                | locked ↦ (err (lock_unavailable ∷ []), record w { calls = suc w.calls })
                | _ ↦ (err [], record w { calls = suc w.calls })
              ])
              (ok a, w')
          → (t₁ : Tables) × (t' : Tables) × (some t ≡ some t₁)
            × (op t₁ ≡ ok (a, t'))
            × (w' ≡ record w { tx = some t'; calls = suc w.calls })
      on_fault works h = on_result (op t) refl h
      on_fault locked h = absurd (cc h)
      on_fault _ h = absurd (cc h)

  pub statement-Returns :
      {A : Type 0} (op : Tables → Result (A × Tables)) (w w' : World) (a : A)
      → Returns (statement e op) w a w'
      → (t : Tables) × (t' : Tables) × (w.tx ≡ some t)
        × (op t ≡ ok (a, t'))
        × (w' ≡ record w { tx = some t'; calls = suc w.calls })
  unfolding statement
  statement-Returns op w w' a h = run_statement-Returns op w w' a w.tx h

pub Returns-elim :
    {A B : Type 0} {C : Type 0} (m : M A) (f : A → M B) {w : World} {b : B} {w'' : World}
    → Returns (m >>= f) w b w''
    → ((a : A) (w' : World) → Returns m w a w' → Returns (f a) w' b w'' → C)
    → C
Returns-elim m f h k = let found = >>=-Returns m f h in k found.0 found.1 found.2 found.3

-- What `try` hands on.
abbrev pub Tried : {A : Type 0} → M A → World → Result A → World → Type 0
Tried m w (ok a) w' = Returns m w a w'
Tried m w (err x) w' = Unit
Tried m w panic w' = ⊥

pub try-Returns :
    {A : Type 0} (m : M A) (w w' : World) (r : Result A) → Returns (try m) w r w' → Tried m w r w'
unfolding try
try-Returns {A} m w w' r h = ended (m w) refl r h
  where
    ended :
        (s : Result A × World)
        → m w ≡ s
        → (r : Result A)
        → ◌≡◌ {A = Result (Result A) × World}
            (elim s.0 [ ok a ↦ ok (ok a) | err e ↦ ok (err e) | panic ↦ panic ], s.1)
            (ok r, w')
        → Tried m w r w'
    ended (ok a, v) eq (ok b) h = cc
    ended (err x, v) eq (ok b) h = cc
    ended (panic, v) eq (ok b) h = cc
    ended s eq (err x) h = tt
    ended (ok a, v) eq panic h = cc
    ended (err x, v) eq panic h = cc
    ended (panic, v) eq panic h = cc

module _ (e : Environment) where
  pub update-Returns :
      (f : Tables → Tables) (w w' : World) (u : Unit {0})
      → Returns (update e f) w u w'
      → (t : Tables) × (w.tx ≡ some t) × (w' ≡ record w { tx = some (f t); calls = suc w.calls })
  update-Returns f w w' u h = let found = statement-Returns e _ w w' u h in (found.0, found.2, cc)

  pub insert-Returns :
      (f : Tables → Result Tables) (w w' : World) (u : Unit {0})
      → Returns (insert e f) w u w'
      → (t : Tables) × (t' : Tables) × (w.tx ≡ some t)
        × (f t ≡ ok t')
        × (w' ≡ record w { tx = some t'; calls = suc w.calls })
  insert-Returns f w w' u h =
      let found = statement-Returns e _ w w' u h in
      (found.0, found.1, found.2, inserted (f found.0) found.3, found.4)
    where
      inserted :
          (r : Result Tables) {t' : Tables}
          → ◌≡◌ {A = Result (Unit {0} × Tables)}
              (elim r [ ok t' ↦ ok (tt, t') | err x ↦ err x | panic ↦ panic ])
              (ok (u, t'))
          → r ≡ ok t'
      inserted (ok t) h = cc
      inserted (err x) h = cc
      inserted panic h = cc

  -- A rollback of a transaction that is closed already.
  pub try-rollback-closed :
      (w w' : World) (r : Result (Unit {0}))
      → w.tx ≡ none
      → Returns (try (rollback e)) w r w'
      → (w'.committed ≡ w.committed) × (w'.tx ≡ none)
  unfolding try rollback rollback_tables
  try-rollback-closed w w' r closed h = ground arith

  -- Any rollback leaves what is committed, and closes the transaction.
  pub try-rollback-Returns :
      (w w' : World) (t : Tables) (r : Result (Unit {0}))
      → w.tx ≡ some t
      → Returns (try (rollback e)) w r w'
      → (w'.committed ≡ w.committed) × (w'.tx ≡ none)
  unfolding try rollback rollback_tables
  try-rollback-Returns w w' t r open_ h = ground arith

  pub pool_query-Returns :
      {A : Type 0} (f : Tables → A) (w w' : World) (a : A)
      → Returns (pool_query e f) w a w'
      → (a ≡ f (e.others w.calls w.committed))
        × (w' ≡ record w { committed = e.others w.calls w.committed; calls = suc w.calls })
  unfolding pool_query
  pool_query-Returns f w w' a h = ground arith

  pub clock-Returns :
      (w w' : World) (now : ℕ)
      → Returns (clock e) w now w'
      → (now ≡ e.now w.calls) × (w' ≡ record w { calls = suc w.calls })
  unfolding clock
  clock-Returns w w' now h = (cc, cc)

  pub query-Returns :
      {A : Type 0} (f : Tables → A) (w w' : World) (a : A)
      → Returns (query e f) w a w'
      → (t : Tables) × (w.tx ≡ some t)
        × (a ≡ f t)
        × (w' ≡ record w { tx = some t; calls = suc w.calls })
  query-Returns f w w' a h =
      let found = statement-Returns e _ w w' a h in (found.0, found.2, cc, cc)

  pub query_unchecked-Returns :
      {A : Type 0} (f : Tables → List A) (w w' : World) (rows : List A)
      → Returns (query_unchecked e f) w rows w'
      → (t : Tables) × (w.tx ≡ some t) × (w' ≡ record w { tx = some t; calls = suc w.calls })
  unfolding query_unchecked read_none
  query_unchecked-Returns {A} f w w' rows h = on_fault (e.fault w.calls) h
    where
      on_tx :
          (tx : Option Tables)
          → w.tx ≡ tx
          → read_none e {A = A} w tx ≡ (ok rows, w')
          → (t : Tables) × (w.tx ≡ some t) × (w' ≡ record w { tx = some t; calls = suc w.calls })
      on_tx none is_none h = absurd (cc h)
      on_tx (some t) is_some h = (t, is_some, cc)

      on_fault :
          (f' : Fault)
          → ◌≡◌ {A = Result (List A) × World}
              (elim f' [ lost_reply ↦ read_none e w w.tx | _ ↦ query e f w ])
              (ok rows, w')
          → (t : Tables) × (w.tx ≡ some t) × (w' ≡ record w { tx = some t; calls = suc w.calls })
      on_fault lost_reply h = on_tx w.tx refl h
      on_fault _ h = let (t, open_, _, w'_is) = query-Returns f w w' rows h in (t, open_, w'_is)

  pub find-Returns :
      {A : Type 0} (f : Tables → Result A) (w w' : World) (a : A)
      → Returns (find e f) w a w'
      → (t : Tables) × (w.tx ≡ some t)
        × (f t ≡ ok a)
        × (w' ≡ record w { tx = some t; calls = suc w.calls })
  find-Returns {A} f w w' a h =
      let found = statement-Returns e _ w w' a h in
      let (hit, same) = found_in (f found.0) found.3 in (found.0, found.2, hit, cc)
    where
      found_in :
          (r : Result A) {t t' : Tables}
          → ◌≡◌ {A = Result (A × Tables)}
              (elim r [ ok a ↦ ok (a, t) | err x ↦ err x | panic ↦ panic ])
              (ok (a, t'))
          → (r ≡ ok a) × (t ≡ t')
      found_in (ok b) h = (cc, cc)
      found_in (err x) h = absurd (cc h)
      found_in panic h = absurd (cc h)

  pub network-Returns :
      {A : Type 0} (f : ℕ → Result A) (w w' : World) (a : A)
      → Returns (network e f) w a w'
      → (f w.calls ≡ ok a) × (w' ≡ record w { calls = suc w.calls })
  unfolding network
  network-Returns f w w' a h = (cc, cc)

  -- A call of the backend leaves the state, also if it fails.
  pub try-network-Returns :
      {A : Type 0} (f : ℕ → Result A) (w w' : World) (r : Result A)
      → Returns (try (network e f)) w r w'
      → (r ≡ f w.calls) × (w'.tx ≡ w.tx) × (w'.committed ≡ w.committed)
  unfolding try network
  try-network-Returns f w w' r h = (ground arith, ground arith, ground arith)

-- What a lookup whose error is kept has found: an error is that of the lookup, or the connection's.
abbrev pub Looked : {A : Type 0} → Result A → Result A → Type 0
Looked here (ok a) = here ≡ ok a
Looked here (err x) = (here ≡ err x) ⊎ ((x ≡ []) ⊎ (x ≡ lock_unavailable ∷ []))
Looked here panic = ⊥

-- The transaction stays open on its tables.
pub try-find-Looked :
    {A : Type 0} (e : Environment) (f : Tables → Result A) (t : Tables) (w w' : World)
    (r : Result A)
    → w.tx ≡ some t
    → Returns (try (find e f)) w r w'
    → (w'.tx ≡ some t) × Looked (f t) r
unfolding try statement run_statement
try-find-Looked e f t w w' (ok a) open_ h = (ground arith, ground arith)
try-find-Looked e f t w w' (err x) open_ h = (ground arith, ground arith)
try-find-Looked e f t w w' panic open_ h = (ground arith, ground arith)
