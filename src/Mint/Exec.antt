-- ===== src/Mint/Exec.antt =====
-- A request as a state transition that may fail. The state is the committed tables, the working
-- copy of the open transaction, and the number of calls made to the environment so far.
pub mod Triples
pub mod Rules
pub mod Returns
pub mod Works
use nutmix.Prelude.{ℕ, suc, String, List, [], ◌∷◌, Bool, true, false, Option, none, some, ◌≡◌, refl}
use nutmix.Cashu.Errors.{Result, ok, err, panic, Error, tx_closed, lock_unavailable}
use nutmix.Database.{Tables}
use nutmix.Mint.Environment.{Environment, works, locked, lost_reply}

pub record World : Type 0 where
  pub committed : Tables
  pub tx : Option Tables
  pub calls : ℕ

abbrev pub M : Type 0 → Type 0
M A = World → Result A × World

module _ {A : Type 0} where
  unfoldable pub pure : A → M A
  pure a w = (ok a, w)

  unfoldable pub lift : Result A → M A
  lift r w = (r, w)

  -- Go's `r, err := m`, with the error in hand.
  unfoldable pub try : M A → M (Result A)
  try m w =
      let (r, w') = m w in (elim r [ ok a ↦ ok (ok a) | err e ↦ ok (err e) | panic ↦ panic ], w')

module _ {A B : Type 0} where
  abbrev pub continue : Result A → (A → M B) → M B
  continue (ok a) f w = f a w
  continue (err e) f w = (err e, w)
  continue panic f w = (panic, w)

  infixl 5 ◌>>=◌ ◌>>◌
  unfoldable pub ◌>>=◌ : M A → (A → M B) → M B
  unfolding pure lift
  ◌>>=◌ m f w = let (r, w') = m w in continue r f w'

  abbrev pub ◌>>◌ : M A → M B → M B
  m >> n = m >>= λ _. n

abbrev count_call : World → World
count_call w = record w { calls = suc w.calls }

module _ (e : Environment) where
  -- time.Now().Unix() and utils.RandomHash()
  unfoldable pub clock : M ℕ
  clock w = (ok (e.now w.calls), count_call w)

  unfoldable pub random_hash : M String
  random_hash w = (e.random_hash w.calls, count_call w)

  -- A call of the lightning backend, which gets its number.
  unfoldable pub network : {A : Type 0} → (ℕ → Result A) → M A
  network f w = (f w.calls, count_call w)

  -- MintDB.GetTx: what other requests have committed meanwhile is seen by the new transaction.
  unfoldable pub get_tx : M (Unit {0})
  get_tx w =
      let t = e.others w.calls w.committed in
      let w' = record w { committed = t; tx = none; calls = suc w.calls } in
      elim (e.fault w.calls) [ works ↦ (ok tt, record w' { tx = some t }) | _ ↦ (err [], w') ]

  -- A statement in the open transaction: it may fail by itself or by the connection.
  run_statement :
      {A : Type 0} → (Tables → Result (A × Tables)) → World → Option Tables → Result A × World
  run_statement op w none = (err (tx_closed ∷ []), count_call w)
  run_statement op w (some t) = elim (e.fault w.calls) [
    | works ↦ elim (op t) [
      | ok (a, t') ↦ (ok a, record w { tx = some t'; calls = suc w.calls })
      | err x ↦ (err x, count_call w)
      | panic ↦ (panic, count_call w)
    ]
    | locked ↦ (err (lock_unavailable ∷ []), count_call w)
    | _ ↦ (err [], count_call w)
  ]

  unfoldable pub statement : {A : Type 0} → (Tables → Result (A × Tables)) → M A
  unfolding run_statement
  statement op w = run_statement op w w.tx

  -- Queries, updates that cannot violate a constraint, and those that can.
  abbrev pub query : {A : Type 0} → (Tables → A) → M A
  query f = statement (λ t. ok (f t, t))

  -- A query whose loop over the rows never asks for their error: where the reply is lost it reads no
  -- rows and goes on.
  read_none : {A : Type 0} → World → Option Tables → Result (List A) × World
  read_none w none = (err (tx_closed ∷ []), count_call w)
  read_none w (some t) = (ok [], count_call w)

  unfoldable pub query_unchecked : {A : Type 0} → (Tables → List A) → M (List A)
  unfolding read_none statement
  query_unchecked f w = elim (e.fault w.calls) [ lost_reply ↦ read_none w w.tx | _ ↦ query f w ]

  abbrev pub find : {A : Type 0} → (Tables → Result A) → M A
  find f = statement (λ t. elim (f t) [ ok a ↦ ok (a, t) | err x ↦ err x | panic ↦ panic ])

  abbrev pub update : (Tables → Tables) → M (Unit {0})
  update f = statement (λ t. ok (tt, f t))

  abbrev pub insert : (Tables → Result Tables) → M (Unit {0})
  insert f = statement (λ t. elim (f t) [ ok t' ↦ ok (tt, t') | err x ↦ err x | panic ↦ panic ])

  -- A query on the connection pool, outside of the transaction.
  unfoldable pub pool_query : {A : Type 0} → (Tables → A) → M A
  pool_query f w =
      let t = e.others w.calls w.committed in
      let w' = record w { committed = t; calls = suc w.calls } in
      elim (e.fault w.calls) [ works ↦ (ok (f t), w') | _ ↦ (err [], w') ]

  -- An insertion on the pool, committed at once.
  unfoldable pub pool_insert : (Tables → Result Tables) → M (Unit {0})
  pool_insert f w =
      let t = e.others w.calls w.committed in
      let w' = record w { committed = t; calls = suc w.calls } in
      elim (f t) [
        | ok t' ↦ elim (e.fault w.calls) [
          | works ↦ (ok tt, record w' { committed = t' })
          | lost_reply ↦ (err [], record w' { committed = t' })
          | _ ↦ (err [], w')
        ]
        | err x ↦ (err x, w')
        | panic ↦ (panic, w')
      ]

  -- MintDB.Commit closes the transaction whatever happens.
  commit_tables : World → Option Tables → Result (Unit {0}) × World
  commit_tables w none = (err (tx_closed ∷ []), count_call w)
  commit_tables w (some t) = elim (e.fault w.calls) [
    | works ↦ (ok tt, record w { committed = t; tx = none; calls = suc w.calls })
    | lost_reply ↦ (err [], record w { committed = t; tx = none; calls = suc w.calls })
    | _ ↦ (err [], record w { tx = none; calls = suc w.calls })
  ]

  unfoldable pub commit : M (Unit {0})
  unfolding commit_tables
  commit w = commit_tables w w.tx

  -- MintDB.Rollback: pgx.ErrTxClosed where the transaction is closed already.
  rollback_tables : World → Option Tables → Result (Unit {0}) × World
  rollback_tables w none = (err (tx_closed ∷ []), count_call w)
  rollback_tables w (some t) =
      let w' = record w { tx = none; calls = suc w.calls } in
      elim (e.fault w.calls) [ works ↦ (ok tt, w') | _ ↦ (err [], w') ]

  unfoldable pub rollback : M (Unit {0})
  unfolding rollback_tables
  rollback w = rollback_tables w w.tx
