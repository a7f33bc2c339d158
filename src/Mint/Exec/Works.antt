-- ===== src/Mint/Exec/Works.antt =====
-- What the calls do when the connection works.
use nutmix.Prelude.{List, suc, [], ◌∷◌, none, some, ◌≡◌, refl, ◌∙◌}
use nutmix.Cashu.Errors.{Result, ok, err, tx_closed}
use nutmix.Database.{Tables}
use nutmix.Mint.Environment.{Environment, works}
use nutmix.Mint.Exec.{
  World, M, try, lift, pure, ◌>>=◌, get_tx, statement, run_statement, query, query_unchecked,
  commit, commit_tables, clock, update, insert, rollback, rollback_tables,
}

-- A request goes on after a part that succeeds.
pub >>=-works :
    {A B : Type 0} (m : M A) (f : A → M B) {w w' : World} {a : A}
    → m w ≡ (ok a, w')
    → (m >>= f) w ≡ f a w'
unfolding ◌>>=◌
>>=-works m f h = rw h refl

-- What the rest then does is what the whole does.
pub >>=-then :
    {A B : Type 0} (m : M A) (f : A → M B) {w w' : World} {a : A} {r : Result B × World}
    → m w ≡ (ok a, w')
    → f a w' ≡ r
    → (m >>= f) w ≡ r
>>=-then m f h k = >>=-works m f h ∙ k

pub lift-works : {A : Type 0} (r : Result A) (w : World) {a : A} → r ≡ ok a → lift r w ≡ (ok a, w)
unfolding lift
lift-works r w h = rw h refl

pub pure-works : {A : Type 0} (a : A) (w : World) → pure a w ≡ (ok a, w)
unfolding pure
pure-works a w = refl

-- So does the error in hand.
pub try-works :
    {A : Type 0} (m : M A) {w w' : World} {a : A} → m w ≡ (ok a, w') → try m w ≡ (ok (ok a), w')
unfolding try
try-works m h = rw h refl

module _ (e : Environment) (w : World) (fine : e.fault w.calls ≡ works) where
  pub get_tx-works : get_tx e w ≡ (
    ok tt,
    record w {
      committed = e.others w.calls w.committed;
      tx = some (e.others w.calls w.committed);
      calls = suc w.calls;
    },
  )
  unfolding get_tx
  get_tx-works = cc fine

  pub query-works :
      {A : Type 0} (f : Tables → A) (t : Tables)
      → w.tx ≡ some t
      → query e f w ≡ (ok (f t), record w { tx = some t; calls = suc w.calls })
  unfolding statement run_statement
  query-works f t open_ = cc (open_, fine)

  pub query_unchecked-works :
      {A : Type 0} (f : Tables → List A) (t : Tables)
      → w.tx ≡ some t
      → query_unchecked e f w ≡ (ok (f t), record w { tx = some t; calls = suc w.calls })
  unfolding query_unchecked
  query_unchecked-works f t open_ = cc (fine, query-works f t open_)

  pub commit-works :
      (t : Tables)
      → w.tx ≡ some t
      → commit e w ≡ (ok tt, record w { committed = t; tx = none; calls = suc w.calls })
  unfolding commit commit_tables
  commit-works t open_ = cc (open_, fine)

  pub clock-works : clock e w ≡ (ok (e.now w.calls), record w { calls = suc w.calls })
  unfolding clock
  clock-works = refl

  pub update-works :
      (f : Tables → Tables) (t : Tables)
      → w.tx ≡ some t
      → update e f w ≡ (ok tt, record w { tx = some (f t); calls = suc w.calls })
  unfolding statement run_statement
  update-works f t open_ = cc (open_, fine)

  pub insert-works :
      (f : Tables → Result Tables) (t t' : Tables)
      → w.tx ≡ some t
      → f t ≡ ok t'
      → insert e f w ≡ (ok tt, record w { tx = some t'; calls = suc w.calls })
  unfolding statement run_statement
  insert-works f t t' open_ done = cc (open_, fine, done)

-- A rollback behind a commit finds the transaction closed.
pub try-rollback-works :
    (e : Environment) (w : World)
    → w.tx ≡ none
    → try (rollback e) w ≡ (ok (err (tx_closed ∷ [])), record w { calls = suc w.calls })
unfolding try rollback rollback_tables
try-rollback-works e w closed = rw closed refl
