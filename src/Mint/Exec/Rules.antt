-- ===== src/Mint/Exec/Rules.antt =====
-- Invariants of the tables under the calls to the environment and the database.
use mathlib.Core.Path.{subst}
use nutmix.Prelude.{List, ℕ, suc, String, [], ◌∷◌, Option, none, some, ◌≡◌, refl}
use nutmix.Cashu.Errors.{Result, ok, err, panic, lock_unavailable}
use nutmix.Database.{Tables}
use nutmix.Mint.Environment.{Environment, Fault, works, locked, lost_reply}
use nutmix.Mint.Exec.{
  query_unchecked, read_none, World, clock, random_hash, network, get_tx, statement, run_statement,
  commit, commit_tables, rollback, rollback_tables, query, update, insert, find,
}
use nutmix.Mint.Exec.Triples.{Post, Triple, Keeps, Triple-weaken}

-- An invariant of tables, of the committed ones and of those of the open transaction.
abbrev pub InTx : (Tables → Type 0) → Option Tables → Type 0
InTx T none = Unit
InTx T (some t) = T t

abbrev pub Holds : (Tables → Type 0) → World → Type 0
Holds T w = T w.committed × InTx T w.tx

module _ (e : Environment) (T : Tables → Type 0) where
  pub clock-Keeps : Keeps (Holds T) (clock e)
  unfolding clock
  clock-Keeps = record { run = λ w h. h }

  pub random_hash-Keeps : Keeps (Holds T) (random_hash e)
  unfolding random_hash
  random_hash-Keeps = record { run = λ w h. ended (e.random_hash w.calls) w h }
    where
      ended :
          (r : Result String) (w : World)
          → Holds T w
          → Post (λ _. Holds T) (Holds T) (r, record w { calls = suc w.calls })
      ended (ok a) w h = h
      ended (err x) w h = h
      ended panic w h = h

  pub network-Keeps : {A : Type 0} (f : ℕ → Result A) → Keeps (Holds T) (network e f)
  unfolding network
  network-Keeps {A} f = record { run = λ w h. ended (f w.calls) w h }
    where
      ended :
          (r : Result A) (w : World)
          → Holds T w
          → Post (λ _. Holds T) (Holds T) (r, record w { calls = suc w.calls })
      ended (ok a) w h = h
      ended (err x) w h = h
      ended panic w h = h

  -- The other requests keep the invariant too.
  pub get_tx-Keeps : ((n : ℕ) (t : Tables) → T t → T (e.others n t)) → Keeps (Holds T) (get_tx e)
  unfolding get_tx
  get_tx-Keeps others = record {
    run = λ w h. ended (e.fault w.calls) w (others w.calls w.committed h.0);
  }
    where
      ended :
          (f : Fault) (w : World)
          → T (e.others w.calls w.committed)
          → Post {A = Unit {0}}
              (λ _. Holds T)
              (Holds T)
              (let t = e.others w.calls w.committed in
                let w' = record w { committed = t; tx = none; calls = suc w.calls } in
                elim f [ works ↦ (ok tt, record w' { tx = some t }) | _ ↦ (err [], w') ])
      ended works w h = (h, h)
      ended _ w h = (h, tt)

  run_statement-Triple :
      {A : Type 0} (G : A → Type 0) (op : Tables → Result (A × Tables))
      → ((t : Tables) → T t → (a : A) (t' : Tables) → op t ≡ ok (a, t') → T t' × G a)
      → (w : World) (tx : Option Tables) → T w.committed
      → InTx T w.tx
      → InTx T tx
      → Post (λ a v. Holds T v × G a) (Holds T) (run_statement e op w tx)
  unfolding run_statement
  run_statement-Triple G op h w none c i k = (c, i)
  run_statement-Triple {A} G op h w (some t) c i k = on_fault (e.fault w.calls)
    where
      on_result :
          (r : Result (A × Tables))
          → op t ≡ r
          → Post {A = A}
              (λ a v. Holds T v × G a)
              (Holds T)
              (elim r [
                | ok (a, t') ↦ (ok a, record w { tx = some t'; calls = suc w.calls })
                | err x ↦ (err x, record w { calls = suc w.calls })
                | panic ↦ (panic, record w { calls = suc w.calls })
              ])
      on_result (ok (a, t')) e' = ((c, (h t k a t' e').0), (h t k a t' e').1)
      on_result (err x) e' = (c, i)
      on_result panic e' = (c, i)

      on_fault :
          (f : Fault)
          → Post {A = A}
              (λ a v. Holds T v × G a)
              (Holds T)
              (elim f [
                | works ↦ elim (op t) [
                  | ok (a, t') ↦ (ok a, record w { tx = some t'; calls = suc w.calls })
                  | err x ↦ (err x, record w { calls = suc w.calls })
                  | panic ↦ (panic, record w { calls = suc w.calls })
                ]
                | locked ↦ (err (lock_unavailable ∷ []), record w { calls = suc w.calls })
                | _ ↦ (err [], record w { calls = suc w.calls })
              ])
      on_fault works = on_result (op t) refl
      on_fault locked = (c, i)
      on_fault _ = (c, i)

  -- A statement that keeps the tables' invariant, with what its success tells.
  pub statement-Triple :
      {A : Type 0} (G : A → Type 0) (op : Tables → Result (A × Tables))
      → ((t : Tables) → T t → (a : A) (t' : Tables) → op t ≡ ok (a, t') → T t' × G a)
      → Triple (Holds T) (statement e op) (λ a w. Holds T w × G a) (Holds T)
  unfolding statement
  statement-Triple G op h = record { run = λ w p. run_statement-Triple G op h w w.tx p.0 p.1 p.1 }

  commit_tables-Keeps :
      (w : World) (tx : Option Tables)
      → T w.committed
      → InTx T w.tx
      → InTx T tx
      → Post {A = Unit {0}} (λ _. Holds T) (Holds T) (commit_tables e w tx)
  unfolding commit_tables
  commit_tables-Keeps w none c j i = (c, j)
  commit_tables-Keeps w (some t) c j i = on_fault (e.fault w.calls)
    where
      on_fault :
          (f : Fault)
          → Post {A = Unit {0}}
              (λ _. Holds T)
              (Holds T)
              (elim f [
                | works ↦ (ok tt, record w { committed = t; tx = none; calls = suc w.calls })
                | lost_reply ↦ (err [], record w { committed = t; tx = none; calls = suc w.calls })
                | _ ↦ (err [], record w { tx = none; calls = suc w.calls })
              ])
      on_fault works = (i, tt)
      on_fault lost_reply = (i, tt)
      on_fault _ = (c, tt)

  pub commit-Keeps : Keeps (Holds T) (commit e)
  unfolding commit
  commit-Keeps = record { run = λ w h. commit_tables-Keeps w w.tx h.0 h.1 h.1 }

  rollback_tables-Keeps :
      (w : World) (tx : Option Tables)
      → T w.committed
      → InTx T w.tx
      → Post {A = Unit {0}} (λ _. Holds T) (Holds T) (rollback_tables e w tx)
  unfolding rollback_tables
  rollback_tables-Keeps w none c i = (c, i)
  rollback_tables-Keeps w (some t) c i = on_fault (e.fault w.calls)
    where
      on_fault :
          (f : Fault)
          → Post {A = Unit {0}}
              (λ _. Holds T)
              (Holds T)
              (elim f [
                | works ↦ (ok tt, record w { tx = none; calls = suc w.calls })
                | _ ↦ (err [], record w { tx = none; calls = suc w.calls })
              ])
      on_fault works = (c, tt)
      on_fault _ = (c, tt)

  pub rollback-Keeps : Keeps (Holds T) (rollback e)
  unfolding rollback
  rollback-Keeps = record { run = λ w h. rollback_tables-Keeps w w.tx h.0 h.1 }

  -- A query and an update, by what they do to the tables.
  pub query-Keeps : {A : Type 0} (f : Tables → A) → Keeps (Holds T) (query e f)
  query-Keeps {A} f =
      Triple-weaken
        (statement-Triple (λ _. Unit {0}) (λ t. ok (f t, t))
          (λ t h a t' eq. (same t t' h (fields eq), tt)))
        (λ a w h. h.0)
    where
      fields :
          {t t' : Tables} {a b : A}
          → ◌≡◌ {A = Result (A × Tables)} (ok (a, t)) (ok (b, t'))
          → t ≡ t'
      fields eq = cc

      same : (t t' : Tables) → T t → t ≡ t' → T t'
      same t t' h eq = subst T eq h

  pub query_unchecked-Keeps :
      {A : Type 0} (f : Tables → List A) → Keeps (Holds T) (query_unchecked e f)
  unfolding query_unchecked read_none
  query_unchecked-Keeps {A} f = record { run = λ w h. on_fault w h (e.fault w.calls) }
    where
      on_tx :
          (w : World) (tx : Option Tables)
          → Holds T w
          → Post {A = List A} (λ _. Holds T) (Holds T) (read_none e w tx)
      on_tx w none h = h
      on_tx w (some t) h = h

      on_fault :
          (w : World)
          → Holds T w
          → (f' : Fault)
          → Post {A = List A}
              (λ _. Holds T)
              (Holds T)
              (elim f' [ lost_reply ↦ read_none e w w.tx | _ ↦ query e f w ])
      on_fault w h lost_reply = on_tx w w.tx h
      on_fault w h _ = (query-Keeps f).run w h

  pub query-Triple :
      {A : Type 0} (G : A → Type 0) (f : Tables → A)
      → ((t : Tables) → T t → G (f t))
      → Triple (Holds T) (query e f) (λ a w. Holds T w × G a) (Holds T)
  query-Triple {A} G f h = statement-Triple G (λ t. ok (f t, t)) (λ t k a t' eq. told t t' a k eq)
    where
      told :
          (t t' : Tables) (a : A)
          → T t
          → ◌≡◌ {A = Result (A × Tables)} (ok (f t, t)) (ok (a, t'))
          → T t' × G a
      told t t' a k eq =
          let same : t ≡ t' = cc in
          let value : f t ≡ a = cc in (subst T same k, subst G value (h t k))

  pub update-Keeps :
      (f : Tables → Tables) → ((t : Tables) → T t → T (f t)) → Keeps (Holds T) (update e f)
  update-Keeps f h =
      Triple-weaken
        (statement-Triple (λ _. Unit {0}) (λ t. ok (tt, f t)) (λ t k a t' eq. (told t t' k eq, tt)))
        (λ a w p. p.0)
    where
      told :
          (t t' : Tables) {u : Unit {0}}
          → T t
          → ◌≡◌ {A = Result (Unit {0} × Tables)} (ok (tt, f t)) (ok (u, t'))
          → T t'
      told t t' k eq = let same : f t ≡ t' = cc in subst T same (h t k)

  pub insert-Keeps :
      (f : Tables → Result Tables)
      → ((t t' : Tables) → f t ≡ ok t' → T t → T t')
      → Keeps (Holds T) (insert e f)
  insert-Keeps f h =
      Triple-weaken
        (statement-Triple (λ _. Unit {0})
          (λ t. elim (f t) [ ok t' ↦ ok (tt, t') | err x ↦ err x | panic ↦ panic ])
          (λ t k a t' eq. (h t t' (told (f t) eq) k, tt)))
        (λ a w p. p.0)
    where
      told :
          (r : Result Tables) {u : Unit {0}} {t' : Tables}
          → ◌≡◌ {A = Result (Unit {0} × Tables)}
              (elim r [ ok t' ↦ ok (tt, t') | err x ↦ err x | panic ↦ panic ])
              (ok (u, t'))
          → r ≡ ok t'
      told (ok t) eq = cc
      told (err x) eq = cc
      told panic eq = cc

  pub find-Keeps : {A : Type 0} (f : Tables → Result A) → Keeps (Holds T) (find e f)
  find-Keeps {A} f =
      Triple-weaken
        (statement-Triple (λ _. Unit {0})
          (λ t. elim (f t) [ ok a ↦ ok (a, t) | err x ↦ err x | panic ↦ panic ])
          (λ t k a t' eq. (subst T (told (f t) eq) k, tt)))
        (λ a w p. p.0)
    where
      told :
          (r : Result A) {t t' : Tables} {b : A}
          → ◌≡◌ {A = Result (A × Tables)}
              (elim r [ ok a ↦ ok (a, t) | err x ↦ err x | panic ↦ panic ])
              (ok (b, t'))
          → t ≡ t'
      told (ok a) eq = cc
      told (err x) eq = cc
      told panic eq = cc
