-- ===== src/Mint/Quotes/Stale.antt =====
-- What asking the backend writes over a mint quote: reconcileBolt11MintQuoteState
-- (internal/mint/minting.go).
use mathlib.Core.Path.{subst, sym}
use nutmix.Prelude.{String, List, [], ◌∷◌, Bool, ◌≡◌, arith, str_eq, Bool-cases, inl, inr}
use nutmix.Cashu.Errors.{ok}
use nutmix.Cashu.Types.{MintRequestDb, ActionState, paid}
use nutmix.Database.{
  Tables, change_mint_rows, change_mint_request_state, find_mint, get_mint_request_by_id,
}
use nutmix.Mint.Environment.{Environment, Invoice, settled}
use nutmix.Mint.Exec.{World}
use nutmix.Mint.Exec.Returns.{
  Returns, Returns-elim, lift-Returns, pure-Returns, commit-Returns, update-Returns, find-Returns,
  network-Returns,
}
use nutmix.Mint.Quotes.{apply_received, reconcile_bolt11_mint_quote_state}

-- A row that is found after its state was changed has the new state.
pub find-change_mint_request_state :
    (id : String) (state : ActionState) (minted : Bool) (t : Tables) (q : MintRequestDb)
    → get_mint_request_by_id id (change_mint_request_state id state minted t) ≡ ok q
    → (q.state ≡ state) × (q.minted ≡ minted)
unfolding get_mint_request_by_id change_mint_request_state find_mint change_mint_rows
find-change_mint_request_state id state minted t q h = found t.mint_request h
  where
    found :
        (rows : List MintRequestDb)
        → find_mint
            (λ (r : MintRequestDb). str_eq r.quote id)
            (change_mint_rows id state minted rows)
          ≡ ok q
        → (q.state ≡ state) × (q.minted ≡ minted)
    found [] h = absurd (cc h)
    found (r ∷ rs) h = elim (Bool-cases (str_eq r.quote id)) [
      | inl hit ↦ ground arith
      | inr miss ↦ found rs (ground arith)
    ]

-- If the backend reports the invoice of a mint quote as settled, and the quote comes back, then it
-- is in state paid, its flag `minted` is that of the caller's copy `q`, whatever other requests have
-- stored since `q` was read, and this row is committed.
pub reconcile_bolt11_mint_quote_state-Stale :
    (e : Environment) (q : MintRequestDb) (invoice : Invoice) (w w' : World)
    (answer : MintRequestDb)
    → e.backend.decode_invoice q.request ≡ ok invoice
    → e.backend.check_received w.calls q invoice ≡ ok settled
    → reconcile_bolt11_mint_quote_state e q w ≡ (ok answer, w')
    → (answer.state ≡ paid)
      × (answer.minted ≡ q.minted)
      × (get_mint_request_by_id q.quote w'.committed ≡ ok answer)
unfolding reconcile_bolt11_mint_quote_state apply_received
reconcile_bolt11_mint_quote_state-Stale e q invoice w w' answer decoded received h =
    Returns-elim _ _ h λ invoice' w1 decoded' h. Returns-elim _ _ h λ status w2 asked h.
      Returns-elim _ _ h λ _ w3 begun h. Returns-elim _ _ h λ u w4 applied h.
        Returns-elim _ _ h λ quote w5 found h. Returns-elim _ _ h λ u2 w6 done h.
          let (decoded_is, w1_is) = lift-Returns decoded' in
          let (answered, _) = network-Returns e _ w1 w2 status asked in
          let invoice_is : invoice ≡ invoice' = cc in
          let calls_is : w.calls ≡ w1.calls = cc in
          let status_is : settled ≡ status = cc in
          let (t, _, w4_is) =
            update-Returns e _ w3 w4 u
              (subst (λ s. Returns (apply_received e q s) w3 u w4) (sym status_is) applied) in
          let (t1, open_, hit, w5_is) = find-Returns e _ w4 w5 quote found in
          let (t2, open2, w6_is) = commit-Returns e w5 w6 u2 done in
          let (same, stays) = pure-Returns h in
          let t_is : t1 ≡ change_mint_request_state q.quote paid q.minted t = cc in
          let told = find-change_mint_request_state q.quote paid q.minted t quote (cc) in
          (cc, cc, cc)
