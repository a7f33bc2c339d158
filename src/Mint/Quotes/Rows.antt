-- ===== src/Mint/Quotes/Rows.antt =====
-- The row that the id of a mint quote finds (internal/database/postgresql/main.go,
-- internal/mint/minting.go).
use nutmix.Prelude.{String, List, [], ◌∷◌, true, ◌≡◌, arith, str_eq, eq_iff, Bool-cases, inl, inr}
use nutmix.Cashu.Errors.{ok}
use nutmix.Cashu.Types.{MintRequestDb, RecoverSigDb}
use nutmix.Database.{Tables, find_mint, get_mint_request_by_id, save_restore_sigs}
use nutmix.Mint.Environment.{Environment}
use nutmix.Mint.Exec.{World}
use nutmix.Mint.Exec.Returns.{Returns-elim, pure-Returns, find-Returns}
use nutmix.Mint.Quotes.{reconcile_bolt11_mint_quote_state}

pub get_mint_request_by_id-quote :
    (id : String) (t : Tables) (q : MintRequestDb)
    → get_mint_request_by_id id t ≡ ok q
    → q.quote ≡ id
unfolding get_mint_request_by_id find_mint
get_mint_request_by_id-quote id t q h = (eq_iff q.quote id).0 (scan t.mint_request h)
  where
    scan :
        (rows : List MintRequestDb)
        → find_mint (λ (r : MintRequestDb). str_eq r.quote id) rows ≡ ok q
        → str_eq q.quote id ≡ true
    scan [] h = absurd (cc h)
    scan (r ∷ rs) h = elim (Bool-cases (str_eq r.quote id)) [
      | inl hit ↦ ground arith
      | inr miss ↦ scan rs (ground arith)
    ]

-- Storing signatures leaves the quotes.
pub same_quotes :
    (recovery : List RecoverSigDb) (t t' : Tables) (id : String)
    → save_restore_sigs recovery t ≡ ok t'
    → get_mint_request_by_id id t ≡ get_mint_request_by_id id t'
unfolding save_restore_sigs get_mint_request_by_id
same_quotes recovery t t' id h = ground arith

pub reconcile-quote :
    (e : Environment) (q : MintRequestDb) (w w' : World) (current : MintRequestDb)
    → reconcile_bolt11_mint_quote_state e q w ≡ (ok current, w')
    → current.quote ≡ q.quote
unfolding reconcile_bolt11_mint_quote_state
reconcile-quote e q w w' current h = Returns-elim _ _ h λ _ w1 _ h. Returns-elim _ _ h λ _ w2 _ h.
    Returns-elim _ _ h λ _ w3 _ h. Returns-elim _ _ h λ _ w4 _ h.
      Returns-elim _ _ h λ quote w5 found h. Returns-elim _ _ h λ _ w6 _ h.
        let (same, _) = pure-Returns h in
        let (t, _, hit, _) = find-Returns e _ w4 w5 quote found in
        let told = get_mint_request_by_id-quote q.quote t quote hit in cc
