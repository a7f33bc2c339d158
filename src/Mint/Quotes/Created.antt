-- ===== src/Mint/Quotes/Created.antt =====
-- What a new mint quote is: CreateMintQuote (internal/mint/minting.go).
use nutmix.Prelude.{true, false, some, ◌≡◌, refl, arith, str_eq, eq_iff, ◌==◌}
use nutmix.Cashu.Errors.{ok, fail_if-eq-ok}
use nutmix.Cashu.Types.{PostMintQuoteBolt11Request, MintRequestDb, CashuUnit, unpaid}
use nutmix.Database.{Tables, save_mint_request, get_mint_request_by_id, find_mint}
use nutmix.Mint.Environment.{Environment}
use nutmix.Mint.Exec.{World}
use nutmix.Mint.Exec.Returns.{
  Returns, Returns-elim, pure-Returns, lift-Returns, commit-Returns, insert-Returns,
}
use nutmix.Mint.Quotes.{
  Method, bolt11, bolt12, btc, validate_mint_configuration, create_bolt11_mint_quote,
  create_mint_quote,
}

-- A row that was inserted is the one that is found.
get_mint_request_by_id-save_mint_request :
    (q : MintRequestDb) (t t' : Tables)
    → save_mint_request q t ≡ ok t'
    → get_mint_request_by_id q.quote t' ≡ ok q
unfolding save_mint_request get_mint_request_by_id find_mint
get_mint_request_by_id-save_mint_request q t t' h =
    let self : str_eq q.quote q.quote ≡ true = (eq_iff q.quote q.quote).1 refl in ground arith

pub record Created (e : Environment) (r : PostMintQuoteBolt11Request) (q : MintRequestDb)
    (committed : Tables) : Type 0 where
  pub wanted : (r.amount == 0) ≡ false
  pub minting : e.config.peg_out_only ≡ false
  pub amount_is : q.amount ≡ some r.amount
  pub key_is : q.pubkey ≡ r.pubkey
  pub starts_unpaid : q.state ≡ unpaid
  pub unissued : q.minted ≡ false
  pub stored : get_mint_request_by_id q.quote committed ≡ ok q

module _ (e : Environment) (r : PostMintQuoteBolt11Request) where
  create_bolt11_mint_quote-Returns :
      (unit : CashuUnit) (w w' : World) (q : MintRequestDb)
      → Returns (create_bolt11_mint_quote e r unit) w q w'
      → (q.amount ≡ some r.amount)
        × (q.pubkey ≡ r.pubkey)
        × (q.state ≡ unpaid)
        × (q.minted ≡ false)
        × (get_mint_request_by_id q.quote w'.committed ≡ ok q)
  unfolding create_bolt11_mint_quote
  create_bolt11_mint_quote-Returns unit w w' q h = Returns-elim _ _ h λ invoice w1 _ h.
      Returns-elim _ _ h λ id w2 _ h. Returns-elim _ _ h λ now w3 _ h.
        Returns-elim _ _ h λ _ w4 _ h. Returns-elim _ _ h λ u w5 saved h.
          Returns-elim _ _ h λ u1 w6 done h.
            let (same, stays) = pure-Returns h in
            let (t, t', open_, rows, w5_is) = insert-Returns e _ w4 w5 u saved in
            let (t1, open1, w6_is) = commit-Returns e w5 w6 u1 done in
            let found = get_mint_request_by_id-save_mint_request _ t t' rows in (cc, cc, cc, cc, cc)

  validated :
      (w w' : World) (unit : CashuUnit)
      → Returns (validate_mint_configuration e r) w unit w'
      → ((r.amount == 0) ≡ false) × (e.config.peg_out_only ≡ false)
  unfolding validate_mint_configuration
  validated w w' unit h = Returns-elim _ _ h λ _ w1 wanted h. Returns-elim _ _ h λ _ w2 minting h.
      (fail_if-eq-ok _ _ (lift-Returns wanted).0, fail_if-eq-ok _ _ (lift-Returns minting).0)

-- If a mint quote is created, then its method is BOLT11, the amount is not zero and minting is
-- allowed; the quote has the amount and the key of the request, is unpaid and not issued, and is the
-- one that its id finds in the committed tables.
pub create_mint_quote-Created :
    (e : Environment) (r : PostMintQuoteBolt11Request) (method : Method) (w w' : World)
    (q : MintRequestDb)
    → create_mint_quote e r method w ≡ (ok q, w')
    → (method ≡ bolt11) × Created e r q w'.committed
unfolding create_mint_quote
create_mint_quote-Created e r bolt11 w w' q h = Returns-elim _ _ h λ unit w1 checked h.
    Returns-elim _ _ h λ _ w2 _ h.
      let (wanted, minting) = validated e r w w1 unit checked in
      let (amount_is, key_is, starts_unpaid, unissued, stored) =
        create_bolt11_mint_quote-Returns e r unit w2 w' q h in
      (
        refl,
        record {
          wanted = wanted;
          minting = minting;
          amount_is = amount_is;
          key_is = key_is;
          starts_unpaid = starts_unpaid;
          unissued = unissued;
          stored = stored;
        },
      )
create_mint_quote-Created e r bolt12 w w' q h =
    Returns-elim _ _ h λ unit w1 checked h. absurd (cc ((lift-Returns h).0))
create_mint_quote-Created e r btc w w' q h =
    Returns-elim _ _ h λ unit w1 checked h. absurd (cc ((lift-Returns h).0))
