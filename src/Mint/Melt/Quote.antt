-- ===== src/Mint/Melt/Quote.antt =====
-- Melt quotes: validateBolt11MeltQuoteRequest, createAndStoreBolt11MeltQuote and their callers
-- (internal/mint/melting.go), IsInternalTransaction (internal/mint/utils.go).
pub mod Created
use nutmix.Prelude.{
  ℕ, ◌+◌, ◌*◌, String, List, [], ◌∷◌, Bool, true, false, not, ◌&&◌, Option, none, some, str_eq,
  if◌then◌else◌, ltb, ◌==◌, add64, signed_lt,
}
use nutmix.Cashu.Errors.{
  Result, ok, err, panic, fail_if, join, unit_not_supported, amountless_invoice_not_supported,
  amount_outside_limit, payment_method_not_supported, no_rows, Sentinel,
}
use nutmix.Cashu.Types.{
  PostMeltQuoteBolt11Request, MeltRequestDb, CashuUnit, msat, unpaid, Amount, MintRequestDb,
}
use nutmix.Cashu.Convert.{unit_from_string, unit_string, to}
use nutmix.Database.{get_mint_request_by_request, save_melt_request}
use nutmix.Mint.Environment.{Environment, Invoice, FeesResponse}
use nutmix.Mint.Exec.{
  M, pure, lift, try, clock, random_hash, network, get_tx, find, insert, commit, ◌>>=◌, ◌>>◌,
}
use nutmix.Mint.Quotes.{Method, bolt11, expiry_seconds, milli_sat}

-- bolt11MeltReqData
pub record Bolt11MeltReqData : Type 0 where
  pub invoice : Invoice
  pub amount : Amount
  pub unit : CashuUnit
  pub internal : Bool
  pub mpp : Bool

-- The peg-out limit is in satoshis, the invoice in millisatoshis, and both sides are compared as
-- signed words.
abbrev pub over_limit : ℕ → Option ℕ → Bool
over_limit n none = false
over_limit n (some limit) = signed_lt (limit * 1000) n

abbrev pub is_no_rows : List Sentinel → Bool
is_no_rows [] = false
is_no_rows (no_rows ∷ es) = true
is_no_rows (x ∷ es) = is_no_rows es

module _ (e : Environment) where
  -- The error branch of IsInternalTransaction: with no row the payment is not internal.
  after_lookup : String → Result MintRequestDb → M Bool
  after_lookup request (ok q) = commit e >>= λ _. pure (str_eq q.request request)
  after_lookup request (err x) = if is_no_rows x then pure false else lift (err x)
  after_lookup request panic = lift panic

  -- IsInternalTransaction
  unfoldable pub is_internal_transaction : String → M Bool
  unfolding after_lookup
  is_internal_transaction request = do
    get_tx e
    found ← try (find e (get_mint_request_by_request request))
    after_lookup request found

  -- The amount of a multi-path payment replaces that of the invoice.
  mpp_amount : ℕ → CashuUnit → Amount → Result (Amount × Bool)
  mpp_amount mpp unit amount =
      if mpp == 0
      then ok (amount, false)
      else if ltb amount.amount mpp
      then err []
      else if e.backend.active_mpp
      then ok (record { unit = unit; amount = mpp }, true)
      else err []

  -- validateBolt11MeltQuoteRequest
  unfoldable pub validate_bolt11_melt_quote_request :
      PostMeltQuoteBolt11Request → M Bolt11MeltReqData
  unfolding mpp_amount
  validate_bolt11_melt_quote_request r = do
    unit ← lift (join unit_not_supported (unit_from_string e.x r.unit))
    lift (fail_if (not (e.backend.verify_unit_support unit)) (unit_not_supported ∷ []))
    invoice ← lift (e.backend.decode_invoice r.request)
    millis ← lift (milli_sat invoice)
    lift (fail_if (millis == 0) (amountless_invoice_not_supported ∷ []))
    lift (fail_if (over_limit millis e.config.peg_out_limit_sats) (amount_outside_limit ∷ []))
    amount ← lift (to e.x (record { unit = msat; amount = millis }) unit)
    chosen ← lift (mpp_amount r.mpp unit amount)
    internal ← is_internal_transaction r.request
    lift (fail_if (chosen.1 && internal) [])
    pure (record {
      invoice = invoice;
      amount = chosen.0;
      unit = unit;
      internal = internal;
      mpp = chosen.1;
    })

  -- The fee, the checking id and the amount: an internal payment asks no backend.
  quote_terms : PostMeltQuoteBolt11Request → Bolt11MeltReqData → String → M FeesResponse
  quote_terms r d quote_id =
      if d.internal
      then pure (record {
        checking_id = quote_id;
        fees = record { unit = d.unit; amount = 0 };
        amount_to_send = d.amount;
      })
      else network e (λ n. e.backend.query_fees n r.request d.invoice d.internal d.amount)

  -- createAndStoreBolt11MeltQuote
  unfoldable pub create_and_store_bolt11_melt_quote :
      PostMeltQuoteBolt11Request → Bolt11MeltReqData → M MeltRequestDb
  unfolding quote_terms
  create_and_store_bolt11_melt_quote r d = do
    quote_id ← random_hash e
    now ← clock e
    terms ← quote_terms r d quote_id
    let quote : MeltRequestDb = record {
      payment_preimage = "";
      unit = unit_string d.unit;
      request = r.request;
      state = unpaid;
      quote = quote_id;
      checking_id = terms.checking_id;
      expiry = now + expiry_seconds;
      amount = terms.amount_to_send.amount;
      fee_reserve = add64 terms.fees.amount 1;
      fee_paid = 0;
      seen_at = now;
      melted = false;
      mpp = d.mpp;
    }
    get_tx e
    insert e (save_melt_request quote)
    commit e
    pure quote

  -- createBolt11MeltQuote and CreateMeltQuote
  unfoldable pub create_melt_quote : PostMeltQuoteBolt11Request → Method → M MeltRequestDb
  create_melt_quote r bolt11 =
      validate_bolt11_melt_quote_request r >>= create_and_store_bolt11_melt_quote r
  create_melt_quote r _ = lift (err (payment_method_not_supported ∷ []))
