-- ===== src/Mint/Melt/Quote/Created.antt =====
-- What a new melt quote is: CreateMeltQuote (internal/mint/melting.go).
use nutmix.Prelude.{ℕ, ◌≤◌, some, Bool, true, false, ◌&&◌, ◌≡◌, ◌⊎◌, ◌==◌, add64}
use nutmix.Cashu.Errors.{ok}
use nutmix.Cashu.Types.{PostMeltQuoteBolt11Request, MeltRequestDb, msat, Amount, unpaid}
use nutmix.Cashu.Convert.{unit_from_string, unit_string, to}
use nutmix.Database.{get_melt_request_by_id}
use nutmix.Mint.Environment.{Environment, FeesResponse}
use nutmix.Mint.Exec.{World}
use nutmix.Mint.Exec.Returns.{Returns}
use nutmix.Mint.Melt.Quote.{Bolt11MeltReqData, over_limit}

-- The part of the amount that is asked for: all of it, or what a multi-path payment names, which is
-- no more and needs a backend that can pay in parts.
abbrev pub Asked : Environment → ℕ → Amount → Amount → Bool → Type 0
Asked e mpp amount asked in_parts =
    ((mpp == 0 ≡ true) × (asked ≡ amount) × (in_parts ≡ false))
    ⊎ ((mpp == 0 ≡ false)
        × (mpp ≤ amount.amount)
        × (e.backend.active_mpp ≡ true)
        × (asked.amount ≡ mpp)
        × (in_parts ≡ true))

-- The terms are those of the backend, or an internal payment asks for the amount and no fee.
abbrev pub Terms :
    Environment → PostMeltQuoteBolt11Request → Bolt11MeltReqData → FeesResponse → Type 0
Terms e r d terms =
    ((d.internal ≡ true) × (terms.fees.amount ≡ 0) × (terms.amount_to_send ≡ d.amount))
    ⊎ ((d.internal ≡ false)
        × (n : ℕ) × (e.backend.query_fees n r.request d.invoice false d.amount ≡ ok terms))

pub record Validated (e : Environment) (r : PostMeltQuoteBolt11Request) (d : Bolt11MeltReqData)
    : Type 0 where
  pub unit_is : unit_from_string e.x r.unit ≡ ok d.unit
  pub supported : e.backend.verify_unit_support d.unit ≡ true
  pub decoded : e.backend.decode_invoice r.request ≡ ok d.invoice
  pub millis : ℕ
  pub named : d.invoice.milli_sat ≡ some millis
  pub positive : (millis == 0) ≡ false
  pub within : over_limit millis e.config.peg_out_limit_sats ≡ false
  pub amount : Amount
  pub converted : to e.x (record { unit = msat; amount = millis }) d.unit ≡ ok amount
  pub asked : Asked e r.mpp amount d.amount d.mpp
  pub whole : (d.mpp && d.internal) ≡ false

pub record Created (e : Environment) (r : PostMeltQuoteBolt11Request) (w' : World)
    (q : MeltRequestDb) : Type 0 where
  pub d : Bolt11MeltReqData
  pub validated : Validated e r d
  pub terms : FeesResponse
  pub terms_are : Terms e r d terms
  pub amount_is : q.amount ≡ terms.amount_to_send.amount
  pub reserve_is : q.fee_reserve ≡ add64 terms.fees.amount 1
  pub request_is : q.request ≡ r.request
  pub unit_is : q.unit ≡ unit_string d.unit
  pub in_parts : q.mpp ≡ d.mpp
  pub starts_unpaid : q.state ≡ unpaid
  pub unmelted : q.melted ≡ false
  pub stored : get_melt_request_by_id q.quote w'.committed ≡ ok q
