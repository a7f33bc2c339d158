-- ===== src/Mint/Melt/Pay/Outcome.antt =====
-- What a melt that comes back has checked, and when it hands out change: ExecuteMelt
-- (internal/mint/melting.go).
use nutmix.Prelude.{List, [], false, ◌≡◌, ◌⊎◌, add64}
use nutmix.Cashu.Errors.{ok}
use nutmix.Cashu.Types.{PostMeltBolt11Request, MeltRequestDb, Proof, Amount, is_paid}
use nutmix.Cashu.Convert.{to}
use nutmix.Mint.Environment.{Environment}
use nutmix.Mint.Exec.{World}
use nutmix.Mint.Exec.Returns.{Returns}
use nutmix.Mint.Melt.Reserve.{Bolt11MeltData}
use nutmix.Mint.Melt.Reserve.Taken.{Taken}
use nutmix.Mint.Melt.Settle.{refresh_melt_quote_state}
use nutmix.Mint.Melt.Pay.Paid.{Paid}
use nutmix.Mint.Melt.Reservation.{Funded}
use nutmix.Mint.Melt.Pay.{MeltResponse}
use nutmix.Mint.Melt.Pay.Change.{Bounded}

-- The quote is not paid and there is no change, or it was settled internally or paid by the backend,
-- and the change is worth no more than the proofs exceed the expenses by: the amount of the quote that was taken,
-- what the payment has cost and the input fee, both in the unit of the quote.
abbrev pub Settled : Environment → Bolt11MeltData → MeltRequestDb → MeltResponse → Type 0
Settled e d taken answer =
    ((is_paid answer.quote.state ≡ false) × (answer.change ≡ []))
    ⊎ ((paid_fee : Amount) × (lightning : Amount) × (fee : Amount) × Paid e taken answer.quote
          paid_fee
        × (to e.x paid_fee d.unit ≡ ok lightning)
        × (to e.x d.fee d.unit ≡ ok fee)
        × Bounded e d.amount_proofs.amount
            (add64 (add64 answer.quote.amount lightning.amount) fee.amount) answer.change)

-- What a melt that comes back has done: the quote `known` that the refresh returned has accepted the
-- inputs, they were taken, and the answer is what the payment made of the quote `taken`.
pub record Melted (e : Environment) (r : PostMeltBolt11Request) (w : World) (answer : MeltResponse)
    : Type 0 where
  pub known : MeltRequestDb
  pub w1 : World
  pub refreshed : refresh_melt_quote_state e r.quote w ≡ (ok known, w1)
  pub data_ : Bolt11MeltData
  pub funded : Funded e r known data_
  pub taken : MeltRequestDb
  pub inputs : List Proof
  pub w2 : World
  pub w3 : World
  pub taking : Taken e r w2 taken inputs w3.committed
  pub outcome : Settled e data_ taken answer
