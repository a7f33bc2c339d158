-- ===== src/Mint/Melt/Settle/Overpaid.antt =====
-- What a settled quote has overpaid, in unsigned 64-bit words: RefreshMeltQuoteState
-- (internal/mint/melting.go).
use nutmix.Prelude.{ℕ, ◌+◌, ◌≤◌, ◌<◌, ◌≡◌, List, u64, arith}
use nutmix.Cashu.Types.{MeltRequestDb, Proof, proofs_amount}
use nutmix.Mint.Balance.Value.{proofs_amount-lt}
use nutmix.Mint.Melt.Settle.{overpaid_fees}

-- If the sum of the amount, the lightning fee and the input fee is a word, then the overpaid fees
-- are the difference of the proofs and that sum where the proofs cover it, and wrap around to the
-- difference plus 2 ^ 64 where they do not.
pub overpaid_fees-wraps :
    (q : MeltRequestDb) (proofs : List Proof) (fee : ℕ)
    → q.amount + q.fee_paid + fee < u64
    → (q.amount + q.fee_paid + fee ≤ proofs_amount proofs
        → overpaid_fees q proofs fee + (q.amount + q.fee_paid + fee) ≡ proofs_amount proofs)
      × (proofs_amount proofs < q.amount + q.fee_paid + fee
          → overpaid_fees q proofs fee + (q.amount + q.fee_paid + fee) ≡ proofs_amount proofs + u64)
unfolding overpaid_fees
overpaid_fees-wraps q proofs fee small =
    let bound = proofs_amount-lt proofs in (λ covered. omega arith, λ short. omega arith)
