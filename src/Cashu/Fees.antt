-- ===== src/Cashu/Fees.antt =====
-- Fees (api/cashu/util.go): the input fee of a list of proofs.
pub mod Ceiling
use nutmix.Prelude.{
  ℕ, ◌+◌, ◌/◌, String, List, [], ◌∷◌, none, false, not, str_eq, if◌then◌else◌, add64, u64,
}
use nutmix.Cashu.Errors.{Result, ok, err, keyset_not_know, ◌>>=◌}
use nutmix.Cashu.Types.{Proof, BasicKeysetResponse}

-- `var keysetToUse BasicKeysetResponse`
abbrev pub zero_keyset : BasicKeysetResponse
zero_keyset = record {
  final_expiry = none;
  id = "";
  unit = "";
  input_fee_ppk = 0;
  version = 0;
  active = false;
}

-- The inner loop has no `break`: the last keyset with the id is taken.
find_keyset : String → BasicKeysetResponse → List BasicKeysetResponse → BasicKeysetResponse
find_keyset id current [] = current
find_keyset id current (k ∷ ks) = find_keyset id (if str_eq k.id id then k else current) ks

-- One round of the outer loop: the keyset to use for a proof, carried over while ids repeat.
next_keyset : List BasicKeysetResponse → BasicKeysetResponse → Proof → Result BasicKeysetResponse
unfolding find_keyset
next_keyset keysets current p =
    if str_eq current.id p.id
    then ok current
    else let found = find_keyset p.id current keysets in
      if str_eq found.id p.id then ok found else err (keyset_not_know ∷ [])

fees_loop : List BasicKeysetResponse → BasicKeysetResponse → ℕ → List Proof → Result ℕ
unfolding next_keyset
fees_loop keysets current total [] = ok total
fees_loop keysets current total (p ∷ ps) =
    next_keyset keysets current p >>= λ k. fees_loop keysets k (add64 total k.input_fee_ppk) ps

-- `(totalFees + 999) / 1000` on `uint`.
unfoldable pub fees : List Proof → List BasicKeysetResponse → Result ℕ
unfolding fees_loop
fees proofs keysets =
    fees_loop keysets zero_keyset 0 proofs >>= λ total. ok (add64 total 999 / 1000)
