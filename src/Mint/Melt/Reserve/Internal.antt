-- ===== src/Mint/Melt/Reserve/Internal.antt =====
-- A melt that pays an invoice of the mint itself: settleIfInternalMelt (internal/mint/melting.go).
use mathlib.Core.Path.{sym}
use nutmix.Prelude.{
  String, List, [], ◌∷◌, Bool, true, false, Bool-cases, some, ◌≡◌, ◌⊎◌, inl, inr, refl, ap, arith,
  str_eq, eq_iff, if◌then◌else◌,
}
use nutmix.Cashu.Errors.{Result, Error, ok, err, panic, fail_if-eq-ok}
use nutmix.Cashu.Types.{MeltRequestDb, MintRequestDb, paid, is_unpaid}
use nutmix.Database.{
  Tables, find_mint, get_mint_request_by_request, change_melt_request_state,
  change_mint_request_state,
}
use nutmix.Mint.Environment.{Environment}
use nutmix.Mint.Exec.{World, lift, pure}
use nutmix.Mint.Exec.Returns.{
  Returns, Returns-elim, pure-Returns, lift-Returns, try-find-Looked, Looked, update-Returns,
}
use nutmix.Mint.Melt.Quote.{is_no_rows}
use nutmix.Mint.Melt.Reserve.{settle_rows, settle_with, after_mint_lookup, settle_if_internal_melt}

-- The quote that comes back is settled against a mint quote of the same invoice and unit that was
-- unpaid: both rows are marked as paid in the one open transaction, whose tables are `rows` before
-- and `tables` behind.
pub record SettledInternally (q settled : MeltRequestDb) (rows tables : Tables) : Type 0 where
  pub against : MintRequestDb
  pub found : get_mint_request_by_request q.request rows ≡ ok against
  pub same_invoice : against.request ≡ q.request
  pub same_unit : q.unit ≡ against.unit
  pub was_unpaid : is_unpaid against.state ≡ true
  pub outcome : settled ≡ record q { fee_paid = 0; state = paid; melted = true }
  pub both_paid :
      tables
      ≡ change_melt_request_state q.quote paid true 0
          (change_mint_request_state against.quote paid against.minted rows)

-- What the settlement of a quote leaves: no mint quote has the invoice, and nothing is changed, or
-- one was settled against it.
abbrev pub Outcome : MeltRequestDb → MeltRequestDb → Tables → World → Type 0
Outcome q settled t w' =
    ((x : Error) × (get_mint_request_by_request q.request t ≡ err x)
      × (settled ≡ q)
      × (w'.tx ≡ some t))
    ⊎ ((t' : Tables) × (w'.tx ≡ some t') × SettledInternally q settled t t')

found_request :
    (request : String) (t : Tables) (m : MintRequestDb)
    → get_mint_request_by_request request t ≡ ok m
    → str_eq m.request request ≡ true
unfolding get_mint_request_by_request find_mint
found_request request t m h = scan t.mint_request h
  where
    scan :
        (rows : List MintRequestDb)
        → find_mint (λ (r : MintRequestDb). str_eq r.request request) rows ≡ ok m
        → str_eq m.request request ≡ true
    scan [] h = absurd (cc h)
    scan (r ∷ rs) h = elim (Bool-cases (str_eq r.request request)) [
      | inl hit ↦ ground arith
      | inr miss ↦ scan rs (ground arith)
    ]

module _ (e : Environment) where
  settle_rows-Returns :
      (q settled : MeltRequestDb) (m : MintRequestDb) (w w' : World) (t : Tables)
      → w.tx ≡ some t
      → get_mint_request_by_request q.request t ≡ ok m
      → m.request ≡ q.request
      → Returns (settle_rows e q m) w settled w'
      → (t' : Tables) × (w'.tx ≡ some t') × SettledInternally q settled t t'
  unfolding settle_rows
  settle_rows-Returns q settled m w w' t open_ hit invoice h = Returns-elim _ _ h λ _ w1 refused h.
      Returns-elim _ _ h λ _ w2 units h. Returns-elim _ _ h λ _ w3 idle h.
        Returns-elim _ _ h λ u w4 minted h. Returns-elim _ _ h λ u1 w5 melted h.
          let (outcome, w'_is) = pure-Returns h in
          let (_, w1_is) = lift-Returns refused in
          let (_, w2_is) = lift-Returns units in
          let (_, w3_is) = lift-Returns idle in
          let (t1, open1, w4_is) = update-Returns e _ w3 w4 u minted in
          let (t2, open2, w5_is) = update-Returns e _ w4 w5 u1 melted in
          let unit_test : str_eq q.unit m.unit ≡ true =
            ground (arith, fail_if-eq-ok _ _ (lift-Returns units).0) in
          (
            change_melt_request_state q.quote paid true 0
                (change_mint_request_state m.quote paid m.minted t),
            cc,
            record {
              against = m;
              found = hit;
              same_invoice = invoice;
              same_unit = (eq_iff q.unit m.unit).0 unit_test;
              was_unpaid = ground (arith, fail_if-eq-ok _ _ (lift-Returns idle).0);
              outcome = sym outcome;
              both_paid = refl;
            },
          )

  settle_with-Returns :
      (q settled : MeltRequestDb) (m : MintRequestDb) (w w' : World) (t : Tables)
      → w.tx ≡ some t
      → get_mint_request_by_request q.request t ≡ ok m
      → Returns (settle_with e q m) w settled w'
      → Outcome q settled t w'
  unfolding settle_with
  settle_with-Returns q settled m w w' t open_ hit h =
      let same = found_request q.request t m hit in
      inr (settle_rows-Returns q settled m w w' t open_ hit ((eq_iff _ _).0 same) (rw same at h))

  -- If the lookup of a mint quote of the invoice ends well, then no mint quote has it and the melt
  -- quote comes back as it is, or it and the mint quote were marked as paid together.
  lookup-Returns :
      (q settled : MeltRequestDb) (found : Result MintRequestDb) (w w' : World) (t : Tables)
      → w.tx ≡ some t
      → Looked (get_mint_request_by_request q.request t) found
      → Returns (after_mint_lookup e q found) w settled w'
      → Outcome q settled t w'
  unfolding after_mint_lookup
  lookup-Returns q settled (ok m) w w' t open_ hit h =
      settle_with-Returns q settled m w w' t open_ hit h
  lookup-Returns q settled (err x) w w' t open_ hit h = judged (is_no_rows x) refl h
    where
      here : Result MintRequestDb
      here = get_mint_request_by_request q.request t

      no_row : Looked here (err x) → is_no_rows x ≡ true → here ≡ err x
      no_row (inl told) missing = told
      no_row (inr (inl broken)) missing = absurd (cc (ap is_no_rows broken))
      no_row (inr (inr locked)) missing = absurd (cc (ap is_no_rows locked))

      judged :
          (b : Bool)
          → is_no_rows x ≡ b
          → Returns (if b then pure q else lift (err x)) w settled w'
          → Outcome q settled t w'
      judged true missing h =
          let (same, stays) = pure-Returns h in inl (x, no_row hit missing, sym same, cc)
      judged false other h = absurd (cc ((lift-Returns h).0))
  lookup-Returns q settled panic w w' t open_ hit h = absurd (cc ((lift-Returns h).0))

-- If the internal settlement comes back in an open transaction, then the transaction's tables have
-- no mint quote of the invoice, and they and the melt quote stay as they are, or the first mint
-- quote of the invoice in them is unpaid and of the same unit, and both quotes are marked as paid
-- in the transaction, the melt quote as melted without a fee.
pub settle_if_internal_melt-SettledInternally :
    (e : Environment) (q settled : MeltRequestDb) (t : Tables) (w w' : World)
    → w.tx ≡ some t
    → settle_if_internal_melt e q w ≡ (ok settled, w')
    → Outcome q settled t w'
unfolding settle_if_internal_melt
settle_if_internal_melt-SettledInternally e q settled t w w' open_ h =
    Returns-elim _ _ h λ found w1 tried h.
      let (stays, looked) =
        try-find-Looked e (get_mint_request_by_request q.request) t w w1 found open_ tried in
      lookup-Returns e q settled found w1 w' t stays looked h
