-- ===== src/Database/Quotes.antt =====
-- What the update of one column of melt_request keeps of the rows
-- (internal/database/postgresql/main.go).
use nutmix.Prelude.{
  refl, true, eq_iff, String, List, [], ◌∷◌, ◌≡◌, arith, str_eq, Bool-cases, inl, inr,
  if◌then◌else◌,
}
use nutmix.Cashu.Errors.{ok}
use nutmix.Cashu.Types.{MeltRequestDb}
use nutmix.Database.{
  Tables, find_melt, update_melt, get_melt_request_by_id, add_preimage_melt_request,
  save_melt_request,
}

-- A row that is found is found again after a preimage was stored, in the state it had.
pub get_melt_request_by_id-add_preimage :
    (id quote preimage : String) (t : Tables) (q : MeltRequestDb)
    → get_melt_request_by_id id t ≡ ok q
    → (r : MeltRequestDb) × (get_melt_request_by_id id (add_preimage_melt_request quote preimage t)
        ≡ ok r)
      × (r.state ≡ q.state)
unfolding get_melt_request_by_id add_preimage_melt_request find_melt update_melt
get_melt_request_by_id-add_preimage id quote preimage t q h = found t.melt_request h
  where
    found :
        (rows : List MeltRequestDb)
        → find_melt id rows ≡ ok q
        → (r : MeltRequestDb) × (find_melt id (
              update_melt quote
                (λ (p : MeltRequestDb). record p { payment_preimage = preimage })
                rows)
            ≡ ok r)
          × (r.state ≡ q.state)
    found [] h = absurd (cc h)
    found (p ∷ ps) h = elim (Bool-cases (str_eq p.quote id)) [
      | inl hit ↦ (
        (if str_eq p.quote quote then record p { payment_preimage = preimage } else p),
        ground arith,
        ground arith,
      )
      | inr miss ↦ let (r, again, same) = found ps (ground arith) in (r, ground arith, same)
    ]

-- A row that was inserted is the one that is found.
pub get_melt_request_by_id-save_melt_request :
    (q : MeltRequestDb) (t t' : Tables)
    → save_melt_request q t ≡ ok t'
    → get_melt_request_by_id q.quote t' ≡ ok q
unfolding save_melt_request get_melt_request_by_id find_melt
get_melt_request_by_id-save_melt_request q t t' h =
    let self : str_eq q.quote q.quote ≡ true = (eq_iff q.quote q.quote).1 refl in ground arith
