-- ===== src/Mint/Polling/Told.antt =====
-- What a poll of a melt quote tells and what it stores: CheckMeltRequest
-- (internal/mint/bolt11.go).
use mathlib.Core.Path.{subst}
use nutmix.Prelude.{
  ℕ, suc, String, [], Bool, true, false, ◌||◌, none, some, ◌≡◌, refl, inl, inr, ◌⊎◌, if◌then◌else◌,
}
use nutmix.Cashu.Errors.{>>=-eq-ok, Result, ok, err, panic, Error}
use nutmix.Cashu.Convert.{unit_from_string, to}
use nutmix.Cashu.Types.{
  CashuUnit, Amount, ActionState, paid, unpaid, MeltRequestDb, is_paid, is_issued,
}
use nutmix.Database.{Tables, get_melt_request_by_id, add_preimage_melt_request}
use nutmix.Database.Quotes.{get_melt_request_by_id-add_preimage}
use nutmix.Mint.Environment.{
  Environment, PaymentCheck, PaymentStatus, Invoice, settled, failed, pending, unknown,
}
use nutmix.Mint.Exec.{World, M, pure, lift, try}
use nutmix.Mint.Exec.Returns.{
  Returns, Returns-elim, try-Returns, lift-Returns, pure-Returns, get_tx-Returns, commit-Returns,
  update-Returns, find-Returns, try-rollback-Returns, try-network-Returns,
}
use nutmix.Mint.Polling.{
  quote_response, rolled_back, or_rollback, payed_state, answer_check, ask_backend,
  check_melt_request,
}
use nutmix.Mint.Melt.Pay.{MeltResponse}

-- What a call leaves that has found a quote which is not paid. The backend is asked in the call
-- `n`, about the decoded invoice of the quote: it does not know the invoice, or its answer is told
-- and its preimage is stored.
-- What is told of a quote for a status: a settled payment makes it paid, with the preimage and with
-- the fee in the unit of the quote; the others change the state alone, an unknown one nothing.
abbrev pub Tells :
    Environment → MeltRequestDb → PaymentCheck → PaymentStatus → MeltRequestDb → Type 0
Tells e q check settled told =
    (unit : CashuUnit) × (fee : Amount) × (unit_from_string e.x q.unit ≡ ok unit)
    × (to e.x check.fee unit ≡ ok fee)
    × (told ≡ record q { payment_preimage = check.preimage; state = paid; fee_paid = fee.amount })
Tells e q check failed told = told ≡ record q { state = unpaid }
Tells e q check pending told = told ≡ record q { state = ActionState.pending }
Tells e q check unknown told = told ≡ q

abbrev pub Answered :
    Environment
    → (Error → Bool)
    → MeltRequestDb
    → Tables
    → Result PaymentCheck
    → MeltResponse
    → World
    → Type 0
Answered e not_found q t reply answer w' =
    ((x : Error) × (reply ≡ err x)
      × (not_found x ≡ true)
      × (answer ≡ quote_response q)
      × (w'.committed ≡ t)
      × (w'.tx ≡ none))
    ⊎ ((check : PaymentCheck) × (reply ≡ ok check)
        × Tells e q check check.status answer.quote
        × (answer.change ≡ [])
        × (w'.committed ≡ add_preimage_melt_request q.quote check.preimage t)
        × (w'.tx ≡ none))

abbrev pub Asked :
    Environment → (Error → Bool) → ℕ → MeltRequestDb → Tables → MeltResponse → World → Type 0
Asked e not_found n q t answer w' =
    (invoice : Invoice) × (e.backend.decode_invoice q.request ≡ ok invoice)
    × Answered e not_found q t (e.backend.check_payed n q.quote invoice q.checking_id) answer w'

module _ (e : Environment) where
  rolled_back-Returns :
      {A : Type 0} (r : Result A) (w w' : World) (a : A)
      → Returns (rolled_back e r) w a w'
      → (r ≡ ok a) × (w ≡ w')
  unfolding rolled_back
  rolled_back-Returns (ok b) w w' a h = let (same, stays) = pure-Returns h in (cc, cc)
  rolled_back-Returns (err x) w w' a h =
      Returns-elim _ _ h λ r w1 ended h. let (wrong, _) = lift-Returns h in absurd (cc wrong)
  rolled_back-Returns panic w w' a h = let (wrong, _) = lift-Returns h in absurd (cc wrong)

  or_rollback-Returns :
      {A : Type 0} (m : M A) (w w' : World) (a : A)
      → Returns (or_rollback e m) w a w'
      → Returns m w a w'
  unfolding or_rollback
  or_rollback-Returns m w w' a h = Returns-elim _ _ h λ r w1 tried h.
      let (r_is, w1_is) = rolled_back-Returns r w1 w' a h in
      let tried' : Returns (try m) w (ok a) w' = cc in try-Returns m w w' (ok a) tried'

  payed_state-Tells :
      (q told : MeltRequestDb) (check : PaymentCheck) (status : PaymentStatus)
      → payed_state e status q check ≡ ok told
      → Tells e q check status told
  unfolding payed_state
  payed_state-Tells q told check settled h =
      let (unit, unit_is, h) = >>=-eq-ok (unit_from_string e.x q.unit) _ h in
      let (fee, fee_is, h) = >>=-eq-ok (to e.x check.fee unit) _ h in
      (unit, fee, unit_is, fee_is, cc)
  payed_state-Tells q told check failed h = cc
  payed_state-Tells q told check pending h = cc
  payed_state-Tells q told check unknown h = cc

  answer_check-Answered :
      (not_found : Error → Bool) (q : MeltRequestDb) (t : Tables) (r : Result PaymentCheck)
      (w w' : World) (answer : MeltResponse)
      → w.tx ≡ some t
      → w.committed ≡ t
      → Returns (answer_check e not_found q r) w answer w'
      → Answered e not_found q t r answer w'
  unfolding answer_check
  answer_check-Answered not_found q t (ok check) w w' answer open_ same h =
      Returns-elim _ _ h λ told w1 told_is h. Returns-elim _ _ h λ u w2 stored h.
        Returns-elim _ _ h λ u2 w3 done h.
          let (told_is, w1_is) = lift-Returns told_is in
          let (t1, open1, w2_is) =
            update-Returns e _ w1 w2 u (or_rollback-Returns _ w1 w2 u stored) in
          let (t2, open2, w3_is) =
            commit-Returns e w2 w3 u2 (or_rollback-Returns _ w2 w3 u2 done) in
          let (answer_is, w'_is) = pure-Returns h in
          let opened : some t ≡ some t1 = cc in
          let tells = payed_state-Tells q told check check.status told_is in
          inr (check, refl, subst (Tells e q check check.status) (cc) tells, cc, cc, cc)
  answer_check-Answered not_found q t (err x) w w' answer open_ same h =
      Returns-elim _ _ h λ r w1 ended h.
        let (kept, closed) = try-rollback-Returns e w w1 t r open_ ended in
        unknown_invoice (not_found x) refl w1 (cc) closed h
    where
      unknown_invoice :
          (known : Bool)
          → not_found x ≡ known
          → (w1 : World) → w1.committed ≡ t
          → w1.tx ≡ none
          → Returns (if known then pure (quote_response q) else lift (err x)) w1 answer w'
          → Answered e not_found q t (err x) answer w'
      unknown_invoice true is_so w1 kept closed h =
          let (same, stays) = pure-Returns h in inl (x, refl, is_so, cc, cc, cc)
      unknown_invoice false is_not w1 kept closed h =
          let (wrong, _) = lift-Returns h in absurd (cc wrong)
  answer_check-Answered not_found q t panic w w' answer open_ same h =
      let (wrong, _) = lift-Returns h in absurd (cc wrong)

  ask_backend-Asked :
      (not_found : Error → Bool) (q : MeltRequestDb) (t : Tables) (w w' : World)
      (answer : MeltResponse)
      → w.tx ≡ some t
      → w.committed ≡ t
      → Returns (ask_backend e not_found q) w answer w'
      → Asked e not_found w.calls q t answer w'
  unfolding ask_backend
  ask_backend-Asked not_found q t w w' answer open_ same h =
      Returns-elim _ _ h λ invoice w1 decoded h. Returns-elim _ _ h λ r w2 asked h.
        let (decoded, w1_is) = lift-Returns (or_rollback-Returns _ w w1 invoice decoded) in
        let reply : ℕ → Result PaymentCheck =
          λ n. e.backend.check_payed n q.quote invoice q.checking_id in
        let (replied, stays, kept) = try-network-Returns e reply w1 w2 r asked in
        let told = answer_check-Answered not_found q t r w2 w' answer (cc) (cc) h in
        let same_reply : r ≡ reply w.calls = cc in
        (invoice, decoded, subst (λ s. Answered e not_found q t s answer w') same_reply told)

-- The committed row of the id is in the state of the quote.
abbrev pub Keeps : String → MeltRequestDb → World → Type 0
Keeps quote_id q w' =
    (r : MeltRequestDb) × (get_melt_request_by_id quote_id w'.committed ≡ ok r)
    × (r.state ≡ q.state)

-- What CheckMeltRequest leaves if it comes back: either the quote is paid, and the transaction is
-- left open, or the backend was asked. The row of the quote keeps its state.
abbrev pub Polled : Environment → (Error → Bool) → String → World → MeltResponse → World → Type 0
Polled e not_found quote_id w answer w' =
    let t = e.others w.calls w.committed in
    (q : MeltRequestDb) × (get_melt_request_by_id quote_id t ≡ ok q)
    × (((is_paid q.state || is_issued q.state ≡ true)
          × (answer ≡ quote_response q)
          × (w'.committed ≡ t)
          × (w'.tx ≡ some t))
        ⊎ ((is_paid q.state || is_issued q.state ≡ false)
            × Asked e not_found (suc (suc w.calls)) q t answer w'))
    × Keeps quote_id q w'

Asked-Keeps :
    (e : Environment) (not_found : Error → Bool) (id : String) (n : ℕ) (q : MeltRequestDb)
    (t : Tables) (answer : MeltResponse) (w' : World)
    → get_melt_request_by_id id t ≡ ok q
    → Asked e not_found n q t answer w'
    → Keeps id q w'
Asked-Keeps e not_found id n q t answer w' found (_, _, inl (_, _, _, _, kept, _)) = (q, cc, refl)
Asked-Keeps e not_found id n q t answer w' found (_, _, inr (check, _, _, _, stored, _)) =
    let (r, again, same) =
      get_melt_request_by_id-add_preimage id q.quote check.preimage t q found in
    (r, cc, same)

-- If a poll of a melt quote comes back, then the quote was found in what the other requests had
-- committed. If it was paid or issued, it is answered as stored, and the transaction is left open. If
-- not, the backend was asked about the decoded invoice of the quote, and the transaction is closed:
-- either the backend's error says that it does not know the invoice, and the quote is answered as
-- stored; or the backend has replied, the answer is paid, unpaid, pending or as stored where the
-- reply is settled, failed, pending or unknown, with the preimage and the converted fee of a settled
-- one, and the preimage of the reply is stored. In no case does the state of the stored quote change.
pub check_melt_request-Polled :
    (e : Environment) (not_found : Error → Bool) (quote_id : String) (w w' : World)
    (answer : MeltResponse)
    → check_melt_request e not_found quote_id w ≡ (ok answer, w')
    → Polled e not_found quote_id w answer w'
unfolding check_melt_request
check_melt_request-Polled e not_found quote_id w w' answer h = Returns-elim _ _ h λ u w1 begun h.
    Returns-elim _ _ h λ q w2 read h.
      let w1_is = get_tx-Returns e w w1 u begun in
      let (t1, open_, found, w2_is) =
        find-Returns e _ w1 w2 q (or_rollback-Returns e _ w1 w2 q read) in
      let (outcome, keeps) =
        told q (is_paid q.state || is_issued q.state) refl w2 (cc) (cc) (cc) (cc) h in
      (q, cc, outcome, keeps)
  where
    t : Tables
    t = e.others w.calls w.committed

    told :
        (q : MeltRequestDb) (is_settled : Bool)
        → is_paid q.state || is_issued q.state ≡ is_settled
        → (w2 : World) → w2.calls ≡ suc (suc w.calls)
        → w2.tx ≡ some t
        → w2.committed ≡ t
        → get_melt_request_by_id quote_id t ≡ ok q
        → Returns
            (if is_settled then pure (quote_response q) else ask_backend e not_found q)
            w2
            answer
            w'
        → (((is_paid q.state || is_issued q.state ≡ true)
              × (answer ≡ quote_response q)
              × (w'.committed ≡ t)
              × (w'.tx ≡ some t))
            ⊎ ((is_paid q.state || is_issued q.state ≡ false)
                × Asked e not_found (suc (suc w.calls)) q t answer w'))
          × Keeps quote_id q w'
    told q true is_so w2 count open_ kept found h =
        let (same, stays) = pure-Returns h in (inl (is_so, cc, cc, cc), (q, cc, refl))
    told q false is_not w2 count open_ kept found h =
        let asked =
          subst (λ n. Asked e not_found n q t answer w') count
            (ask_backend-Asked e not_found q t w2 w' answer open_ kept h) in
        (
          inr (is_not, asked),
          Asked-Keeps e not_found quote_id (suc (suc w.calls)) q t answer w' found asked,
        )
