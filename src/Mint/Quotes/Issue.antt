-- ===== src/Mint/Quotes/Issue.antt =====
-- What tokens are issued for: IssueTokens (internal/mint/minting.go).
use mathlib.Core.Path.{subst, sym, ◌∙◌}
use nutmix.Prelude.{
  ℕ, String, List, [], Bool, true, false, not, Option, none, some, str_eq, ◌≡◌, refl, ◌==◌, arith,
  if◌then◌else◌, ◌⊎◌, inl, inr,
}
use nutmix.Cashu.Errors.{Result, ok, err, panic, fail_if, fail_if-eq-ok}
use nutmix.Cashu.Types.{
  PostMintBolt11Request, MintRequestDb, CashuUnit, msat, issued, is_paid, BlindSignature,
  RecoverSigDb, Amount, messages_amount,
}
use nutmix.Cashu.Convert.{unit_from_string, to}
use nutmix.Database.{Tables, get_mint_request_by_id, change_mint_request_state, save_restore_sigs}
use nutmix.Mint.Environment.{Environment, Invoice}
use nutmix.Mint.Exec.{World, pure}
use nutmix.Mint.Exec.Returns.{
  Returns, Returns-elim, pure-Returns, lift-Returns, get_tx-Returns, commit-Returns, update-Returns,
  insert-Returns, find-Returns,
}
use nutmix.Mint.Quotes.Stale.{find-change_mint_request_state}
use nutmix.Mint.Quotes.Rows.{same_quotes, get_mint_request_by_id-quote, reconcile-quote}
use nutmix.Mint.Quotes.{
  reconcile_bolt11_mint_quote_state, milli_sat, bolt11_mint, sign_mint_outputs_and_mark_issued,
  load_and_validate_mint_quote_for_issuance, issue_tokens, Method, bolt11, bolt12, btc,
  validate_mint_issuance_auth, check_quote_signature, verify_pubkey,
}

module _ (e : Environment) where
  -- The terms on which tokens are issued for a quote: the sum of the outputs, as Amount.To converts
  -- it from the unit of the quote, is the invoice's.
  pub record Covered (r : PostMintBolt11Request) (q : MintRequestDb) : Type 0 where
    pub unit : CashuUnit
    pub quote_unit : unit_from_string e.x q.unit ≡ ok unit
    pub invoice : Invoice
    pub decoded : e.backend.decode_invoice q.request ≡ ok invoice
    pub amount : Amount
    pub converted :
        to e.x (record { unit = unit; amount = messages_amount r.outputs }) msat ≡ ok amount
    pub equal : invoice.milli_sat ≡ some amount.amount

  -- The transaction that stores the signatures: the quote is marked as issued in the same one, and
  -- what is committed has no row of it that is not.
  pub record Issued (quote : String) (recovery : List RecoverSigDb) (w : World) : Type 0 where
    pub calls : ℕ
    pub before : Tables
    pub rows :
        save_restore_sigs recovery
          (change_mint_request_state quote issued true (e.others calls before))
        ≡ ok w.committed
    pub closed : w.tx ≡ none
    pub marked :
        (q : MintRequestDb)
        → get_mint_request_by_id quote w.committed ≡ ok q
        → (q.state ≡ issued) × (q.minted ≡ true)

  issued_rows :
      (quote : String) (recovery : List RecoverSigDb) (t t' : Tables) (q : MintRequestDb)
      → save_restore_sigs recovery (change_mint_request_state quote issued true t) ≡ ok t'
      → get_mint_request_by_id quote t' ≡ ok q
      → (q.state ≡ issued) × (q.minted ≡ true)
  issued_rows quote recovery t t' q rows found =
      find-change_mint_request_state quote issued true t q
        (same_quotes recovery (change_mint_request_state quote issued true t) t' quote rows ∙ found)

  sign_mint_outputs-Returns :
      (r : PostMintBolt11Request) (q : MintRequestDb) (w w' : World) (sigs : List BlindSignature)
      → Returns (sign_mint_outputs_and_mark_issued e r q) w sigs w'
      → (now : ℕ) × (recovery : List RecoverSigDb) × (e.signer.sign_blind_messages now r.outputs
          ≡ ok (sigs, recovery))
        × Issued q.quote recovery w'
  unfolding sign_mint_outputs_and_mark_issued
  sign_mint_outputs-Returns r q w w' sigs h = Returns-elim _ _ h λ now w1 _ h.
      Returns-elim _ _ h λ signed w2 answer h. Returns-elim _ _ h λ u w3 begun h.
        Returns-elim _ _ h λ u1 w4 marked h. Returns-elim _ _ h λ u2 w5 stored h.
          Returns-elim _ _ h λ u3 w6 done h.
            let begun = get_tx-Returns e w2 w3 u begun in
            let (t, open1, end1) = update-Returns e _ w3 w4 u1 marked in
            let (t2, t3, open2, rows, end2) = insert-Returns e _ w4 w5 u2 stored in
            let (t4, open3, end3) = commit-Returns e w5 w6 u3 done in
            let (same, stays) = pure-Returns h in
            let (answered, _) = lift-Returns answer in
            (
              now,
              signed.1,
              cc,
              (let written : save_restore_sigs signed.1 (
                        change_mint_request_state q.quote issued true
                          (e.others w2.calls w2.committed))
                      ≡ ok w'.committed =
                    cc in
                  record {
                    calls = w2.calls;
                    before = w2.committed;
                    rows = written;
                    closed = cc;
                    marked = λ m. issued_rows q.quote signed.1 _ w'.committed m written;
                  }),
            )

  milli_sat-eq-ok : (i : Invoice) (n : ℕ) → milli_sat i ≡ ok n → i.milli_sat ≡ some n
  milli_sat-eq-ok i n h = named i.milli_sat h
    where
      named : (o : Option ℕ) → (elim o [ none ↦ panic | some n ↦ ok n ]) ≡ ok n → o ≡ some n
      named none h = cc
      named (some k) h = cc

  -- The quote is the caller's if that is paid, or else the row that the reconciliation has read.
  abbrev pub Current : MintRequestDb → MintRequestDb → World → Type 0
  Current q current w =
      ((is_paid q.state ≡ true) × (current ≡ q))
      ⊎ ((is_paid q.state ≡ false)
          × (w' : World) × (reconcile_bolt11_mint_quote_state e q w ≡ (ok current, w')))

  -- What is issued for the quote, which was then paid.
  pub record Issuing (r : PostMintBolt11Request) (q : MintRequestDb) (sigs : List BlindSignature)
      (w : World) : Type 0 where
    pub covered : Covered r q
    pub current : MintRequestDb
    pub read : World
    pub current_is : Current q current read
    pub current_paid : is_paid current.state ≡ true
    pub signed_at : ℕ
    pub recovery : List RecoverSigDb
    pub signed : e.signer.sign_blind_messages signed_at r.outputs ≡ ok (sigs, recovery)
    pub stored : Issued r.quote recovery w

  Current-quote :
      (q current : MintRequestDb) (w : World) → Current q current w → current.quote ≡ q.quote
  Current-quote q current w (inl (_, same)) = cc
  Current-quote q current w (inr (_, w', read)) = reconcile-quote e q w w' current read

  bolt11_mint-Returns :
      (r : PostMintBolt11Request) (q : MintRequestDb) (w w' : World) (sigs : List BlindSignature)
      → q.quote ≡ r.quote
      → Returns (bolt11_mint e r q) w sigs w'
      → Issuing r q sigs w'
  unfolding bolt11_mint
  bolt11_mint-Returns r q w w' sigs of_request h = Returns-elim _ _ h λ unit w1 units h.
      Returns-elim _ _ h λ _ w2 _ h. Returns-elim _ _ h λ invoice w3 decoded h.
        Returns-elim _ _ h λ amount w4 converted h. Returns-elim _ _ h λ expected w5 named h.
          Returns-elim _ _ h λ u w6 equal h. Returns-elim _ _ h λ current w7 refreshed h.
            Returns-elim _ _ h λ u2 w8 is_now_paid h.
              let same : (expected == amount.amount) ≡ true =
                ground (arith, fail_if-eq-ok _ _ (lift-Returns equal).0) in
              let (now, recovery, signed, stored) =
                sign_mint_outputs-Returns r current w8 w' sigs h in
              let named = milli_sat-eq-ok invoice expected (lift-Returns named).0 in
              let equal : expected ≡ amount.amount = ground arith in
              let current_is = read_current (is_paid q.state) refl w6 w7 current refreshed in
              let quote_is = Current-quote q current w6 current_is ∙ of_request in
              record {
                covered = record {
                  unit = unit;
                  quote_unit = (lift-Returns units).0;
                  invoice = invoice;
                  decoded = (lift-Returns decoded).0;
                  amount = amount;
                  converted = (lift-Returns converted).0;
                  equal = cc;
                };
                current = current;
                read = w6;
                current_is = current_is;
                current_paid = ground (arith, fail_if-eq-ok _ _ (lift-Returns is_now_paid).0);
                signed_at = now;
                recovery = recovery;
                signed = signed;
                stored = subst (λ id. Issued id recovery w') quote_is stored;
              }
    where
      read_current :
          (b : Bool)
          → is_paid q.state ≡ b
          → (w6 w7 : World) (current : MintRequestDb)
          → Returns (if b then pure q else reconcile_bolt11_mint_quote_state e q) w6 current w7
          → Current q current w6
      read_current true is_so w6 w7 current h =
          let (same, _) = pure-Returns h in inl (is_so, sym same)
      read_current false is_not w6 w7 current h = inr (is_not, w7, h)

  -- A quote that may be issued: it was stored, it was not issued, and if it names a key then the
  -- request is signed by it.
  pub record Loaded (r : PostMintBolt11Request) (w : World) (q : MintRequestDb) : Type 0 where
    pub found : get_mint_request_by_id r.quote (e.others w.calls w.committed) ≡ ok q
    pub unissued : q.minted ≡ false
    pub authorised : str_eq q.pubkey "" ≡ false → verify_pubkey e r q.pubkey ≡ ok true

  check_quote_signature-eq-ok :
      (r : PostMintBolt11Request) (key : String) {u : Unit {0}}
      → check_quote_signature e r key ≡ ok u
      → str_eq key "" ≡ false
      → verify_pubkey e r key ≡ ok true
  unfolding check_quote_signature
  check_quote_signature-eq-ok r key {u} h named =
      judged (str_eq key "") (verify_pubkey e r key) h named
    where
      judged :
          (b : Bool) (v : Result Bool)
          → (if b
              then ok tt
              else elim v [ ok valid ↦ fail_if (not valid) [] | err x ↦ err x | panic ↦ panic ])
            ≡ ok u
          → b ≡ false
          → v ≡ ok true
      judged true v h named = cc
      judged false (ok true) h named = refl
      judged false (ok false) h named = cc
      judged false (err x) h named = cc
      judged false panic h named = cc

  validate_mint_issuance_auth-Returns :
      (r : PostMintBolt11Request) (q : MintRequestDb) (w w' : World) (u : Unit {0})
      → Returns (validate_mint_issuance_auth e r q) w u w'
      → (q.minted ≡ false) × (str_eq q.pubkey "" ≡ false → verify_pubkey e r q.pubkey ≡ ok true)
  unfolding validate_mint_issuance_auth
  validate_mint_issuance_auth-Returns r q w w' u h = Returns-elim _ _ h λ _ w1 unissued h. (
    fail_if-eq-ok _ _ (lift-Returns unissued).0,
    check_quote_signature-eq-ok r q.pubkey (lift-Returns h).0,
  )

  load_and_validate-Returns :
      (r : PostMintBolt11Request) (w w' : World) (q : MintRequestDb)
      → Returns (load_and_validate_mint_quote_for_issuance e r) w q w'
      → Loaded r w q
  unfolding load_and_validate_mint_quote_for_issuance
  load_and_validate-Returns r w w' q h = Returns-elim _ _ h λ u w1 begun h.
      Returns-elim _ _ h λ quote w2 found h. Returns-elim _ _ h λ u1 w3 _ h.
        Returns-elim _ _ h λ u2 w4 authorised h. Returns-elim _ _ h λ keysets w5 _ h.
          Returns-elim _ _ h λ unit w6 _ h. Returns-elim _ _ h λ u3 w7 _ h.
            Returns-elim _ _ h λ u4 w8 _ h. Returns-elim _ _ h λ u5 w9 _ h.
              Returns-elim _ _ h λ u6 w10 _ h.
                let (same, _) = pure-Returns h in
                let begun = get_tx-Returns e w w1 u begun in
                let (t, open_, hit, _) = find-Returns e _ w1 w2 quote found in
                let auth = validate_mint_issuance_auth-Returns r quote w3 w4 u2 authorised in
                subst (Loaded r w) same
                  (record { found = cc; unissued = auth.0; authorised = auth.1 })

-- Tokens are issued by the method BOLT11 only, for the quote of the request as the other requests
-- had stored it, which was not issued before and whose key, if it names one, has signed the request.
-- The sum of the outputs, as a 64-bit word that Amount.To converts (so it wraps, and an amount in a
-- fiat unit stays as it is), is the millisatoshis of the quote's invoice. The quote was paid, or was
-- read as paid when the backend had been asked. The signatures are those of the signer for the
-- outputs, and they are stored in the transaction that marks the quote of the request as issued: in
-- what is committed no row that its id finds is in another state or not minted.
pub issue_tokens-Covered :
    (e : Environment) (r : PostMintBolt11Request) (method : Method) (w w' : World)
    (sigs : List BlindSignature)
    → issue_tokens e r method w ≡ (ok sigs, w')
    → (method ≡ bolt11) × (q : MintRequestDb) × Loaded e r w q × Issuing e r q sigs w'
unfolding issue_tokens
issue_tokens-Covered e r bolt11 w w' sigs h = Returns-elim _ _ h λ q w1 loaded h.
    let loaded = load_and_validate-Returns e r w w1 q loaded in
    (
      refl,
      q,
      loaded,
      bolt11_mint-Returns e r q w1 w' sigs
          (get_mint_request_by_id-quote r.quote (e.others w.calls w.committed) q loaded.found) h,
    )
issue_tokens-Covered e r bolt12 w w' sigs h =
    Returns-elim _ _ h λ q w1 loaded h. absurd (cc ((lift-Returns h).0))
issue_tokens-Covered e r btc w w' sigs h =
    Returns-elim _ _ h λ q w1 loaded h. absurd (cc ((lift-Returns h).0))
