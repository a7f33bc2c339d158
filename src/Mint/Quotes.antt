-- ===== src/Mint/Quotes.antt =====
-- Mint quotes and the issuing of tokens (internal/mint/minting.go). The method is BOLT11, the one
-- that the code implements: any other is refused. The event that is sent at the end is left out.
pub mod Issue
pub mod Stale
pub mod Rows
pub mod Created
use nutmix.Prelude.{
  ℕ, ◌+◌, String, List, [], ◌∷◌, Bool, true, false, not, ◌||◌, Option, none, some, str_eq,
  if◌then◌else◌, ltb, ◌==◌,
}
use Prim.Native.String.{◌++◌ as append}
use nutmix.Cashu.Errors.{
  Result, ok, err, panic, Error, fail_if, join, mintint_disabled, amount_outside_limit,
  unit_not_supported, payment_method_not_supported, mint_request_already_issued,
  mint_quote_no_public_key, mint_quote_no_valid_signature, different_input_output_unit,
  amount_not_equal_to_invoice, request_not_paid,
}
use nutmix.Cashu.Types.{
  PostMintQuoteBolt11Request, PostMintBolt11Request, MintRequestDb, CashuUnit, msat, unpaid, paid,
  issued, is_paid, is_issued, BlindSignature, BlindedMessage, RecoverSigDb, PublicKey, Amount,
  messages_amount,
}
use nutmix.Cashu.Convert.{unit_from_string, unit_string, to}
use nutmix.Cashu.SpendCondition.SigAll.{to_hex}
use nutmix.Database.{
  save_mint_request, get_mint_request_by_id, change_mint_request_state, save_restore_sigs,
}
use nutmix.Mint.Environment.{Environment, Invoice, PaymentStatus, settled, failed, pending, unknown}
use nutmix.Mint.Exec.{
  M, pure, lift, clock, random_hash, network, get_tx, find, update, insert, commit, ◌>>=◌, ◌>>◌,
}
use nutmix.Mint.Outputs.{validate_outputs_not_spent}
use nutmix.Mint.Units.{verify_outputs}

-- The methods of internal/mint/interface.go.
pub data Method : Type 0 where
  bolt11 bolt12 btc : Method

-- 900 seconds: ExpiryTimeMinUnit(15)
abbrev pub expiry_seconds : ℕ
expiry_seconds = 900

abbrev exceeds : ℕ → Option ℕ → Bool
exceeds n none = false
exceeds n (some limit) = ltb limit n

-- `*invoice.MilliSat`: a nil pointer panics.
abbrev pub milli_sat : Invoice → Result ℕ
milli_sat i = elim i.milli_sat [ none ↦ panic | some n ↦ ok n ]

module _ (e : Environment) where
  -- validateMintConfiguration
  unfoldable pub validate_mint_configuration : PostMintQuoteBolt11Request → M CashuUnit
  validate_mint_configuration r = do
    lift (fail_if (r.amount == 0) [])
    lift (fail_if e.config.peg_out_only (mintint_disabled ∷ []))
    lift (fail_if (exceeds r.amount e.config.peg_in_limit_sats) (amount_outside_limit ∷ []))
    lift (join unit_not_supported (unit_from_string e.x r.unit))

  -- createBolt11MintQuote
  unfoldable pub create_bolt11_mint_quote : PostMintQuoteBolt11Request → CashuUnit → M MintRequestDb
  create_bolt11_mint_quote r unit = do
    invoice ←
        network e (λ n.
          e.backend.request_invoice n (record { unit = unit; amount = r.amount }) r.description)
    quote_id ← random_hash e
    now ← clock e
    let quote : MintRequestDb = record {
      amount = some r.amount;
      pubkey = r.pubkey;
      description = r.description;
      quote = quote_id;
      request = invoice.payment_request;
      unit = unit_string unit;
      state = unpaid;
      checking_id = invoice.checking_id;
      expiry = now + expiry_seconds;
      seen_at = now;
      minted = false;
    }
    get_tx e
    insert e (save_mint_request quote)
    commit e
    pure quote

  -- CreateMintQuote
  unfoldable pub create_mint_quote : PostMintQuoteBolt11Request → Method → M MintRequestDb
  create_mint_quote r bolt11 = do
    unit ← validate_mint_configuration r
    lift (fail_if (not (e.backend.verify_unit_support unit)) (unit_not_supported ∷ []))
    create_bolt11_mint_quote r unit
  create_mint_quote r _ =
      validate_mint_configuration r >>= λ _. lift (err (payment_method_not_supported ∷ []))

  -- The `switch status` of reconcileBolt11MintQuoteState.
  apply_received : MintRequestDb → PaymentStatus → M (Unit {0})
  apply_received q settled = update e (change_mint_request_state q.quote paid q.minted)
  apply_received q failed = update e (change_mint_request_state q.quote unpaid q.minted)
  apply_received q pending = pure tt
  apply_received q unknown = pure tt

  -- reconcileBolt11MintQuoteState
  unfoldable pub reconcile_bolt11_mint_quote_state : MintRequestDb → M MintRequestDb
  unfolding apply_received
  reconcile_bolt11_mint_quote_state q = do
    invoice ← lift (e.backend.decode_invoice q.request)
    status ← network e (λ n. e.backend.check_received n q invoice)
    get_tx e
    apply_received q status
    quote ← find e (get_mint_request_by_id q.quote)
    commit e
    pure quote

  -- RefreshMintQuoteStatus
  unfoldable pub refresh_mint_quote_status : String → Method → M MintRequestDb
  refresh_mint_quote_status quote_id method = do
    get_tx e
    quote ← find e (get_mint_request_by_id quote_id)
    commit e
    by_method quote method
    where
      by_method : MintRequestDb → Method → M MintRequestDb
      by_method quote bolt11 =
          if is_paid quote.state || is_issued quote.state
          then pure quote
          else reconcile_bolt11_mint_quote_state quote
      by_method quote _ = lift (err (payment_method_not_supported ∷ []))

  points_text : List BlindedMessage → String
  points_text [] = ""
  points_text (o ∷ os) = append (to_hex e.x o.b_) (points_text os)

  -- PostMintBolt11Request.VerifyPubkey (api/cashu/types.go)
  unfoldable pub verify_pubkey : PostMintBolt11Request → PublicKey → Result Bool
  unfolding points_text
  verify_pubkey r pubkey =
      if str_eq pubkey "" then err (mint_quote_no_public_key ∷ []) else elim r.signature [
        | none ↦ err (mint_quote_no_valid_signature ∷ [])
        | some sig ↦
            ok (e.x.verify sig (e.x.sha256 (append r.quote (points_text r.outputs))) pubkey)
      ]

  -- The signature is asked for where the quote names a key.
  check_quote_signature : PostMintBolt11Request → PublicKey → Result (Unit {0})
  check_quote_signature r pubkey =
      if str_eq pubkey "" then ok tt else elim (verify_pubkey r pubkey) [
        | ok valid ↦ fail_if (not valid) []
        | err x ↦ err x
        | panic ↦ panic
      ]

  -- validateMintIssuanceAuth
  unfoldable pub validate_mint_issuance_auth : PostMintBolt11Request → MintRequestDb → M (Unit {0})
  unfolding check_quote_signature
  validate_mint_issuance_auth r q = do
    lift (fail_if q.minted (mint_request_already_issued ∷ []))
    lift (check_quote_signature r q.pubkey)

  -- loadAndValidateMintQuoteForIssuance
  unfoldable pub load_and_validate_mint_quote_for_issuance : PostMintBolt11Request → M MintRequestDb
  load_and_validate_mint_quote_for_issuance r = do
    get_tx e
    quote ← find e (get_mint_request_by_id r.quote)
    commit e
    validate_mint_issuance_auth r quote
    keysets ← lift e.signer.get_keysets
    output_unit ← lift (verify_outputs e.x r.outputs keysets)
    lift (
        fail_if (not (str_eq (unit_string output_unit) quote.unit))
          (different_input_output_unit ∷ []))
    get_tx e
    validate_outputs_not_spent e r.outputs
    commit e
    pure quote

  -- signMintOutputsAndMarkIssued
  unfoldable pub sign_mint_outputs_and_mark_issued :
      PostMintBolt11Request → MintRequestDb → M (List BlindSignature)
  sign_mint_outputs_and_mark_issued r q = do
    now ← clock e
    signed ← lift (e.signer.sign_blind_messages now r.outputs)
    get_tx e
    update e (change_mint_request_state q.quote issued true)
    insert e (save_restore_sigs signed.1)
    commit e
    pure signed.0

  -- bolt11Mint
  unfoldable pub bolt11_mint : PostMintBolt11Request → MintRequestDb → M (List BlindSignature)
  bolt11_mint r q = do
    unit ← lift (unit_from_string e.x q.unit)
    lift (fail_if (not (e.backend.verify_unit_support unit)) (unit_not_supported ∷ []))
    invoice ← lift (e.backend.decode_invoice q.request)
    amount ← lift (to e.x (record { unit = unit; amount = messages_amount r.outputs }) msat)
    expected ← lift (milli_sat invoice)
    lift (fail_if (not (expected == amount.amount)) (amount_not_equal_to_invoice ∷ []))
    current ← (if is_paid q.state then pure q else reconcile_bolt11_mint_quote_state q)
    lift (fail_if (not (is_paid current.state)) (request_not_paid ∷ []))
    sign_mint_outputs_and_mark_issued r current

  -- IssueTokens
  unfoldable pub issue_tokens : PostMintBolt11Request → Method → M (List BlindSignature)
  issue_tokens r bolt11 = load_and_validate_mint_quote_for_issuance r >>= bolt11_mint r
  issue_tokens r _ = load_and_validate_mint_quote_for_issuance r >>= λ _.
      lift (err (payment_method_not_supported ∷ []))
