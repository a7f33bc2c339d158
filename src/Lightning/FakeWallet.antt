-- ===== src/Lightning/FakeWallet.antt =====
-- The backend for tests (internal/lightning/fake_wallet.go), with the fee reserve
-- (internal/lightning/utils.go) and the mock invoice (internal/lightning/invoice.go) that it uses.
use nutmix.Prelude.{
  ℕ, ◌+◌, ◌*◌, String, List, [], ◌∷◌, Bool, true, false, not, ◌||◌, Option, none, some,
  if◌then◌else◌, ◌==◌, ◌≡◌, arith,
}
use nutmix.Cashu.Errors.{Result, ok, ◌>>=◌, fail_if, unit_not_supported}
use nutmix.Cashu.Types.{MeltRequestDb, MintRequestDb, Amount, CashuUnit, sat, msat}
use nutmix.Cashu.Externals.{Externals}
use nutmix.Cashu.Convert.{to}
use nutmix.Mint.Environment.{
  Backend, Invoice, PaymentStatus, PaymentResponse, PaymentCheck, FeesResponse, InvoiceResponse,
  settled, failed, pending, unknown,
}

-- What the fake wallet calls and does not implement. A float64 is the word of its bits.
pub record WalletLibrary : Type 0 where
  -- float64(_) of a word, the product, math.Max, and uint64(_) of a float
  pub float64 : ℕ → ℕ
  pub times : ℕ → ℕ → ℕ
  pub max : ℕ → ℕ → ℕ
  pub uint64 : ℕ → ℕ
  -- zpay32.Decode, and hex.EncodeToString of the hash of an invoice
  pub decode : String → Result Invoice
  pub payment_hash : Invoice → String
  -- time.Now().Unix(), lnrpc.UnmarshallAmt with zpay32.NewInvoice and Encode on an amount, a text
  -- and a time, and whether uuid.NewRandom works, each in the call with the number
  pub now : ℕ → ℕ
  pub new_invoice : ℕ → ℕ → String → ℕ → Result String
  pub new_random : ℕ → Result (Unit {0})

-- FakeWalletError and its constants
pub data FakeWalletError : Type 0 where
  none_set fail_payment_pending fail_payment_failed fail_payment_unknown : FakeWalletError
  fail_query_pending fail_query_failed fail_query_unknown : FakeWalletError

-- The `iota` values, counted from the line of the constant.
abbrev pub error_number : FakeWalletError → ℕ
error_number none_set = 0
error_number fail_payment_pending = 2
error_number fail_payment_failed = 4
error_number fail_payment_unknown = 6
error_number fail_query_pending = 8
error_number fail_query_failed = 10
error_number fail_query_unknown = 12

-- slices.Contains
unfoldable pub contains_error : List FakeWalletError → FakeWalletError → Bool
contains_error [] x = false
contains_error (y ∷ ys) x = error_number y == error_number x || contains_error ys x

pub record FakeWallet : Type 0 where
  pub unpurpose_errors : List FakeWalletError
  pub invoice_fee : ℕ

abbrev pub mock_preimage : String
mock_preimage = "fakewalletpreimage"

-- 0.01
abbrev pub minimum_lightning_fee : ℕ
minimum_lightning_fee = 4576918229304087675

-- GetFeeReserve
unfoldable pub get_fee_reserve : WalletLibrary → ℕ → ℕ → ℕ
get_fee_reserve l invoice_amount queried_fee =
    l.uint64
      (l.max (l.times (l.float64 invoice_amount) minimum_lightning_fee) (l.float64 queried_fee))

-- CreateMockInvoice
unfoldable pub create_mock_invoice :
    Externals → WalletLibrary → ℕ → Amount → String → ℕ → Result String
create_mock_invoice x l n amount description expiry =
    to x amount msat >>= λ in_msat. l.new_invoice n in_msat.amount description expiry

module _ (x : Externals) (l : WalletLibrary) (f : FakeWallet) where
  empty_response : PaymentStatus → CashuUnit → PaymentResponse
  empty_response status unit = record {
    preimage = "";
    checking_id = "";
    payment_state = status;
    paid_fee = record { unit = unit; amount = 0 };
  }

  -- FakeWallet.PayInvoice: no error comes back beside the response.
  unfoldable pub pay_invoice :
      MeltRequestDb → Invoice → Amount → Bool → Amount → PaymentResponse × Bool
  unfolding empty_response
  pay_invoice q invoice reserve mpp amount =
      if contains_error f.unpurpose_errors fail_payment_unknown
      then (empty_response unknown amount.unit, false)
      else if contains_error f.unpurpose_errors fail_payment_failed
      then (empty_response failed amount.unit, false)
      else if contains_error f.unpurpose_errors fail_payment_pending
      then (empty_response pending amount.unit, false)
      else (
        record {
          preimage = mock_preimage;
          checking_id = q.checking_id;
          payment_state = settled;
          paid_fee = record { unit = amount.unit; amount = 0 };
        },
        false,
      )

  empty_check : PaymentStatus → PaymentCheck
  empty_check status = record {
    status = status;
    preimage = "";
    fee = record { unit = sat; amount = 0 };
  }

  -- FakeWallet.CheckPayed
  unfoldable pub check_payed : String → Invoice → String → Result PaymentCheck
  unfolding empty_check
  check_payed quote invoice checking_id =
      if contains_error f.unpurpose_errors fail_query_unknown
      then ok (empty_check unknown)
      else if contains_error f.unpurpose_errors fail_query_failed
      then ok (empty_check failed)
      else if contains_error f.unpurpose_errors fail_query_pending
      then ok (empty_check pending)
      else ok (record {
        status = settled;
        preimage = mock_preimage;
        fee = record { unit = sat; amount = 10 };
      })

  -- FakeWallet.CheckReceived
  unfoldable pub check_received : MintRequestDb → Invoice → Result PaymentStatus
  check_received q invoice =
      if contains_error f.unpurpose_errors fail_query_unknown
      then ok unknown
      else if contains_error f.unpurpose_errors fail_query_failed
      then ok failed
      else if contains_error f.unpurpose_errors fail_query_pending
      then ok pending
      else ok settled

  -- FakeWallet.QueryFees
  unfoldable pub query_fees : String → Invoice → Bool → Amount → Result FeesResponse
  query_fees request invoice mpp amount = ok (record {
    checking_id = l.payment_hash invoice;
    fees = record { unit = amount.unit; amount = get_fee_reserve l amount.amount f.invoice_fee };
    amount_to_send = amount;
  })

  -- FakeWallet.VerifyUnitSupport, FakeWallet.ActiveMPP
  unfoldable pub verify_unit_support : CashuUnit → Bool
  verify_unit_support unit = true

  unfoldable pub active_mpp : Bool
  active_mpp = false

  invoice_text : Option String → String
  invoice_text none = "mock invoice"
  invoice_text (some text) = text

  -- FakeWallet.RequestInvoice, with ExpiryTimeMinUnit of 15 minutes (api/cashu/types.go)
  unfoldable pub request_invoice : ℕ → Amount → Option String → Result InvoiceResponse
  unfolding invoice_text
  request_invoice n amount description =
      fail_if (not (verify_unit_support amount.unit)) (unit_not_supported ∷ []) >>= λ _.
      create_mock_invoice x l n amount (invoice_text description) (l.now n + 15 * 60) >>= λ pay_req.
      l.new_random n >>= λ _. ok (record { payment_request = pay_req; checking_id = pay_req })

  -- The fake wallet behind the interface.
  unfoldable pub fake_wallet : Backend
  fake_wallet = record {
    decode_invoice = l.decode;
    pay_invoice = λ _. pay_invoice;
    check_payed = λ _. check_payed;
    check_received = λ _. check_received;
    request_invoice = request_invoice;
    query_fees = λ _. query_fees;
    active_mpp = active_mpp;
    verify_unit_support = verify_unit_support;
  }

  -- The two queries report the same status, whatever they are asked about.
  check_received-check_payed :
      (q : MintRequestDb) (invoice invoice' : Invoice) (quote checking_id : String)
      → check_received q invoice
        ≡ (check_payed quote invoice' checking_id >>= λ check. ok check.status)
  unfolding check_received check_payed empty_check
  check_received-check_payed q invoice invoice' quote checking_id = ground arith
