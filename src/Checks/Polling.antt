-- ===== src/Checks/Polling.antt =====
-- Examples for polls of quotes, with the fake wallet as the backend.
use nutmix.Prelude.{[], ◌∷◌, ◌≡◌, refl, some, false}
use nutmix.Cashu.Errors.{ok}
use nutmix.Cashu.Types.{paid}
use nutmix.Cashu.Convert.{unit_from_string, to}
use nutmix.Database.{get_melt_request_by_id, add_preimage_melt_request}
use nutmix.Lightning.FakeWallet.{
  FakeWallet, WalletLibrary, fake_wallet, mock_preimage, contains_error, check_payed,
}
use nutmix.Mint.Environment.{Environment}
use nutmix.Mint.Exec.{World, get_tx, commit, statement, rollback, pure, lift, try, network, ◌>>=◌}
use nutmix.Mint.Melt.Pay.{MeltResponse}
use nutmix.Mint.Polling.{check_melt_request, payed_state, quote_response}
use nutmix.Mint.Polling.Told.{Polled, check_melt_request-Polled}
use nutmix.Checks.Fixtures.{env, plain, empty_tables, start, melt_quote}

abbrev library : WalletLibrary
library = record {
  float64 = λ n. n;
  times = λ a b. a;
  max = λ a b. b;
  uint64 = λ n. n;
  decode = λ _. ok (record { milli_sat = some 5000 });
  payment_hash = λ _. "hash";
  now = λ n. n;
  new_invoice = λ _ _ text _. ok text;
  new_random = λ _. ok tt;
}

abbrev wallet : FakeWallet
wallet = record { unpurpose_errors = []; invoice_fee = 1 }

abbrev fake_env : Environment
fake_env = record env { backend = fake_wallet plain library wallet }

abbrev unpaid_melt : World
unpaid_melt = start (record empty_tables { melt_request = melt_quote ∷ [] })

abbrev polled : World
polled = (check_melt_request fake_env (λ _. false) "melt" unpaid_melt).1

-- The answer says paid, the table does not.
abbrev told_as_paid : MeltResponse
told_as_paid =
    quote_response
      (record melt_quote { payment_preimage = mock_preimage; state = paid; fee_paid = 10 })

poll : check_melt_request fake_env (λ _. false) "melt" unpaid_melt ≡ (ok told_as_paid, polled)
unfolding check_melt_request payed_state fake_wallet check_payed contains_error unit_from_string to
    get_melt_request_by_id add_preimage_melt_request get_tx commit statement rollback pure lift try
    network ◌>>=◌
poll = refl

check_melt_request-Polled_example :
    Polled fake_env (λ _. false) "melt" unpaid_melt told_as_paid polled
check_melt_request-Polled_example =
    check_melt_request-Polled fake_env (λ _. false) "melt" unpaid_melt polled told_as_paid poll
