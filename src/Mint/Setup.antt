-- ===== src/Mint/Setup.antt =====
-- Building the mint from its configuration: Config (internal/utils/common.go), CheckChainParams and
-- SetUpMint (internal/mint/mint.go). Connecting to a backend and to the OpenID Connect service is a
-- parameter.
pub mod Names
use nutmix.Prelude.{ℕ, String, List, [], Bool, false, Option, none, if◌then◌else◌, str_eq}
use nutmix.Cashu.Errors.{Result, ok, err, panic, ◌>>=◌}
use nutmix.Cashu.Externals.{Externals}
use nutmix.Mint.Environment.{Backend}
use nutmix.Lightning.FakeWallet.{WalletLibrary, fake_wallet}

-- The names of the backends
abbrev pub fake_wallet_name : String
fake_wallet_name = "FakeWallet"

abbrev pub lnd_grpc_name : String
lnd_grpc_name = "LndGrpcWallet"

abbrev pub lnbits_name : String
lnbits_name = "LNbitsWallet"

abbrev pub cln_grpc_name : String
cln_grpc_name = "ClnGrpcWallet"

abbrev pub strike_name : String
strike_name = "Strike"

-- StringToLightningBackend: the name of the CLN backend is not among the cases.
unfoldable pub string_to_lightning_backend : String → String
string_to_lightning_backend text =
    if str_eq text fake_wallet_name
    then fake_wallet_name
    else if str_eq text lnd_grpc_name
    then lnd_grpc_name
    else if str_eq text lnbits_name
    then lnbits_name
    else if str_eq text strike_name
    then strike_name
    else fake_wallet_name

-- utils.Config
pub record FullConfig : Type 0 where
  pub peg_out_limit_sats : Option ℕ
  pub icon_url : Option String
  pub tos_url : Option String
  pub peg_in_limit_sats : Option ℕ
  pub network : String
  pub cln_client_cert : String
  pub email : String
  pub nostr : String
  pub name : String
  pub mint_lightning_backend : String
  pub lnd_grpc_host : String
  pub lnd_tls_cert : String
  pub lnd_macaroon : String
  pub mint_lnbits_endpoint : String
  pub mint_lnbits_key : String
  pub cln_grpc_host : String
  pub cln_ca_cert : String
  pub motd : String
  pub cln_client_key : String
  pub cln_macaroon : String
  pub strike_key : String
  pub strike_endpoint : String
  pub mint_auth_oicd_client_id : String
  pub description_long : String
  pub description : String
  pub mint_auth_oicd_url : String
  pub mint_auth_clear_auth_urls : List String
  pub mint_auth_blind_auth_urls : List String
  pub mint_auth_rate_limit_per_minute : ℕ
  pub mint_auth_max_blind_tokens : ℕ
  pub mint_require_auth : Bool
  pub peg_out_only : Bool

-- Config.Default: the fields of CLN and the endpoint of Strike are left as they are.
unfoldable pub default : FullConfig → FullConfig
default c = record c {
  name = "";
  description = "";
  icon_url = none;
  tos_url = none;
  description_long = "";
  motd = "";
  email = "";
  nostr = "";
  network = "mainnet";
  mint_lightning_backend = fake_wallet_name;
  lnd_grpc_host = "";
  lnd_tls_cert = "";
  lnd_macaroon = "";
  mint_lnbits_endpoint = "";
  mint_lnbits_key = "";
  peg_out_only = false;
  peg_out_limit_sats = none;
  peg_in_limit_sats = none;
  mint_require_auth = false;
  mint_auth_oicd_client_id = "";
  mint_auth_max_blind_tokens = 100;
  mint_auth_oicd_url = "";
  mint_auth_rate_limit_per_minute = 5;
  mint_auth_clear_auth_urls = [];
  mint_auth_blind_auth_urls = [];
  strike_key = "";
}

-- Config.UseEnviromentVars, with os.Getenv
unfoldable pub use_enviroment_vars : (String → String) → FullConfig → FullConfig
use_enviroment_vars getenv c = record c {
  name = getenv "NAME";
  description = getenv "DESCRIPTION";
  icon_url = none;
  tos_url = none;
  description_long = getenv "DESCRIPTION_LONG";
  motd = getenv "MOTD";
  email = getenv "EMAIL";
  nostr = getenv "NOSTR";
  network = getenv "NETWORK";
  mint_lightning_backend = string_to_lightning_backend (getenv "MINT_LIGHTNING_BACKEND");
  lnd_grpc_host = getenv "LND_GRPC_HOST";
  lnd_tls_cert = getenv "LND_TLS_CERT";
  lnd_macaroon = getenv "LND_MACAROON";
  mint_lnbits_endpoint = getenv "MINT_LNBITS_ENDPOINT";
  mint_lnbits_key = getenv "MINT_LNBITS_KEY";
}

-- chaincfg.Params
pub data ChainParams : Type 0 where
  test_net3_params main_net_params regression_net_params sig_net_params : ChainParams

-- CheckChainParams
unfoldable pub check_chain_params : String → Result ChainParams
check_chain_params network =
    if str_eq network "testnet3"
    then ok test_net3_params
    else if str_eq network "testnet"
    then ok test_net3_params
    else if str_eq network "mainnet"
    then ok main_net_params
    else if str_eq network "regtest"
    then ok regression_net_params
    else if str_eq network "signet"
    then ok sig_net_params
    else err []

-- What connecting to the backends gives, the invoice library, by network, and the signer's key.
pub record Connections : Type 0 where
  pub wallet_library : ChainParams → WalletLibrary
  pub lnd : ChainParams → String → String → String → Result Backend
  pub lnbits : ChainParams → String → String → Backend
  pub cln : ChainParams → String → String → String → String → String → Result Backend
  pub strike : ChainParams → String → String → Result Backend
  pub get_signer_pubkey : Result String
  -- whether the provider could be reached
  pub setup_oidc_service : String → Bool

-- Mint, without its observer, database and signer
pub record Mint : Type 0 where
  pub lightning_backend : Backend
  pub mint_pubkey : String
  pub config : FullConfig
  pub oicd_client : Bool

module _ (x : Externals) (s : Connections) where
  -- The `switch` over the backends; an unknown one ends the process, as a panic does.
  choose_backend : FullConfig → ChainParams → Result Backend
  choose_backend c params =
      if str_eq c.mint_lightning_backend fake_wallet_name
      then ok (
          fake_wallet x (s.wallet_library params)
            (record { unpurpose_errors = []; invoice_fee = 0 }))
      else if str_eq c.mint_lightning_backend lnd_grpc_name
      then s.lnd params c.lnd_grpc_host c.lnd_macaroon c.lnd_tls_cert
      else if str_eq c.mint_lightning_backend lnbits_name
      then ok (s.lnbits params c.mint_lnbits_endpoint c.mint_lnbits_key)
      else if str_eq c.mint_lightning_backend cln_grpc_name
      then s.cln params c.cln_grpc_host c.cln_ca_cert c.cln_client_cert c.cln_client_key
          c.cln_macaroon
      else if str_eq c.mint_lightning_backend strike_name
      then s.strike params c.strike_key c.strike_endpoint
      else panic

  -- The OpenID Connect service: a provider that cannot be reached is only logged.
  set_up_auth : FullConfig → Result Bool
  set_up_auth c =
      if c.mint_require_auth
      then (if str_eq c.mint_auth_oicd_url ""
          then err []
          else ok (s.setup_oidc_service c.mint_auth_oicd_url))
      else ok false

  -- SetUpMint
  unfoldable pub set_up_mint : FullConfig → Result Mint
  unfolding choose_backend set_up_auth
  set_up_mint c = check_chain_params c.network >>= λ params. choose_backend c params >>= λ backend.
      s.get_signer_pubkey >>= λ pubkey. set_up_auth c >>= λ oicd.
      ok (record {
        lightning_backend = backend;
        mint_pubkey = pubkey;
        config = c;
        oicd_client = oicd;
      })
