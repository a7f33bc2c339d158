-- ===== src/Mint/Setup/Names.antt =====
-- Which backends the configuration can name (internal/utils/common.go, internal/mint/mint.go).
use nutmix.Prelude.{String, Bool, true, false, if◌then◌else◌, ◌≡◌, str_eq, refl}
use nutmix.Cashu.Errors.{Result}
use nutmix.Cashu.Externals.{Externals}
use nutmix.Mint.Environment.{Backend}
use nutmix.Mint.Setup.{
  FullConfig, ChainParams, Connections, fake_wallet_name, lnd_grpc_name, lnbits_name, cln_grpc_name,
  strike_name, string_to_lightning_backend, use_enviroment_vars, choose_backend, set_up_auth,
  set_up_mint,
}

-- Whatever the text is, the backend of CLN is not what it stands for.
string_to_lightning_backend-not_cln :
    (text : String) → str_eq (string_to_lightning_backend text) cln_grpc_name ≡ false
unfolding string_to_lightning_backend
string_to_lightning_backend-not_cln text =
    by_case (str_eq text fake_wallet_name) (str_eq text lnd_grpc_name) (str_eq text lnbits_name)
      (str_eq text strike_name)
  where
    by_case :
        (fake lnd lnbits strike : Bool)
        → str_eq
            (if fake
              then fake_wallet_name
              else if lnd
              then lnd_grpc_name
              else if lnbits
              then lnbits_name
              else if strike
              then strike_name
              else fake_wallet_name)
            cln_grpc_name
          ≡ false
    by_case true lnd lnbits strike = refl
    by_case false true lnbits strike = refl
    by_case false false true strike = refl
    by_case false false false true = refl
    by_case false false false false = refl

-- A mint that takes its configuration from the environment's variables never connects to CLN: what
-- the connection would give makes no difference to the mint that is set up.
set_up_mint-use_enviroment_vars :
    (x : Externals) (s : Connections) (getenv : String → String) (c : FullConfig)
    (other : ChainParams → String → String → String → String → String → Result Backend)
    → set_up_mint x s (use_enviroment_vars getenv c)
      ≡ set_up_mint x (record s { cln = other }) (use_enviroment_vars getenv c)
unfolding set_up_mint choose_backend set_up_auth use_enviroment_vars
set_up_mint-use_enviroment_vars x s getenv c other =
    rw (string_to_lightning_backend-not_cln (getenv "MINT_LIGHTNING_BACKEND")) refl
