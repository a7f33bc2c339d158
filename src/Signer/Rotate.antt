-- ===== src/Signer/Rotate.antt =====
-- RotateKeyset (internal/signer/local_signer/signer.go): a new keyset for a unit, in one transaction
-- with the end of the ones before. The issuer's version is a constant of the build.
pub mod Rotated
pub mod Retired
use nutmix.Prelude.{
  ℕ, zero, suc, String, List, [], ◌∷◌, Bool, true, false, none, if◌then◌else◌, is_empty, any,
}
use nutmix.Cashu.Errors.{Result, ok, err, panic, Sentinel, no_rows}
use nutmix.Cashu.Types.{Seed, CashuUnit, sat}
use nutmix.Cashu.Convert.{unit_string}
use nutmix.Crypto.Curve.{Curve}
use nutmix.Database.Seeds.{
  get_all_seeds, get_seeds_by_unit, save_new_seed, save_new_seeds, update_seeds_active_status,
  deactivated,
}
use nutmix.Mint.Environment.{Environment}
use nutmix.Mint.Exec.{
  M, pure, lift, try, clock, get_tx, query, update, insert, commit, pool_query, pool_insert, ◌>>=◌,
  ◌>>◌,
}
use nutmix.Signer.Library.{KeyLibrary}
use nutmix.Signer.Keysets.{required, get_signer_private_key, get_keysets_from_seeds}
use nutmix.Signer.Seeds.{next_version, create_new_seed}
use nutmix.Signer.Local.{LocalSigner}

abbrev is_no_rows : Sentinel → Bool
is_no_rows no_rows = true
is_no_rows _ = false

module _ (e : Environment) (l : KeyLibrary) {P S : Type 0} (c : Curve P S) where
  -- The seeds of the unit. An error goes on with no seeds, unless it is pgx.ErrNoRows.
  unfoldable pub seeds_of_unit : CashuUnit → M (List Seed)
  unfolding get_seeds_by_unit unit_string
  seeds_of_unit unit = try (query e (get_seeds_by_unit (unit_string unit))) >>= (elim [
    | ok seeds ↦ pure seeds
    | err x ↦ if any is_no_rows x then lift (err x) else pure []
    | panic ↦ lift panic
  ])

  write_back : List Seed → M (Unit {0})
  unfolding update_seeds_active_status deactivated
  write_back seeds =
      if is_empty seeds then pure tt else update e (update_seeds_active_status (deactivated seeds))

  -- The transaction of a rotation, with the private key.
  unfoldable pub replace_seeds : String → CashuUnit → ℕ → M String
  unfolding seeds_of_unit create_new_seed write_back get_signer_private_key next_version
  replace_seeds issuer unit fee = do
    get_tx e
    seeds ← seeds_of_unit unit
    master ← lift (get_signer_private_key e.x l)
    now ← clock e
    seed ← lift (create_new_seed e.x l c issuer master unit (next_version 0 seeds) fee none now)
    insert e (save_new_seed seed)
    write_back seeds
    commit e
    pure master

  -- RotateKeyset: the signer with its new keysets. The signer of an error is the one before; the
  -- expiry that is asked for is not read.
  unfoldable pub rotate_keyset : String → LocalSigner → CashuUnit → ℕ → M LocalSigner
  unfolding replace_seeds get_keysets_from_seeds
  rotate_keyset issuer s unit fee = do
    master ← replace_seeds issuer unit fee
    seeds ← pool_query e get_all_seeds
    now ← clock e
    maps ← lift (get_keysets_from_seeds e.x l c seeds master now)
    pure (record s { keysets = maps.0; active_keysets = maps.1 })

  -- SaveNewSeeds: three attempts, each on a connection of its own.
  attempts : ℕ → M (Unit {0}) → M (Unit {0})
  attempts zero m = m
  attempts (suc n) m =
      try m >>= (elim [ ok _ ↦ pure tt | err x ↦ attempts n m | panic ↦ lift panic ])

  -- The seeds of a signer that starts: the first one is for satoshis.
  first_seeds : String → String → List Seed → M (List Seed)
  unfolding attempts create_new_seed save_new_seeds
  first_seeds issuer master (s ∷ ss) = pure (s ∷ ss)
  first_seeds issuer master [] = do
    now ← clock e
    seed ← lift (create_new_seed e.x l c issuer master sat 0 0 none now)
    attempts 2 (pool_insert e (save_new_seeds (seed ∷ [])))
    pure (seed ∷ [])

  -- SetupLocalSigner
  unfoldable pub setup_local_signer : String → M LocalSigner
  unfolding first_seeds get_signer_private_key get_keysets_from_seeds get_all_seeds
  setup_local_signer issuer = do
    master ← lift (get_signer_private_key e.x l)
    stored ← pool_query e get_all_seeds
    pubkey ← lift (required (l.ec_pub_key master))
    seeds ← first_seeds issuer master stored
    now ← clock e
    maps ← lift (get_keysets_from_seeds e.x l c seeds master now)
    pure (record { keysets = maps.0; active_keysets = maps.1; pubkey = pubkey })
