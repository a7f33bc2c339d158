-- ===== src/Checks/Signing.antt =====
-- Examples for the local signer: keys that are their own derivations, a keyset that is rotated, and
-- a swap over the signer.
use mathlib.Core.List.{Memᴰ}
use nutmix.Prelude.{ℕ, [], ◌∷◌, true, false, none, some, ◌≡◌, ◌≢◌, refl, contains}
use nutmix.Cashu.Errors.{Result, ok}
use nutmix.Cashu.Types.{
  Proof, Seed, MintKey, BlindedMessage, BlindSignature, RecoverSigDb, PostSwapRequest, sat,
  proofs_amount, messages_amount, set_proofs_state,
}
use nutmix.Cashu.Convert.{unit_string, unit_from_string}
use nutmix.Cashu.Keys
use nutmix.Cashu.Amounts.{get_amounts_for_keysets}
use nutmix.Cashu.Fees.{fees}
use nutmix.Cashu.SpendCondition.{is_proof_spend_conditioned}
use nutmix.Cashu.SpendCondition.SigAll.{proofs_have_sig_all}
use nutmix.Cashu.SpendCondition.Verify.{verify_proofs_spend_conditions, verify_proof_condition}
use nutmix.Crypto.{hash_to_curve}
use nutmix.Crypto.Blinding.{sign_blinded_message}
use nutmix.Crypto.Dleq.{hash_e, generate_dleq, generate_blind_signature}
use nutmix.Database
use nutmix.Database.{
  Tables, save_proof, save_restore_sigs, get_restore_sigs_from_blinded_messages,
  get_proofs_from_secret_curve,
}
use nutmix.Database.Seeds.{
  get_all_seeds, get_seeds_by_unit, save_new_seed, update_seeds_active_status, deactivated, ids_of,
}
use nutmix.Mint.Environment.{Environment}
use nutmix.Mint.Exec.{
  query_unchecked, World, get_tx, clock, try, commit, rollback, statement, pool_query, pure, lift,
  ◌>>=◌,
}
use nutmix.Mint.Inputs.{calculate_proofs_values, judge_known, distinct_outputs}
use nutmix.Mint.Outputs.{validate_proofs_unspent, validate_outputs_not_spent}
use nutmix.Mint.Units.{check_proofs_are_same_unit, verify_outputs}
use nutmix.Mint.Balance.{validate_swap_balance_and_units, validate_swap_proofs_and_spend_conditions}
use nutmix.Mint.Swap.{execute_swap, reserve_swap_inputs, sign_swap_outputs_and_mark_inputs_spent}
use nutmix.Signer.Library.{KeyLibrary}
use nutmix.Signer.Paths.{
  unit_normalization, parse_unit_to_integer_reference, key_derivation, get_derivation_steps,
}
use nutmix.Signer.Ids.{
  sort_pubkey_map, generate_keyset_v2_preimage, derive_keyset_id_v2, derive_keyset_id,
}
use nutmix.Signer.Keysets.{
  mint_key, generate_keysets, derive_keyset, get_signer_private_key, derive_seed, get_pub_key,
  pubkeys_with_values, check_seed_id, get_keysets_from_seeds,
}
use nutmix.Signer.Local.{
  LocalSigner, sign_output, sign_blind_messages, validate_proof, verify_proofs, get_keysets,
  local_interface,
}
use nutmix.Signer.Seeds.{next_version, blank_seed, create_new_seed}
use nutmix.Signer.Rotate.{seeds_of_unit, replace_seeds, rotate_keyset}
use nutmix.Signer.Rotate.Rotated.{Rotated, rotate_keyset-Rotated}
use nutmix.Signer.Rotate.Retired.{sign_blind_messages-rotate_keyset}
use nutmix.Signer.Swap.{Exchanged, execute_swap-Exchanged}
use nutmix.Checks.Fixtures.{plain, env, proof, output, empty_tables, start}
use nutmix.Checks.Keys.{small}

abbrev library : KeyLibrary
library = record {
  mint_private_key = "key";
  trim_space = λ s. s;
  nfc = λ s. s;
  to_upper = λ s. s;
  split = λ s _. s ∷ [];
  parse_uint32 = λ _. some 0;
  big_endian = λ _. 5;
  new_master = λ s. some s;
  derive = λ key _. some key;
  ec_priv_key = λ key. some key;
  ec_pub_key = λ key. some key;
  normal_key = λ key. key;
  legacy_master = λ key. some key;
  new_child_key = λ key _. some key;
  key_bytes = λ key. key;
  verify_proof = λ _ _ _. true;
  random_bytes = λ _. some "odd";
}

abbrev key : ℕ → MintKey
key amount = record {
  priv_key = some "odd";
  final_expiry = none;
  id = "ks";
  unit = "sat";
  amount = amount;
  created_at = 0;
  input_fee_ppk = 1000;
  active = true;
}

abbrev local : LocalSigner
local = record {
  active_keysets = ("ks", (7, key 7) ∷ (8, key 8) ∷ []) ∷ [];
  keysets = ("ks", (7, key 7) ∷ (8, key 8) ∷ []) ∷ [];
  pubkey = "key";
}

abbrev seed : Seed
seed = record {
  final_expiry = none;
  issuer_version = none;
  unit = "sat";
  id = "ks";
  derivation_path = "0";
  amounts = 7 ∷ 8 ∷ [];
  created_at = 0;
  input_fee_ppk = 1000;
  version = 0;
  active = true;
  legacy = false;
}

abbrev odd_signature : BlindSignature
odd_signature = record {
  c_ = "even";
  dleq = some (record { e = "even"; s = "odd" });
  id = "ks";
  amount = 7;
}

abbrev odd_recovery : RecoverSigDb
odd_recovery = record {
  b_ = "point";
  c_ = "even";
  dleq = some (record { e = "even"; s = "odd" });
  id = "ks";
  melt_quote = "";
  amount = 7;
  created_at = 5;
}

one_signed :
    sign_blind_messages plain library small local 5 (output ∷ [])
    ≡ ok (odd_signature ∷ [], odd_recovery ∷ [])
unfolding sign_blind_messages sign_output generate_blind_signature generate_dleq hash_e
    sign_blinded_message
one_signed = refl

abbrev local_env : Environment
local_env = record env { signer = local_interface plain library small local (seed ∷ []) }

abbrev swap_request : PostSwapRequest
swap_request = record { inputs = proof "text" ∷ []; outputs = output ∷ [] }

swapped :
    execute_swap local_env swap_request (start empty_tables)
    ≡ (ok (odd_signature ∷ []), (execute_swap local_env swap_request (start empty_tables)).1)
unfolding execute_swap reserve_swap_inputs sign_swap_outputs_and_mark_inputs_spent
    validate_swap_balance_and_units fees proofs_amount messages_amount check_proofs_are_same_unit
    verify_outputs unit_from_string validate_swap_proofs_and_spend_conditions proofs_have_sig_all
    is_proof_spend_conditioned verify_proofs_spend_conditions verify_proof_condition
    validate_proofs_unspent validate_outputs_not_spent query_unchecked calculate_proofs_values
    judge_known distinct_outputs hash_to_curve get_tx clock try commit rollback statement pure lift
    ◌>>=◌ save_proof save_restore_sigs get_restore_sigs_from_blinded_messages
    get_proofs_from_secret_curve Database.set_proofs_state nutmix.Cashu.Types.set_proofs_state
    local_interface get_keysets verify_proofs validate_proof sign_blind_messages sign_output
    generate_blind_signature generate_dleq hash_e sign_blinded_message
swapped = refl

execute_swap-Exchanged_example :
    Exchanged local_env library small local (seed ∷ []) swap_request (odd_signature ∷ [])
execute_swap-Exchanged_example =
    execute_swap-Exchanged local_env library small local (seed ∷ []) swap_request
      (start empty_tables) (execute_swap local_env swap_request (start empty_tables)).1
      (odd_signature ∷ []) refl swapped

-- A seed whose id is the one that its key gives.
abbrev old_seed : Seed
old_seed = record seed { id = "011:even|unit:sat"; amounts = 1 ∷ []; input_fee_ppk = 0 }

abbrev old_world : World
old_world = start (record empty_tables { seeds = old_seed ∷ [] })

abbrev run : Result LocalSigner × World
run = rotate_keyset env library small "1.0" local sat 100 old_world

abbrev signer_of : Result LocalSigner → LocalSigner
signer_of (ok s) = s
signer_of _ = local

rotated : run ≡ (ok (signer_of run.0), run.1)
unfolding rotate_keyset replace_seeds seeds_of_unit create_new_seed blank_seed next_version
    get_signer_private_key get_keysets_from_seeds derive_seed check_seed_id pubkeys_with_values
    get_pub_key derive_keyset generate_keysets mint_key derive_keyset_id_v2 derive_keyset_id
    generate_keyset_v2_preimage sort_pubkey_map get_derivation_steps key_derivation
    parse_unit_to_integer_reference unit_normalization unit_string get_amounts_for_keysets
    Keys.sort_pubkey_map Keys.generate_keyset_v2_preimage Keys.derive_keyset_id_v2 get_all_seeds
    get_seeds_by_unit save_new_seed update_seeds_active_status deactivated get_tx clock try commit
    statement pool_query pure lift ◌>>=◌
rotated = refl

rotate_keyset-Rotated_example :
    Rotated env library small "1.0" sat 100 old_world.committed run.1 (signer_of run.0)
rotate_keyset-Rotated_example =
    rotate_keyset-Rotated env library small "1.0" local (signer_of run.0) sat 100 old_world run.1
      refl rotated

abbrev old_output : BlindedMessage
old_output = record output { id = "011:even|unit:sat"; amount = 1 }

was_there :
    contains "011:even|unit:sat" (ids_of (get_seeds_by_unit (unit_string sat) old_world.committed))
    ≡ true
unfolding get_seeds_by_unit unit_string
was_there = refl

sign_blind_messages-rotate_keyset_example :
    sign_blind_messages plain library small (signer_of run.0) 5 (old_output ∷ [])
    ≢ ok (odd_signature ∷ [], odd_recovery ∷ [])
sign_blind_messages-rotate_keyset_example =
    sign_blind_messages-rotate_keyset env library small "1.0" local (signer_of run.0) sat 100
      old_world run.1 5 old_output (old_output ∷ []) (odd_signature ∷ [], odd_recovery ∷ []) refl
      (λ n t. refl) rotated (Memᴰ.head refl) was_there
