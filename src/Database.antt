-- ===== src/Database.antt =====
-- The tables and the statements of internal/database/postgresql (main.go, change.go). A statement
-- reads or writes the working copy of a transaction; the SQL text of each method is what its
-- definition says. Errors of the connection and of locks come from the environment (Mint.Exec).
pub mod Laws
pub mod Restore
pub mod Seeds
pub mod Quotes
use nutmix.Prelude.{
  ℕ, String, List, [], ◌∷◌, ◌++◌, Bool, true, false, not, ◌&&◌, ◌||◌, Option, none, some, str_eq,
  if◌then◌else◌, any, keep, contains, map,
}
use nutmix.Cashu.Errors.{Result, ok, err, panic, no_rows}
use nutmix.Cashu.Types.{
  Proof, ProofState, ActionState, RecoverSigDb, MeltChange, MintRequestDb, MeltRequestDb,
  BlindedMessage, PublicKey, Seed, is_pending, is_paid, is_issued, is_unpaid,
}

pub record Tables : Type 0 where
  pub proofs : List Proof
  pub recovery_signature : List RecoverSigDb
  pub mint_request : List MintRequestDb
  pub melt_request : List MeltRequestDb
  pub melt_change_message : List MeltChange
  pub seeds : List Seed

-- The keys by which rows are found.
abbrev pub ys : List Proof → List PublicKey
ys [] = []
ys (p ∷ ps) = p.y ∷ ys ps

-- GetProofsFromSecretCurve: `WHERE y = ANY($1)`
unfoldable pub get_proofs_from_secret_curve : List PublicKey → Tables → List Proof
get_proofs_from_secret_curve keys t = keep (λ p. contains p.y keys) t.proofs

-- GetProofsFromQuote: `WHERE quote = $1`
abbrev pub has_quote : String → Proof → Bool
has_quote q p = elim p.quote [ none ↦ false | some r ↦ str_eq r q ]

unfoldable pub get_proofs_from_quote : String → Tables → List Proof
get_proofs_from_quote q t = keep (has_quote q) t.proofs

-- SaveProof under the constraint UNIQUE (secret, y).
abbrev pub same_proof : Proof → Proof → Bool
same_proof p q = str_eq p.secret q.secret && str_eq p.y q.y

insert_proofs : List Proof → List Proof → Result (List Proof)
insert_proofs [] rows = ok rows
insert_proofs (p ∷ ps) rows =
    if any (same_proof p) rows then err [] else insert_proofs ps (p ∷ rows)

unfoldable pub save_proof : List Proof → Tables → Result Tables
unfolding insert_proofs
save_proof ps t = elim (insert_proofs ps t.proofs) [
  | ok rows ↦ ok (record t { proofs = rows })
  | _ ↦ err []
]

-- SetProofsState: `UPDATE proofs SET state = $1 WHERE y = $2` for each proof, as one batch. That a
-- later statement of the batch fails, which is only logged, is left out, here and in DeleteProofs.
-- The driver refuses an empty batch; Mint.Melt.Settle tests for it, the only operation whose list of
-- proofs may be empty here.
update_states : List PublicKey → ProofState → List Proof → List Proof
update_states keys state [] = []
update_states keys state (p ∷ ps) =
    (if contains p.y keys then record p { state = state } else p) ∷ update_states keys state ps

unfoldable pub set_proofs_state : List Proof → ProofState → Tables → Tables
unfolding update_states
set_proofs_state ps state t = record t { proofs = update_states (ys ps) state t.proofs }

-- DeleteProofs: `DELETE FROM proofs WHERE y = $1` for each proof.
unfoldable pub delete_proofs : List Proof → Tables → Tables
delete_proofs ps t = record t { proofs = keep (λ p. not (contains p.y (ys ps))) t.proofs }

-- GetRestoreSigsFromBlindedMessages: `WHERE "B_" = ANY($1)`
unfoldable pub get_restore_sigs_from_blinded_messages : List PublicKey → Tables → List RecoverSigDb
get_restore_sigs_from_blinded_messages keys t =
    keep (λ (r : RecoverSigDb). contains r.b_ keys) t.recovery_signature

-- SaveRestoreSigs under the constraint UNIQUE ("B_"). Its retries run in the same transaction, on
-- the same rows.
insert_sigs : List RecoverSigDb → List RecoverSigDb → Result (List RecoverSigDb)
insert_sigs [] rows = ok rows
insert_sigs (r ∷ rs) rows =
    if any (λ (q : RecoverSigDb). str_eq r.b_ q.b_) rows then err [] else insert_sigs rs (r ∷ rows)

with_sigs : Tables → Result (List RecoverSigDb) → Result Tables
with_sigs t (ok rows) = ok (record t { recovery_signature = rows })
with_sigs t _ = err []

-- The proof of each signature is dereferenced first: a nil pointer panics.
lacks_dleq : RecoverSigDb → Bool
lacks_dleq r = elim r.dleq [ none ↦ true | some d ↦ false ]

unfoldable pub save_restore_sigs : List RecoverSigDb → Tables → Result Tables
unfolding insert_sigs with_sigs lacks_dleq
save_restore_sigs rs t =
    if any lacks_dleq rs then panic else with_sigs t (insert_sigs rs t.recovery_signature)

-- SaveMintRequest under the primary key `quote`.
unfoldable pub save_mint_request : MintRequestDb → Tables → Result Tables
save_mint_request q t =
    if any (λ (r : MintRequestDb). str_eq q.quote r.quote) t.mint_request
    then err []
    else ok (record t { mint_request = q ∷ t.mint_request })

-- ChangeMintRequestState: `UPDATE mint_request SET state = $2, minted = $3 WHERE quote = $1`
unfoldable pub change_mint_rows :
    String → ActionState → Bool → List MintRequestDb → List MintRequestDb
change_mint_rows quote state minted [] = []
change_mint_rows quote state minted (q ∷ qs) =
    (if str_eq q.quote quote then record q { state = state; minted = minted } else q)
    ∷ change_mint_rows quote state minted qs

unfoldable pub change_mint_request_state : String → ActionState → Bool → Tables → Tables
unfolding change_mint_rows
change_mint_request_state quote state minted t = record t {
  mint_request = change_mint_rows quote state minted t.mint_request;
}

-- GetMintRequestById and GetMintRequestByRequest: the first row, or pgx.ErrNoRows.
unfoldable pub find_mint : (MintRequestDb → Bool) → List MintRequestDb → Result MintRequestDb
find_mint test [] = err (no_rows ∷ [])
find_mint test (q ∷ qs) = if test q then ok q else find_mint test qs

unfoldable pub get_mint_request_by_id : String → Tables → Result MintRequestDb
unfolding find_mint
get_mint_request_by_id quote t =
    find_mint (λ (q : MintRequestDb). str_eq q.quote quote) t.mint_request

unfoldable pub get_mint_request_by_request : String → Tables → Result MintRequestDb
unfolding find_mint
get_mint_request_by_request request t =
    find_mint (λ (q : MintRequestDb). str_eq q.request request) t.mint_request

-- SaveMeltRequest under the primary key `quote`.
unfoldable pub save_melt_request : MeltRequestDb → Tables → Result Tables
save_melt_request q t =
    if any (λ (r : MeltRequestDb). str_eq q.quote r.quote) t.melt_request
    then err []
    else ok (record t { melt_request = q ∷ t.melt_request })

-- GetMeltRequestById: exactly one row, or pgx.ErrNoRows.
find_melt : String → List MeltRequestDb → Result MeltRequestDb
find_melt quote [] = err (no_rows ∷ [])
find_melt quote (q ∷ qs) = if str_eq q.quote quote then ok q else find_melt quote qs

unfoldable pub get_melt_request_by_id : String → Tables → Result MeltRequestDb
unfolding find_melt
get_melt_request_by_id quote t = find_melt quote t.melt_request

-- GetMeltQuotesByState, at the one state that the code asks for.
unfoldable pub get_pending_melt_quotes : Tables → List MeltRequestDb
get_pending_melt_quotes t = keep (λ (q : MeltRequestDb). is_pending q.state) t.melt_request

-- The three updates of melt_request, each `WHERE quote = ...`.
update_melt : String → (MeltRequestDb → MeltRequestDb) → List MeltRequestDb → List MeltRequestDb
update_melt quote change [] = []
update_melt quote change (q ∷ qs) =
    (if str_eq q.quote quote then change q else q) ∷ update_melt quote change qs

unfoldable pub change_melt_request_state : String → ActionState → Bool → ℕ → Tables → Tables
unfolding update_melt
change_melt_request_state quote state melted fee_paid t = record t {
  melt_request =
      update_melt quote
        (λ (q : MeltRequestDb). record q { state = state; melted = melted; fee_paid = fee_paid })
        t.melt_request;
}

unfoldable pub add_preimage_melt_request : String → String → Tables → Tables
unfolding update_melt
add_preimage_melt_request quote preimage t = record t {
  melt_request =
      update_melt quote (λ (q : MeltRequestDb). record q { payment_preimage = preimage })
        t.melt_request;
}

unfoldable pub change_checking_id : String → String → Tables → Tables
unfolding update_melt
change_checking_id quote checking_id t = record t {
  melt_request =
      update_melt quote (λ (q : MeltRequestDb). record q { checking_id = checking_id })
        t.melt_request;
}

-- SaveMeltChange, GetMeltChangeByQuote and DeleteChangeByQuote (change.go).
change_rows : List BlindedMessage → String → ℕ → List MeltChange → List MeltChange
change_rows [] quote now rows = rows
change_rows (m ∷ ms) quote now rows =
    record { b_ = m.b_; id = m.id; quote = quote; created_at = now } ∷ change_rows ms quote now rows

unfoldable pub save_melt_change : List BlindedMessage → String → ℕ → Tables → Tables
unfolding change_rows
save_melt_change ms quote now t = record t {
  melt_change_message = change_rows ms quote now t.melt_change_message;
}

unfoldable pub get_melt_change_by_quote : String → Tables → List MeltChange
get_melt_change_by_quote quote t =
    keep (λ (c : MeltChange). str_eq c.quote quote) t.melt_change_message

unfoldable pub delete_change_by_quote : String → Tables → Tables
delete_change_by_quote quote t = record t {
  melt_change_message = keep (λ (c : MeltChange). not (str_eq c.quote quote)) t.melt_change_message;
}
