-- ===== src/Mint/Restore.antt =====
-- Signatures that a wallet asks for again: Restore (internal/mint/restore.go). The answer's
-- `Promises` are its `Signatures` again.
pub mod RoundTrip
use nutmix.Prelude.{List, [], ◌∷◌, map, ◌≡◌}
use nutmix.Cashu.Types.{
  BlindedMessage, BlindSignature, PublicKey, RecoverSigDb, get_sig_and_message,
}
use nutmix.Database.{get_restore_sigs_from_blinded_messages}
use nutmix.Mint.Environment.{Environment}
use nutmix.Mint.Exec.{M, pure, get_tx, query_unchecked, commit, ◌>>=◌, ◌>>◌}

abbrev pub blinding_factors : List BlindedMessage → List PublicKey
blinding_factors [] = []
blinding_factors (o ∷ os) = o.b_ ∷ blinding_factors os

module _ (e : Environment) where
  -- Restore
  unfoldable pub restore : List BlindedMessage → M (List (BlindSignature × BlindedMessage))
  restore outputs = do
    get_tx e
    sigs ← query_unchecked e (get_restore_sigs_from_blinded_messages (blinding_factors outputs))
    commit e
    pure (map get_sig_and_message sigs)
