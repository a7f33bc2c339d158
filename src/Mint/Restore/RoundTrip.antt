-- ===== src/Mint/Restore/RoundTrip.antt =====
-- A wallet gets back the signatures that were stored for its outputs: Restore
-- (internal/mint/restore.go).
use nutmix.Prelude.{ℕ, suc, List, [], ◌∷◌, ◌++◌, ◌≡◌, refl, ap, ◌∙◌, map, some}
use nutmix.Cashu.Errors.{Result, ok}
use nutmix.Cashu.Types.{BlindedMessage, BlindSignature, RecoverSigDb, get_sig_and_message}
use nutmix.Database.{Tables, save_restore_sigs, get_restore_sigs_from_blinded_messages}
use nutmix.Database.Restore.{get_restore_sigs-save_restore_sigs}
use nutmix.Mint.Environment.{Environment, works}
use nutmix.Mint.Exec.{World, pure, get_tx, query_unchecked, commit}
use nutmix.Mint.Exec.Works.{>>=-works, get_tx-works, query_unchecked-works, commit-works}
use nutmix.Mint.Restore.{restore}

-- If the signature `r` was stored, with others, in the tables that are committed, if the connection
-- works and no other request comes between, then Restore answers a request for an output with the
-- point of `r` by that signature and its message alone.
pub restore-save_restore_sigs :
    (e : Environment) (r : RecoverSigDb) (before after : List RecoverSigDb) (t : Tables) (w : World)
    (output : BlindedMessage)
    → save_restore_sigs (before ++ r ∷ after) t ≡ ok w.committed
    → output.b_ ≡ r.b_
    → ((n : ℕ) → e.fault n ≡ works)
    → ((n : ℕ) (s : Tables) → e.others n s ≡ s)
    → (restore e (output ∷ []) w).0 ≡ ok (get_sig_and_message r ∷ [])
unfolding restore pure
restore-save_restore_sigs e r before after t w output stored same fine alone =
    let f = get_restore_sigs_from_blinded_messages (output.b_ ∷ []) in
    let t1 = e.others w.calls w.committed in
    let w1 : World = record { committed = t1; tx = some t1; calls = suc w.calls } in
    let w2 : World = record { committed = t1; tx = some t1; calls = suc (suc w.calls) } in
    let began = >>=-works (get_tx e) _ (get_tx-works e w (fine w.calls)) in
    let asked = >>=-works (query_unchecked e f) _ (query_unchecked-works e w1 (fine _) f t1 refl) in
    let closed = >>=-works (commit e) _ (commit-works e w2 (fine _) t1 refl) in
    let answered : (restore e (output ∷ []) w).0 ≡ ok (map get_sig_and_message (f t1)) =
      ap (λ (s : Result (List (BlindSignature × BlindedMessage)) × World). s.0)
        (began ∙ asked ∙ closed) in
    let unchanged : t1 ≡ w.committed = alone w.calls w.committed in
    let found = get_restore_sigs-save_restore_sigs r before after t w.committed stored in
    let here : f t1 ≡ r ∷ [] = cc in answered ∙ ap (λ s. ok (map get_sig_and_message s)) here
