-- ===== src/Signer/Rotate/Retired.antt =====
-- After a rotation the keysets that it ends are not signed with: RotateKeyset and SignBlindMessages
-- (internal/signer/local_signer/signer.go).
use mathlib.Core.Path.{subst}
use mathlib.Core.List.{Memᴰ}
use nutmix.Prelude.{ℕ, suc, String, List, [], ◌∷◌, true, false, ◌≡◌, ◌≢◌, ◌∙◌, sym, ap, contains}
use nutmix.Cashu.Errors.{ok}
use nutmix.Cashu.Types.{Seed, CashuUnit, BlindedMessage, BlindSignature, RecoverSigDb}
use nutmix.Cashu.Convert.{unit_string}
use nutmix.Crypto.Curve.{Curve}
use nutmix.Database.{Tables}
use nutmix.Database.Seeds.{get_all_seeds, get_seeds_by_unit, ids_of}
use nutmix.Database.Seeds.Rows.{Memᴰ-get_all_seeds, Memᴰ-switch_off}
use nutmix.Mint.Environment.{Environment, works}
use nutmix.Mint.Exec.{World}
use nutmix.Signer.Library.{KeyLibrary}
use nutmix.Signer.Keysets.Active.{get_keysets_from_seeds-FromActiveSeed}
use nutmix.Signer.Local.{LocalSigner, sign_blind_messages}
use nutmix.Signer.Local.Signed.{SignedOutputs, ActiveKey, sign_blind_messages-SignedOutputs}
use nutmix.Signer.Rotate.{rotate_keyset}
use nutmix.Signer.Rotate.Rotated.{Replaced, rotate_keyset-Rotated, not_of_unit}

-- Every output that is signed has its keyset among the active ones.
used_key :
    {P S : Type 0} (c : Curve P S) (s : LocalSigner) (now : ℕ) (o : BlindedMessage)
    (os : List BlindedMessage) (sigs : List BlindSignature) (recovery : List RecoverSigDb)
    → Memᴰ o os
    → SignedOutputs c s now os sigs recovery
    → ActiveKey s o.id o.amount
used_key c s now o [] sigs recovery m h = elim m [ ]
used_key c s now o (p ∷ os) (g ∷ gs) (r ∷ rs) (Memᴰ.head same) (here, h) =
    subst (λ (m : BlindedMessage). ActiveKey s m.id m.amount) (sym same) here.used
used_key c s now o (p ∷ os) (g ∷ gs) (r ∷ rs) (Memᴰ.tail later) (here, h) =
    used_key c s now o os gs rs later h
used_key c s now o (p ∷ os) [] recovery m h = absurd h
used_key c s now o (p ∷ os) (g ∷ gs) [] m h = absurd h

module _ (e : Environment) (l : KeyLibrary) {P S : Type 0} (c : Curve P S) where
  -- A row that a rotation leaves and that has an id of the unit's former seeds is not active.
  retired_row :
      (issuer : String) (unit : CashuUnit) (fee : ℕ) (t after : Tables) (new a : Seed)
      → Replaced e l c issuer unit fee t after new
      → Memᴰ a after.seeds
      → contains a.id (ids_of (get_seeds_by_unit (unit_string unit) t)) ≡ true
      → a.active ≡ false
  unfolding get_seeds_by_unit
  retired_row issuer unit fee t after new a h stored old =
      let rows = ap (λ (s : Tables). s.seeds) h.rows in
      let differs = not_of_unit (unit_string unit) new.id t.seeds h.fresh in
      elim (subst (Memᴰ a) rows stored) [
        | Memᴰ.head same ↦ absurd (cc)
        | Memᴰ.tail later ↦ Memᴰ-switch_off a _ t.seeds later old
      ]

  -- After a rotation that succeeds, if the query for the seeds of the unit was not failed by the
  -- connection and no other request changes the tables, the signer refuses every request for
  -- signatures that has an output under an id that a seed of the unit had before the rotation.
  pub sign_blind_messages-rotate_keyset :
      (issuer : String) (s s' : LocalSigner) (unit : CashuUnit) (fee : ℕ) (w w' : World) (now : ℕ)
      (o : BlindedMessage) (os : List BlindedMessage)
      (made : List BlindSignature × List RecoverSigDb)
      → e.fault (suc w.calls) ≡ works
      → ((n : ℕ) (t : Tables) → e.others n t ≡ t)
      → rotate_keyset e l c issuer s unit fee w ≡ (ok s', w')
      → Memᴰ o os
      → contains o.id (ids_of (get_seeds_by_unit (unit_string unit) w.committed)) ≡ true
      → sign_blind_messages e.x l c s' now os ≢ ok made
  sign_blind_messages-rotate_keyset issuer s s' unit fee w w' now o os made fine alone rotated asked
        old signed =
      let h = rotate_keyset-Rotated e l c issuer s s' unit fee w w' fine rotated in
      let all = sign_blind_messages-SignedOutputs e.x l c s' now os made.0 made.1 signed in
      let used = used_key c s' now o os made.0 made.1 asked all in
      let from =
        get_keysets_from_seeds-FromActiveSeed e.x l c h.master h.loaded_at
          (get_all_seeds w'.committed) s'.keysets s'.active_keysets o.id used.keys h.loaded
          used.keyset in
      let before : e.others w.calls w.committed ≡ w.committed = alone w.calls w.committed in
      let after : w'.committed ≡ h.after = h.committed ∙ alone h.calls h.after in
      let stored : Memᴰ from.seed h.after.seeds =
        subst (λ (t : Tables). Memᴰ from.seed t.seeds) after
          (Memᴰ-get_all_seeds from.seed w'.committed from.stored) in
      let off =
        retired_row issuer unit fee (e.others w.calls w.committed) h.after h.new from.seed
          h.replaced stored (cc) in
      let on = from.active in cc
