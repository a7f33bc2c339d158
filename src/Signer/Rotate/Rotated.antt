-- ===== src/Signer/Rotate/Rotated.antt =====
-- What a rotation leaves: RotateKeyset (internal/signer/local_signer/signer.go).
use mathlib.Core.Path.{subst}
use nutmix.Prelude.{
  ℕ, suc, String, List, [], ◌∷◌, true, false, none, some, ◌≡◌, sym, ap, refl, str_eq, eq_iff, any,
  keep, contains, map, Bool-cases, inl, inr, arith,
}
use nutmix.Cashu.Errors.{ok, err, panic}
use nutmix.Cashu.Types.{Seed, CashuUnit}
use nutmix.Cashu.Convert.{unit_string}
use nutmix.Crypto.Curve.{Curve}
use nutmix.Database.{Tables}
use nutmix.Database.Seeds.{
  get_all_seeds, get_seeds_by_unit, update_seeds_active_status, deactivated, has_unit, ids_of,
  switch_off, count_active,
}
use nutmix.Database.Seeds.Rows.{
  save_new_seed-eq-ok, count_active-switch_off, update_seeds_active_status-deactivated,
}
use nutmix.Mint.Environment.{Environment, works}
use nutmix.Mint.Exec.{World, query}
use nutmix.Mint.Exec.Works.{try-works, query-works}
use nutmix.Mint.Exec.Returns.{
  Returns, Returns-elim, lift-Returns, pure-Returns, get_tx-Returns, clock-Returns, insert-Returns,
  update-Returns, commit-Returns, pool_query-Returns,
}
use nutmix.Signer.Library.{KeyLibrary}
use nutmix.Signer.Keysets.{get_keysets_from_seeds}
use nutmix.Signer.Seeds.{next_version, create_new_seed, create_new_seed-eq-ok}
use nutmix.Signer.Local.{LocalSigner}
use nutmix.Signer.Rotate.{seeds_of_unit, write_back, replace_seeds, rotate_keyset}

-- An id that no row has is not that of a row of the unit.
pub not_of_unit :
    (unit id : String) (rows : List Seed)
    → any (λ (r : Seed). str_eq id r.id) rows ≡ false
    → contains id (ids_of (keep (has_unit unit) rows)) ≡ false
not_of_unit unit id [] h = refl
not_of_unit unit id (r ∷ rs) h =
    let differs : str_eq id r.id ≡ false = ground arith in
    let rest = not_of_unit unit id rs (ground arith) in
    elim (Bool-cases (has_unit unit r)) [
      | inl of_unit ↦ rw (of_unit, differs) rest
      | inr other ↦ rw other rest
    ]

-- The rows behind the new one are switched off by their ids.
rows_after :
    (t t2 : Tables) (new : Seed) (ids : List String)
    → t2 ≡ record t { seeds = new ∷ t.seeds }
    → contains new.id ids ≡ false
    → record t2 { seeds = map (switch_off ids) t2.seeds }
      ≡ record t { seeds = new ∷ map (switch_off ids) t.seeds }
rows_after t t2 new ids h differs =
    let kept : switch_off ids new ≡ new = rw differs refl in
    subst
      (λ (s : Tables).
        record s { seeds = map (switch_off ids) s.seeds }
        ≡ record t { seeds = new ∷ map (switch_off ids) t.seeds })
      (sym h) (ap (λ (r : Seed). record t { seeds = r ∷ map (switch_off ids) t.seeds }) kept)

-- Only the new row of the unit is active.
one_left :
    (unit : String) (t after : Tables) (new : Seed) (ids : List String)
    → after ≡ record t { seeds = new ∷ map (switch_off ids) t.seeds }
    → new.active ≡ true
    → new.unit ≡ unit
    → count_active unit (map (switch_off ids) t.seeds) ≡ 0
    → count_active unit after.seeds ≡ 1
one_left unit t after new ids rows active of_unit none_left =
    let is_unit : has_unit unit new ≡ true = (eq_iff new.unit unit).1 of_unit in
    subst (λ (s : Tables). count_active unit s.seeds ≡ 1) (sym rows)
      (rw (is_unit, active) (omega (arith, none_left)))

module _ (e : Environment) (l : KeyLibrary) {P S : Type 0} (c : Curve P S) where
  -- A query that the connection does not fail answers with the seeds of the unit.
  seeds_of_unit-Returns :
      (unit : CashuUnit) (t : Tables) (w w' : World) (seeds : List Seed)
      → w.tx ≡ some t
      → e.fault w.calls ≡ works
      → Returns (seeds_of_unit e l c unit) w seeds w'
      → (seeds ≡ get_seeds_by_unit (unit_string unit) t) × (w'.tx ≡ some t)
  unfolding seeds_of_unit
  seeds_of_unit-Returns unit t w w' seeds open_ fine h = Returns-elim _ _ h (elim [
    | ok found ↦ λ w1 tried h.
        let f = get_seeds_by_unit (unit_string unit) in
        let asked = try-works (query e f) (query-works e w fine f t open_) in
        let (same, kept) = pure-Returns h in (cc, cc)
    | err x ↦ λ w1 tried h.
        let f = get_seeds_by_unit (unit_string unit) in
        let asked = try-works (query e f) (query-works e w fine f t open_) in absurd (cc)
    | panic ↦ λ w1 tried h. absurd (cc ((lift-Returns h).0))
  ])

  write_back-Returns :
      (seeds : List Seed) (t : Tables) (w w' : World) (u : Unit {0})
      → w.tx ≡ some t
      → Returns (write_back e l c seeds) w u w'
      → w'.tx ≡ some (record t { seeds = map (switch_off (ids_of seeds)) t.seeds })
  unfolding write_back update_seeds_active_status deactivated
  write_back-Returns [] t w w' u open_ h =
      let (_, kept) = pure-Returns h in let same = update_seeds_active_status-deactivated [] t in cc
  write_back-Returns (s ∷ ss) t w w' u open_ h =
      let (t', before, end) = update-Returns e _ w w' u h in
      let same = update_seeds_active_status-deactivated (s ∷ ss) t in cc

  -- The transaction of a rotation that commits.
  pub record Replaced (issuer : String) (unit : CashuUnit) (fee : ℕ) (t after : Tables) (new : Seed)
      : Type 0 where
    pub made_at : ℕ
    pub master : String
    pub made :
        create_new_seed e.x l c issuer master unit
          (next_version 0 (get_seeds_by_unit (unit_string unit) t))
          fee
          none
          made_at
        ≡ ok new
    pub fresh : any (λ (r : Seed). str_eq new.id r.id) t.seeds ≡ false
    pub rows : after ≡ record t {
      seeds = new ∷ map (switch_off (ids_of (get_seeds_by_unit (unit_string unit) t))) t.seeds;
    }

  replace_seeds-Returns :
      (issuer : String) (unit : CashuUnit) (fee : ℕ) (w w' : World) (master : String)
      → e.fault (suc w.calls) ≡ works
      → Returns (replace_seeds e l c issuer unit fee) w master w'
      → (new : Seed) × Replaced issuer unit fee (e.others w.calls w.committed) w'.committed new
        × (w'.tx ≡ none)
  unfolding replace_seeds get_seeds_by_unit
  replace_seeds-Returns issuer unit fee w w' master fine h = Returns-elim _ _ h λ u w1 begun h.
      Returns-elim _ _ h λ seeds w2 asked h. Returns-elim _ _ h λ key w3 have_key h.
        Returns-elim _ _ h λ now w4 read h. Returns-elim _ _ h λ new w5 made h.
          Returns-elim _ _ h λ _ w6 saved h. Returns-elim _ _ h λ v w7 written h.
            Returns-elim _ _ h λ z w8 done h.
              let t = e.others w.calls w.committed in
              let begun = get_tx-Returns e w w1 u begun in
              let (seeds_are, open2) = seeds_of_unit-Returns unit t w1 w2 seeds (cc) (cc) asked in
              let (_, w3_is) = lift-Returns have_key in
              let (_, w4_is) = clock-Returns e w3 w4 now read in
              let (created, w5_is) = lift-Returns made in
              let (t1, t2, open5, inserted, w6_is) = insert-Returns e _ w5 w6 _ saved in
              let (fresh, t2_is) = save_new_seed-eq-ok new t1 t2 inserted in
              let open7 = write_back-Returns seeds t2 w6 w7 v (cc) written in
              let (t3, open7', w8_is) = commit-Returns e w7 w8 z done in
              let (key_is, end) = pure-Returns h in
              let same : t ≡ t1 = cc in
              let differs : contains new.id (ids_of (get_seeds_by_unit (unit_string unit) t))
                  ≡ false =
                not_of_unit (unit_string unit) new.id t.seeds (cc) in
              let ids = ids_of (get_seeds_by_unit (unit_string unit) t) in
              let end_rows = rows_after t t2 new ids (cc) differs in
              (new, record { made_at = now; master = key; made = cc; fresh = cc; rows = cc }, cc)

  -- What a rotation has done, given the signer that it ends with: `t` are the tables that its
  -- transaction began with, `after` those that it committed.
  pub record Rotated (issuer : String) (unit : CashuUnit) (fee : ℕ) (t : Tables) (w' : World)
      (s' : LocalSigner) : Type 0 where
    pub after : Tables
    pub new : Seed
    pub replaced : Replaced issuer unit fee t after new
    pub new_active : new.active ≡ true
    pub new_unit : new.unit ≡ unit_string unit
    pub new_version : new.version ≡ next_version 0 (get_seeds_by_unit (unit_string unit) t)
    pub one_active : count_active (unit_string unit) after.seeds ≡ 1
    pub calls : ℕ
    pub committed : w'.committed ≡ e.others calls after
    pub master : String
    pub loaded_at : ℕ
    pub loaded :
        get_keysets_from_seeds e.x l c (get_all_seeds w'.committed) master loaded_at
        ≡ ok (s'.keysets, s'.active_keysets)

  -- If a rotation succeeds, and the query for the seeds of the unit was not failed by the connection,
  -- then it has added an active seed of the unit under a new id and with the version behind the
  -- highest, switched off the seeds of the unit and no others, and so left exactly one active seed
  -- of the unit in what it committed; the signer's keysets are derived from the seeds that are then
  -- stored.
  pub rotate_keyset-Rotated :
      (issuer : String) (s s' : LocalSigner) (unit : CashuUnit) (fee : ℕ) (w w' : World)
      → e.fault (suc w.calls) ≡ works
      → rotate_keyset e l c issuer s unit fee w ≡ (ok s', w')
      → Rotated issuer unit fee (e.others w.calls w.committed) w' s'
  unfolding rotate_keyset get_seeds_by_unit
  rotate_keyset-Rotated issuer s s' unit fee w w' fine h =
      Returns-elim _ _ h λ master w1 replaced h. Returns-elim _ _ h λ seeds w2 asked h.
        Returns-elim _ _ h λ now w3 read h. Returns-elim _ _ h λ maps w4 loaded h.
          let t = e.others w.calls w.committed in
          let u = unit_string unit in
          let (new, done, closed) =
            replace_seeds-Returns issuer unit fee w w1 master fine replaced in
          let (active, of_unit, version, _) =
            create_new_seed-eq-ok e.x l c issuer done.master unit _ fee none done.made_at new
              done.made in
          let none_left = count_active-switch_off u t.seeds in
          let (answer, w2_is) = pool_query-Returns e get_all_seeds w1 w2 seeds asked in
          let (_, w3_is) = clock-Returns e w2 w3 now read in
          let (both, w4_is) = lift-Returns loaded in
          let (signer_is, end) = pure-Returns h in
          record {
            after = w1.committed;
            new = new;
            replaced = done;
            new_active = active;
            new_unit = of_unit;
            new_version = version;
            one_active = one_left u t w1.committed new _ done.rows active of_unit none_left;
            calls = w1.calls;
            committed = cc;
            master = master;
            loaded_at = now;
            loaded = cc;
          }
