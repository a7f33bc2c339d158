-- ===== src/Database/Seeds/Rows.antt =====
-- What the statements on the seeds do to the rows (internal/database/postgresql/main.go).
use mathlib.Core.Path.{subst}
use mathlib.Core.List.{Memᴰ}
use nutmix.Prelude.{
  ℕ, String, List, [], ◌∷◌, Bool, true, false, ◌||◌, ◌≡◌, ◌∙◌, refl, ap, str_eq, eq_iff,
  if◌then◌else◌, ltb, leb, any, keep, contains, map, count_if, ◌&&◌, Bool-cases, inl, inr, arith,
  All,
}
use nutmix.Cashu.Errors.{ok}
use nutmix.Cashu.Types.{Seed}
use nutmix.Database.{Tables}
use nutmix.Database.Seeds.{
  place_seed, order_by_version, get_all_seeds, has_unit, save_new_seed, set_active, set_all_active,
  update_seeds_active_status, deactivated, ids_of, switch_off, count_active,
}

-- A seed that is saved has a new id, and is the first row.
pub save_new_seed-eq-ok :
    (s : Seed) (t t' : Tables)
    → save_new_seed s t ≡ ok t'
    → (any (λ (r : Seed). str_eq s.id r.id) t.seeds ≡ false)
      × (t' ≡ record t { seeds = s ∷ t.seeds })
unfolding save_new_seed
save_new_seed-eq-ok s t t' h = elim (Bool-cases (any (λ (r : Seed). str_eq s.id r.id) t.seeds)) [
  | inl taken ↦ absurd (cc)
  | inr fresh ↦ (fresh, cc)
]

switch_off_one :
    (s : Seed) (ids : List String) (rows : List Seed)
    → map (switch_off ids) (set_active false s.id rows) ≡ map (switch_off (s.id ∷ ids)) rows
unfolding set_active
switch_off_one s ids [] = refl
switch_off_one s ids (r ∷ rs) =
    let rest = switch_off_one s ids rs in
    elim (Bool-cases (str_eq r.id s.id)) [
      | inl hit ↦ elim (Bool-cases (contains r.id ids)) [
        | inl known ↦ rw (hit, known) (cc)
        | inr unknown ↦ rw (hit, unknown) (cc)
      ]
      | inr miss ↦ rw miss (cc)
    ]

switch_off_none : (rows : List Seed) → map (switch_off []) rows ≡ rows
switch_off_none [] = refl
switch_off_none (r ∷ rs) = ap (λ rest. r ∷ rest) (switch_off_none rs)

switch_off_all :
    (ss rows : List Seed) → set_all_active (deactivated ss) rows ≡ map (switch_off (ids_of ss)) rows
unfolding set_all_active deactivated
switch_off_all [] rows = nutmix.Prelude.sym (switch_off_none rows)
switch_off_all (s ∷ ss) rows =
    switch_off_all ss (set_active false s.id rows) ∙ switch_off_one s (ids_of ss) rows

-- Writing back some seeds as inactive switches off the rows with their ids, and no others.
pub update_seeds_active_status-deactivated :
    (ss : List Seed) (t : Tables)
    → update_seeds_active_status (deactivated ss) t
      ≡ record t { seeds = map (switch_off (ids_of ss)) t.seeds }
unfolding update_seeds_active_status
update_seeds_active_status-deactivated ss t =
    ap (λ (rows : List Seed). record t { seeds = rows }) (switch_off_all ss t.seeds)

-- Every row of the unit has its id in a list.
abbrev Covers : String → List String → List Seed → Type 0
Covers unit ids rows = All (λ r. has_unit unit r ≡ true → contains r.id ids ≡ true) rows

Covers-cons :
    (unit id : String) (ids : List String) (rows : List Seed)
    → Covers unit ids rows
    → Covers unit (id ∷ ids) rows
Covers-cons unit id ids [] h = tt
Covers-cons unit id ids (r ∷ rs) (here, h) =
    (λ u. ground (arith, here u), Covers-cons unit id ids rs h)

Covers-keep :
    (unit : String) (rows : List Seed) → Covers unit (ids_of (keep (has_unit unit) rows)) rows
Covers-keep unit [] = tt
Covers-keep unit (r ∷ rs) =
    let rest = Covers-keep unit rs in
    elim (Bool-cases (has_unit unit r)) [
      | inl of_unit ↦
          let kept : r ∷ keep (has_unit unit) rs ≡ keep (has_unit unit) (r ∷ rs) =
            rw of_unit refl in
          subst (λ ks. Covers unit (ids_of ks) (r ∷ rs)) kept
            (λ _. rw ((eq_iff r.id r.id).1 refl) refl, Covers-cons unit r.id _ rs rest)
      | inr other ↦
          let kept : keep (has_unit unit) rs ≡ keep (has_unit unit) (r ∷ rs) = rw other refl in
          subst (λ ks. Covers unit (ids_of ks) (r ∷ rs)) kept (λ h. absurd (cc), rest)
    ]

none_active :
    (unit : String) (ids : List String) (rows : List Seed)
    → Covers unit ids rows
    → count_active unit (map (switch_off ids) rows) ≡ 0
none_active unit ids [] h = refl
none_active unit ids (r ∷ rs) (here, h) =
    let rest = none_active unit ids rs h in
    elim (Bool-cases (has_unit unit r)) [
      | inl of_unit ↦ rw (here of_unit, of_unit) (omega (arith, rest))
      | inr other ↦ elim (Bool-cases (contains r.id ids)) [
        | inl known ↦ rw (known, other) (omega (arith, rest))
        | inr unknown ↦ rw (unknown, other) (omega (arith, rest))
      ]
    ]

-- Once the rows of a unit are switched off, the unit has no active seed.
pub count_active-switch_off :
    (unit : String) (rows : List Seed)
    → count_active unit (map (switch_off (ids_of (keep (has_unit unit) rows))) rows) ≡ 0
count_active-switch_off unit rows = none_active unit _ rows (Covers-keep unit rows)

Memᴰ-place_seed : (a s : Seed) (rows : List Seed) → Memᴰ a (place_seed s rows) → Memᴰ a (s ∷ rows)
unfolding place_seed
Memᴰ-place_seed a s [] h = h
Memᴰ-place_seed a s (r ∷ rs) h = judged (leb r.version s.version) (Memᴰ-place_seed a s rs) h
  where
    judged :
        (first : Bool)
        → (Memᴰ a (place_seed s rs) → Memᴰ a (s ∷ rs))
        → Memᴰ a (if first then s ∷ r ∷ rs else r ∷ place_seed s rs)
        → Memᴰ a (s ∷ r ∷ rs)
    judged true rest h = h
    judged false rest (Memᴰ.head same) = Memᴰ.tail (Memᴰ.head same)
    judged false rest (Memᴰ.tail h) = elim (rest h) [
      | Memᴰ.head same ↦ Memᴰ.head same
      | Memᴰ.tail later ↦ Memᴰ.tail (Memᴰ.tail later)
    ]

Memᴰ-order_by_version : (a : Seed) (rows : List Seed) → Memᴰ a (order_by_version rows) → Memᴰ a rows
unfolding order_by_version
Memᴰ-order_by_version a [] h = h
Memᴰ-order_by_version a (r ∷ rs) h = elim (Memᴰ-place_seed a r (order_by_version rs) h) [
  | Memᴰ.head same ↦ Memᴰ.head same
  | Memᴰ.tail later ↦ Memᴰ.tail (Memᴰ-order_by_version a rs later)
]

-- GetAllSeeds answers with stored rows.
pub Memᴰ-get_all_seeds : (a : Seed) (t : Tables) → Memᴰ a (get_all_seeds t) → Memᴰ a t.seeds
unfolding get_all_seeds
Memᴰ-get_all_seeds a t h = Memᴰ-order_by_version a t.seeds h

-- A row whose id was switched off is not active.
pub Memᴰ-switch_off :
    (a : Seed) (ids : List String) (rows : List Seed)
    → Memᴰ a (map (switch_off ids) rows)
    → contains a.id ids ≡ true
    → a.active ≡ false
Memᴰ-switch_off a ids [] h known = elim h [ ]
Memᴰ-switch_off a ids (r ∷ rs) (Memᴰ.tail h) known = Memᴰ-switch_off a ids rs h known
Memᴰ-switch_off a ids (r ∷ rs) (Memᴰ.head same) known = elim (Bool-cases (contains r.id ids)) [
  | inl off ↦
      let row : a ≡ record r { active = false } = rw off at same in ap (λ (s : Seed). s.active) row
  | inr on ↦ let row : a ≡ r = rw on at same in absurd (cc)
]
