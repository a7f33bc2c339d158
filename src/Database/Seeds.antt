-- ===== src/Database/Seeds.antt =====
-- The statements on the table of seeds (internal/database/postgresql/main.go).
pub mod Rows
use mathlib.Core.Path.{subst}
use mathlib.Core.List.{Memᴰ}
use nutmix.Prelude.{
  ℕ, String, List, [], ◌∷◌, Bool, true, false, ◌||◌, ◌≡◌, ◌∙◌, refl, ap, str_eq, eq_iff,
  if◌then◌else◌, ltb, leb, any, keep, contains, map, count_if, ◌&&◌, Bool-cases, inl, inr, arith,
  All,
}
use nutmix.Cashu.Errors.{Result, ok, err, >>=-elim}
use nutmix.Cashu.Types.{Seed}
use nutmix.Database.{Tables}

-- `ORDER BY version DESC`
place_seed : Seed → List Seed → List Seed
place_seed s [] = s ∷ []
place_seed s (r ∷ rs) = if leb r.version s.version then s ∷ r ∷ rs else r ∷ place_seed s rs

order_by_version : List Seed → List Seed
unfolding place_seed
order_by_version [] = []
order_by_version (s ∷ ss) = place_seed s (order_by_version ss)

-- GetAllSeeds
unfoldable pub get_all_seeds : Tables → List Seed
unfolding order_by_version
get_all_seeds t = order_by_version t.seeds

-- GetSeedsByUnit: `WHERE unit = $1`
abbrev pub has_unit : String → Seed → Bool
has_unit unit s = str_eq s.unit unit

unfoldable pub get_seeds_by_unit : String → Tables → List Seed
get_seeds_by_unit unit t = keep (has_unit unit) t.seeds

-- SaveNewSeed under the primary key `id`. Its retries run in the same transaction, on the same rows.
unfoldable pub save_new_seed : Seed → Tables → Result Tables
save_new_seed s t =
    if any (λ (r : Seed). str_eq s.id r.id) t.seeds
    then err []
    else ok (record t { seeds = s ∷ t.seeds })

-- One attempt of SaveNewSeeds: all rows or none.
insert_seeds : List Seed → Tables → Result Tables
unfolding save_new_seed
insert_seeds [] t = ok t
insert_seeds (s ∷ ss) t = nutmix.Cashu.Errors.◌>>=◌ (save_new_seed s t) (insert_seeds ss)

unfoldable pub save_new_seeds : List Seed → Tables → Result Tables
unfolding insert_seeds
save_new_seeds ss t = insert_seeds ss t

-- UpdateSeedsActiveStatus: `UPDATE seeds SET active = $1 WHERE id = $2` for each seed.
set_active : Bool → String → List Seed → List Seed
set_active active id [] = []
set_active active id (r ∷ rs) =
    (if str_eq r.id id then record r { active = active } else r) ∷ set_active active id rs

set_all_active : List Seed → List Seed → List Seed
unfolding set_active
set_all_active [] rows = rows
set_all_active (s ∷ ss) rows = set_all_active ss (set_active s.active s.id rows)

unfoldable pub update_seeds_active_status : List Seed → Tables → Tables
unfolding set_all_active
update_seeds_active_status ss t = record t { seeds = set_all_active ss t.seeds }

-- The seeds that a rotation writes back: `seeds[i].Active = false`.
unfoldable pub deactivated : List Seed → List Seed
deactivated [] = []
deactivated (s ∷ ss) = record s { active = false } ∷ deactivated ss

abbrev pub ids_of : List Seed → List String
ids_of [] = []
ids_of (s ∷ ss) = s.id ∷ ids_of ss

-- A row that is switched off if its id is in a list.
abbrev pub switch_off : List String → Seed → Seed
switch_off ids r = if contains r.id ids then record r { active = false } else r

-- The active seeds of a unit.
abbrev pub count_active : String → List Seed → ℕ
count_active unit rows = count_if (λ r. has_unit unit r && r.active) rows
