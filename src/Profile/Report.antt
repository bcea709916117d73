-- ===== src/Profile/Report.antt =====
-- scripts/profile_aggregate.py: `ranking_table`, `pillar_table`, `write_report`, and what `run_lake_logs` and `run_profile_dir` report. The tables are
-- lists of their cells; an argument that is None is an empty dict, but for the categories.
pub mod Pillars
pub mod Entries
use sp1_lean.Base.{
  ℕ, suc, ◌+◌, ◌^◌, Bool, true, false, not, ◌&&◌, ◌||◌, Option, none, some, List, [], ◌∷◌, ◌++◌,
  map, Text, codes, nat_beq, nat_eq, list_eq, ◌==◌, if◌then◌else◌, or_else, length, take, keep, leb,
  gather, starts_with, String,
}
use sp1_lean.Base.Dict.{Dict, lookup, upsert}
use sp1_lean.Base.Order.{nat_order, text_order}
use sp1_lean.Base.Order.Sorting.{sort_by, sort_down}
use sp1_lean.Base.Results.{Result, raise, ok, ◌>>=◌}
use sp1_lean.Profile.Seconds.{pillar_of}
use sp1_lean.Profile.Cumulative.{ProfileError}
use sp1_lean.Profile.Stats.{sum, Stats, stats}
use sp1_lean.Profile.Summary.{Sweep, read_summary, lake_times}

abbrev pub Times : Type 0
Times = Dict Text ℕ

unfoldable pub number_rows : ℕ → List (Text × ℕ) → List (ℕ × Text × ℕ)
number_rows i [] = []
number_rows i (r ∷ rows) = (i, r.0, r.1) ∷ number_rows (suc i) rows

unfoldable pub ranking_table : List (Text × ℕ) → ℕ → List (ℕ × Text × ℕ)
unfolding number_rows
ranking_table rows top = number_rows 1 (take top rows)

-- `per[pillar_of(module)].append(module)`
unfoldable pub group_modules : Dict Text (List Text) → List Text → Dict Text (List Text)
unfolding pillar_of
group_modules per [] = per
group_modules per (m ∷ ms) =
    group_modules (upsert (pillar_of m) [] (λ names. names ++ (m ∷ [])) per) ms

-- `sum(times[m] for m in modules)`
abbrev pub time_of : Times → Text → ℕ
time_of times m = or_else (lookup m times) 0

unfoldable pub seconds_of : Times → List Text → ℕ
unfolding sum
seconds_of times modules = sum (map (time_of times) modules)

abbrev pub named : Text → Text → Bool
named name key =
    (key == name) || (name == codes "compilation" && starts_with (codes "compilation") key)

-- `cat(name)`; the headline of a module is that of the one module.
unfoldable pub cat : Dict Text Times → List Text → Text → ℕ
unfolding sum
cat categories modules name = sum (
    gather (λ m. map (λ c. c.1) (keep (λ c. named name c.0) (or_else (lookup m categories) [])))
      modules)

abbrev pub pillar_columns : List Text
pillar_columns =
    codes "import"
    ∷ codes "elaboration"
    ∷ codes "simp"
    ∷ codes "tactic execution"
    ∷ codes "type checking"
    ∷ codes "typeclass inference"
    ∷ codes "compilation"
    ∷ codes "linting"
    ∷ []

abbrev pub headline_categories : List Text
headline_categories =
    codes "import"
    ∷ codes "elaboration"
    ∷ codes "simp"
    ∷ codes "tactic execution"
    ∷ codes "type checking"
    ∷ codes "typeclass inference"
    ∷ codes "instantiate metavars"
    ∷ codes "compilation"
    ∷ codes "linting"
    ∷ codes "interpretation"
    ∷ codes "blocked (unaccounted)"
    ∷ []

-- `sum(...) or 1.0`
unfoldable pub whole : List ℕ → ℕ
unfolding sum
whole values = if nat_beq (sum values) 0 then 10 ^ 9 else sum values

pub record Pillar : Type 0 where
  pub pillar : Text
  pub modules : List Text
  pub secs : ℕ
  -- the share is `secs` by this
  pub out_of : ℕ
  pub cells : List ℕ

unfoldable pub pillar_row : Times → Option (Dict Text Times) → Text × List Text → Pillar
unfolding seconds_of cat whole
pillar_row times categories (name, modules) = record {
  pillar = name;
  modules = modules;
  secs = seconds_of times modules;
  out_of = whole (map (λ t. t.1) times);
  cells = elim categories [ none ↦ [] | some cats ↦ map (cat cats modules) pillar_columns ];
}

-- The rows of the table, without its heading.
unfoldable pub pillar_table : Times → Option (Dict Text Times) → List Pillar
unfolding group_modules seconds_of pillar_row
pillar_table times categories =
    map (pillar_row times categories)
      (sort_down (λ g. seconds_of times g.1) (group_modules [] (map (λ t. t.0) times)))

-- `totals[name] += value`
unfoldable pub add_totals : Times → Times → Times
add_totals totals [] = totals
add_totals totals ((name, value) ∷ cats) = add_totals (upsert name 0 (λ t. t + value) totals) cats

unfoldable pub category_totals : Times → Dict Text Times → Times
unfolding add_totals
category_totals totals [] = totals
category_totals totals ((_, cats) ∷ categories) =
    category_totals (add_totals totals cats) categories

-- The categories of 0.05 seconds or more, each with what its share is of.
unfoldable pub totals_table : Times → List (Text × ℕ × ℕ)
unfolding whole
totals_table totals =
    map (λ t. (t.0, t.1, whole (map (λ u. u.1) totals)))
      (keep (λ t. leb 50000000 t.1) (sort_down (λ t. t.1) totals))

unfoldable pub headline_row : Dict Text Times → Text × ℕ → Text × ℕ × List ℕ
unfolding cat
headline_row categories (name, secs) =
    (name, secs, map (cat categories (name ∷ [])) headline_categories)

pub record Entry : Type 0 where
  pub time : Option ℕ
  pub categories : Option Times
  pub exit : Option ℕ
  pub wall : Option ℕ

abbrev pub no_entry : Entry
no_entry = record { time = none; categories = none; exit = none; wall = none }

-- `report["modules"].setdefault(module, {})[...] = value`, for the items of a dict
unfoldable pub set_all {ℓ} :
    {V : Type ℓ} → (V → Entry → Entry) → Dict Text V → Dict Text Entry → Dict Text Entry
set_all set [] entries = entries
set_all set ((m, v) ∷ values) entries = set_all set values (upsert m no_entry (set v) entries)

abbrev pub set_categories : Times → Entry → Entry
set_categories v e = record e { categories = some v }

abbrev pub set_exit : ℕ → Entry → Entry
set_exit v e = record e { exit = some v }

abbrev pub set_wall : ℕ → Entry → Entry
set_wall v e = record e { wall = some v }

-- `report["modules"]`
unfoldable pub entries : Times → Times → Option (Dict Text Times) → Times → Dict Text Entry
unfolding set_all
entries times exits categories walls = set_all set_wall walls (
    set_all set_exit exits (
      set_all set_categories (or_else categories []) (
        map (λ t. (t.0, record { time = some t.1; categories = none; exit = none; wall = none }))
          times)))

pub record Report : Type 0 where
  pub summary : Stats
  pub failures : List Text
  pub ranking : List (ℕ × Text × ℕ)
  pub pillars : List Pillar
  pub totals : List (Text × ℕ × ℕ)
  pub headlines : List (Text × ℕ × List ℕ)
  pub modules : Dict Text Entry

abbrev pub ranked : Times → List (Text × ℕ)
unfolding sort_down
ranked times = sort_down (λ t. t.1) times

unfoldable pub write_report : Times → Times → Option (Dict Text Times) → ℕ → Times → Report
unfolding stats ranking_table pillar_table category_totals totals_table headline_row entries sort_by
write_report times exits categories top walls = record {
  summary = stats (map (λ t. t.1) times);
  failures = sort_by (λ m. m) (map (λ t. t.0) (keep (λ t. not (nat_beq t.1 0)) exits));
  ranking = ranking_table (ranked times) top;
  pillars = pillar_table times categories;
  totals = totals_table (category_totals [] (or_else categories []));
  headlines = elim categories [
    | none ↦ []
    | some cats ↦ map (headline_row cats) (take top (ranked times))
  ];
  modules = entries times exits categories walls;
}

-- None stands for the exit without a report.
unfoldable pub report_built : ℕ → Times → Option Report
unfolding write_report
report_built top [] = none
report_built top (t ∷ times) = some (write_report (t ∷ times) [] none top [])

unfoldable pub run_lake_logs : List Text → ℕ → Result ProfileError (Option Report)
unfolding lake_times report_built
run_lake_logs logs top = lake_times logs >>= λ times. ok (report_built top times)

unfoldable pub run_profile_dir :
    (Text → Option Text) → Option Text → ℕ → Result ProfileError (Option Report)
unfolding read_summary write_report
run_profile_dir logs none top = ok none
run_profile_dir logs (some summary) top = read_summary logs summary >>= λ s.
    ok (some (write_report s.times s.exits (some s.categories) top s.walls))
