-- ===== src/Gate.antt =====
-- scripts/ci/check_full_validation.py: `validate`, over the job results that GitHub passes on.
pub mod Accepts
mod Tests
use sp1_lean.Base.{
  Bool, true, false, not, ◌&&◌, ◌||◌, Option, none, some, List, [], ◌∷◌, ◌++◌, map, Text, codes,
  nat_eq, list_eq, option_eq, ◌==◌, contains, keep, all, if◌then◌else◌, ◌>>=◌,
}
use sp1_lean.Base.Dict.{Dict, lookup, has}

-- A job: its "result" and its "outputs", where it has them.
pub record Job : Type 0 where
  pub result : Option Text
  pub outputs : Option (Dict Text Text)

abbrev pub Jobs : Type 0
Jobs = Dict Text Job

abbrev pub required : List Text
required =
    codes "guards"
    ∷ codes "build"
    ∷ codes "export-generate"
    ∷ codes "export-verify"
    ∷ codes "export-rust"
    ∷ []

abbrev pub success : Text
success = codes "success"

-- What `validate` raises, with the values that the message shows.
pub data Verdict : Type 0 where
  incomplete : List Text → Verdict
  failed : Dict Text (Option Text) → Verdict
  core_only : Verdict
  passed : Verdict

abbrev pub names : Jobs → List Text
names jobs = map (λ j. j.0) jobs

unfoldable pub unnamed : Jobs → List Text
unnamed jobs = keep (λ n. not (contains (names jobs) n)) required

unfoldable pub unexpected : Jobs → List Text
unexpected jobs = keep (λ n. not (contains required n)) (names jobs)

-- `set(jobs) ^ REQUIRED`; empty where the two sets are equal
unfoldable pub difference : Jobs → List Text
unfolding unnamed unexpected
difference jobs = unnamed jobs ++ unexpected jobs

unfoldable pub failures : Jobs → Dict Text (Option Text)
failures jobs = map (λ j. (j.0, j.1.result)) (keep (λ j. not (j.1.result == some success)) jobs)

-- `jobs["build"].get("outputs", {}).get("full-build")`
unfoldable pub full_build : Jobs → Option Text
full_build jobs = do
  b ← lookup (codes "build") jobs
  outputs ← b.outputs
  lookup (codes "full-build") outputs

unfoldable pub judge : List Text → Dict Text (Option Text) → Option Text → Verdict
judge (n ∷ ns) fs full = incomplete (n ∷ ns)
judge [] (f ∷ fs) full = failed (f ∷ fs)
judge [] [] full = if full == some (codes "true") then passed else core_only

unfoldable pub validate : Jobs → Verdict
unfolding difference failures full_build judge
validate jobs = judge (difference jobs) (failures jobs) (full_build jobs)
