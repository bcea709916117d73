-- ===== src/Gate/Tests.antt =====
-- Job graphs, complete and not.
use mathlib.Core.Logic.{◌↔◌}
use sp1_lean.Base.{
  ◌≡◌, ◌≢◌, ◌⊎◌, refl, Option, none, some, List, [], ◌∷◌, Memᴰ, Text, codes, nat_eq, list_eq,
}
use sp1_lean.Base.Dict.{Dict}
use sp1_lean.Gate.{Job, Jobs, required, success, passed, incomplete, failed, names, validate}
use sp1_lean.Gate.Accepts.{IsFull, validate_passed, validate_incomplete}

abbrev job : Text → Job
job result = record { result = some result; outputs = none }

abbrev full_job : Job
full_job = record {
  result = some success;
  outputs = some ((codes "full-build", codes "true") ∷ []);
}

abbrev rest : Text → Jobs
rest result =
    (codes "guards", job success)
    ∷ (codes "export-generate", job success)
    ∷ (codes "export-verify", job success)
    ∷ (codes "export-rust", job result)
    ∷ []

abbrev full_jobs : Jobs
full_jobs = (codes "build", full_job) ∷ rest success

validate_passed_example : (validate full_jobs ≡ passed) ↔ IsFull full_jobs
validate_passed_example = validate_passed full_jobs

full_jobs-passed : validate full_jobs ≡ passed
unfolding validate sp1_lean.Base.keep sp1_lean.Base.contains sp1_lean.Base.list_beq
    sp1_lean.Base.option_beq sp1_lean.Base.Dict.lookup
full_jobs-passed = refl

rest-incomplete : validate (rest success) ≡ incomplete (codes "build" ∷ [])
unfolding validate sp1_lean.Base.keep sp1_lean.Base.contains sp1_lean.Base.list_beq
rest-incomplete = refl

validate_incomplete_example : Memᴰ (codes "build") (codes "build" ∷ []) ↔ (
    (Memᴰ (codes "build") required × (¬ Memᴰ (codes "build") (names (rest success))))
    ⊎ (Memᴰ (codes "build") (names (rest success)) × (¬ Memᴰ (codes "build") required)))
validate_incomplete_example =
    validate_incomplete (rest success) (codes "build" ∷ []) rest-incomplete (codes "build")

abbrev cancelled_jobs : Jobs
cancelled_jobs = (codes "build", full_job) ∷ rest (codes "cancelled")

cancelled-failed :
    validate cancelled_jobs ≡ failed ((codes "export-rust", some (codes "cancelled")) ∷ [])
unfolding validate sp1_lean.Base.keep sp1_lean.Base.contains sp1_lean.Base.list_beq
    sp1_lean.Base.option_beq
cancelled-failed = refl
