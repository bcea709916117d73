-- ===== src/Profile/Summary/Latest.antt =====
-- What the reading of `lake` logs keeps of a module that is reported several times.
use sp1_lean.Base.{
  ℕ, ◌≡◌, refl, sym, ◌∙◌, ap, inl, inr, Option, none, some, List, [], ◌∷◌, Text, nat_eq, list_eq,
  choose, gather, Option-cases,
}
use sp1_lean.Base.Dict.{Dict, lookup, insert}
use sp1_lean.Base.Results.{ok, raise-not-ok, ok-injective, >>=-ok}
use sp1_lean.Regex.{Captures}
use sp1_lean.Texts.{find_all}
use sp1_lean.Profile.Cumulative.{bad_number}
use sp1_lean.Profile.Summary.{built_re, built, add_built, add_logs, lake_times}
use sp1_lean.Base.Items.{
  prefer, latest, prefer_assoc, prefer-none, latest-append, choose-some, prefer-insert,
}

-- The module and the time of a match.
unfoldable pub report : Captures → Option (Text × ℕ)
unfolding built
report c = elim (built c).1 [ none ↦ none | some n ↦ some ((built c).0, n) ]

unfoldable pub reports : Text → List (Text × ℕ)
unfolding report find_all built_re
reports log = choose report (find_all built_re log)

add_built-latest :
    (k : Text) (times result : Dict Text ℕ) (cs : List Captures)
    → add_built times cs ≡ ok result
    → lookup k result ≡ prefer (latest k (choose report cs)) (lookup k times)
unfolding add_built report latest choose
add_built-latest k times result [] e = ap (lookup k) (sym (ok-injective times result e))
add_built-latest k times result (c ∷ cs) e = elim (Option-cases (built c).1) [
  | inl q ↦ absurd (raise-not-ok bad_number result (rw (q, add_built) at e))
  | inr (n, q) ↦
      let later =
        add_built-latest k (insert (built c).0 n times) result cs (rw (q, add_built) at e) in
      let known : report c ≡ some ((built c).0, n) = rw (q, report) refl in
      later
      ∙ (prefer-insert k (built c).0 n times (choose report cs)
          ∙ ap (λ l. prefer (latest k l) (lookup k times)) (sym (choose-some report c cs known)))
]

add_logs-latest :
    (k : Text) (times result : Dict Text ℕ) (logs : List Text)
    → add_logs times logs ≡ ok result
    → lookup k result ≡ prefer (latest k (gather reports logs)) (lookup k times)
unfolding add_logs reports gather latest
add_logs-latest k times result [] e = ap (lookup k) (sym (ok-injective times result e))
add_logs-latest k times result (log ∷ logs) e =
    let (t, q, e1) =
      >>=-ok (add_built times (find_all built_re log)) (λ x. add_logs x logs) result e in
    let first : lookup k t ≡ prefer (latest k (reports log)) (lookup k times) =
      add_built-latest k times t (find_all built_re log) q in
    add_logs-latest k t result logs e1
    ∙ (ap (prefer (latest k (gather reports logs))) first
        ∙ (sym (
              prefer_assoc (latest k (gather reports logs)) (latest k (reports log))
                (lookup k times))
            ∙ ap (λ l. prefer l (lookup k times))
                (sym (latest-append k (reports log) (gather reports logs)))))

-- If `run_lake_logs` can read the times of its logs, each module has the time of its last `Built` line, in the order of the logs and of the lines
-- in them, and a module without such a line has none.
pub lake_times-latest :
    (k : Text) (logs : List Text) (times : Dict Text ℕ)
    → lake_times logs ≡ ok times
    → lookup k times ≡ latest k (gather reports logs)
unfolding lake_times lookup
lake_times-latest k logs times e =
    add_logs-latest k [] times logs e ∙ prefer-none (latest k (gather reports logs))
