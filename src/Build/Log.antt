-- ===== src/Build/Log.antt =====
-- scripts/build_semantics.py: `read_lake_log`, `read_lake_log_events` and `timeline`. Seconds are whole units of 10^-9; the timestamps are those of real dates
-- since 1970.
pub mod Buckets
pub mod Running
use mathlib.Core.List.{foldl}
use sp1_lean.Base.{
  ℕ, zero, suc, ◌+◌, ◌-◌, ◌*◌, ◌/◌, ◌^◌, Bool, true, false, not, ◌&&◌, ◌||◌, Option, none, some,
  List, [], ◌∷◌, ◌++◌, map, Text, String, codes, nat_beq, ltb, leb, nat_eq, list_eq, ◌==◌,
  if◌then◌else◌, or_else, length, choose, keep, replicate, ◌>>=◌,
}
use sp1_lean.Base.Dict.{Dict, insert}
use sp1_lean.Regex.{
  Regex, seq, alt, group, one, lit, plus, times, opt, is_digit, match, captured, Captures,
}
use sp1_lean.Texts.{is_space, search, lines, number_from}
use sp1_lean.Cache.Entry.{ordinal}
use sp1_lean.Profile.Seconds.{float_of}
use sp1_lean.Profile.Stats.{sum}

-- `BUILT_RE`
unfoldable pub built_re : Regex
unfolding lit
built_re = seq (lit (codes "Built ")) (
    seq (group "module" (plus (λ c. not (is_space c)))) (
      seq (lit (codes " (")) (
        seq (group "value" (seq (plus is_digit) (opt (seq (lit (codes ".")) (plus is_digit)))))
          (seq (group "unit" (alt (lit (codes "ms")) (lit (codes "s")))) (lit (codes ")"))))))

unfoldable pub field : String → Captures → Text
unfolding captured
field name c = or_else (captured name c) []

-- The module and the seconds of a line.
unfoldable pub built_line : Text → Option (Text × ℕ)
unfolding search built_re field float_of
built_line line = do
  c ← search built_re line
  v ← float_of (field "value" c)
  some (field "module" c, if field "unit" c == codes "ms" then v / 1000 else v)

unfoldable pub add_lines : Dict Text ℕ → List Text → Dict Text ℕ
unfolding built_line
add_lines secs [] = secs
add_lines secs (l ∷ ls) = elim (built_line l) [
  | none ↦ add_lines secs ls
  | some b ↦ add_lines (insert b.0 b.1 secs) ls
]

unfoldable pub read_lake_log : Text → Dict Text ℕ
unfolding add_lines lines
read_lake_log log = add_lines [] (lines log)

abbrev pub digits_re : String → ℕ → Regex
digits_re name n = group name (times n is_digit)

-- `TS_RE`
unfoldable pub stamp_re : Regex
unfolding lit times
stamp_re = seq (opt (one (nat_beq 65279))) (
    seq (digits_re "year" 4) (
      seq (lit (codes "-")) (
        seq (digits_re "month" 2) (
          seq (lit (codes "-")) (
            seq (digits_re "day" 2) (
              seq (lit (codes "T")) (
                seq (digits_re "hour" 2) (
                  seq (lit (codes ":")) (
                    seq (digits_re "minute" 2) (
                      seq (lit (codes ":")) (
                        seq (digits_re "second" 2) (
                          seq (opt (seq (lit (codes ".")) (plus is_digit)))
                            (seq (lit (codes "Z")) (one is_space))))))))))))))

-- `dt.datetime.fromisoformat(...).timestamp()`
unfoldable pub end_time : Text → Option ℕ
unfolding match stamp_re field number_from ordinal
end_time line = elim (match stamp_re line) [
  | none ↦ none
  | some c ↦
      let number = λ (name : String). number_from 0 (field name c) in
      let days = ordinal (number "year") (number "month") (number "day") - ordinal 1970 1 1 in
      some ((((days * 24 + number "hour") * 60 + number "minute") * 60 + number "second") * 10 ^ 9)
]

abbrev pub Events : Type 0
Events = Dict Text (ℕ × Option ℕ)

unfoldable pub add_events : Events → List Text → Events
unfolding built_line end_time
add_events events [] = events
add_events events (l ∷ ls) = elim (built_line l) [
  | none ↦ add_events events ls
  | some b ↦ add_events (insert b.0 (b.1, end_time l) events) ls
]

unfoldable pub read_lake_log_events : Text → Events
unfolding add_events lines
read_lake_log_events log = add_events [] (lines log)

-- A module with its seconds and its end.
pub record Timed : Type 0 where
  pub name : Text
  pub secs : ℕ
  pub finish : ℕ

abbrev pub timed_of : Text × (ℕ × Option ℕ) → Option Timed
timed_of (m, (s, none)) = none
timed_of (m, (s, some e)) =
    if leb (10 ^ 9) s then some (record { name = m; secs = s; finish = e }) else none

abbrev pub start : Timed → ℕ
start t = t.finish - t.secs

abbrev pub min : ℕ → ℕ → ℕ
min a b = if ltb b a then b else a

abbrev pub max : ℕ → ℕ → ℕ
max a b = if ltb a b then b else a

unfoldable pub first_start : Timed → List Timed → ℕ
first_start t [] = start t
first_start t (u ∷ us) = min (start t) (first_start u us)

unfoldable pub last_finish : Timed → List Timed → ℕ
last_finish t [] = t.finish
last_finish t (u ∷ us) = max t.finish (last_finish u us)

-- A bucket of 60 seconds, and the buckets of a module from its first to its last.
abbrev pub bucket : ℕ
bucket = 60 * 10 ^ 9

abbrev pub low : ℕ → Timed → ℕ
low t0 t = (start t - t0) / bucket

abbrev pub high : ℕ → ℕ → Timed → ℕ
high t0 n t = min ((t.finish - t0) / bucket) (n - 1)

abbrev pub within : ℕ → ℕ → ℕ → Bool
within lo hi i = leb lo i && leb i hi

-- `for b in range(lo, hi + 1): running[b] += 1`, from the bucket i on
unfoldable pub bump : ℕ → ℕ → ℕ → List ℕ → List ℕ
bump lo hi i [] = []
bump lo hi i (r ∷ running) = (if within lo hi i then suc r else r) ∷ bump lo hi (suc i) running

unfoldable pub count_all : ℕ → ℕ → List ℕ → List Timed → List ℕ
unfolding bump
count_all t0 n running [] = running
count_all t0 n running (t ∷ ts) = count_all t0 n (bump (low t0 t) (high t0 n t) 0 running) ts

-- `sum(bucket for r in running if r <= k)`, in seconds
unfoldable pub quiet : ℕ → List ℕ → ℕ
quiet k [] = 0
quiet k (r ∷ running) = (if leb r k then 60 else 0) + quiet k running

-- The seconds in which a module runs alone.
unfoldable pub alone : ℕ → ℕ → ℕ → List ℕ → ℕ
alone lo hi i [] = 0
alone lo hi i (r ∷ running) =
    (if within lo hi i && leb r 1 then 60 else 0) + alone lo hi (suc i) running

unfoldable pub longest_solo : ℕ → ℕ → List ℕ → Text × ℕ → List Timed → Text × ℕ
unfolding alone
longest_solo t0 n running best [] = best
longest_solo t0 n running best (t ∷ ts) =
    let a = alone (low t0 t) (high t0 n t) 0 running in
    longest_solo t0 n running (if ltb best.1 a then (t.name, a) else best) ts

-- The average concurrency is `total` by `span`.
pub record Timeline : Type 0 where
  pub span : ℕ
  pub total : ℕ
  pub peak : ℕ
  pub le1 : ℕ
  pub le2 : ℕ
  pub solo : Text × ℕ
  pub running : List ℕ

unfoldable pub peak_of : List ℕ → ℕ
peak_of [] = 0
peak_of (r ∷ running) = max r (peak_of running)

-- `span` and the number of the buckets
unfoldable pub span_of : Timed → List Timed → ℕ
unfolding first_start last_finish
span_of t ts = max (last_finish t ts - first_start t ts) 1

unfoldable pub buckets_of : Timed → List Timed → ℕ
unfolding first_start last_finish
buckets_of t ts = span_of t ts / bucket + 1

unfoldable pub running_of : Timed → List Timed → List ℕ
unfolding count_all first_start span_of buckets_of
running_of t ts =
    count_all (first_start t ts) (buckets_of t ts) (replicate (buckets_of t ts) 0) (t ∷ ts)

unfoldable pub timeline_of : List Timed → Option Timeline
unfolding running_of quiet longest_solo sum peak_of span_of buckets_of
timeline_of [] = none
timeline_of (t ∷ ts) =
    let running = running_of t ts in
    some (record {
      span = span_of t ts;
      total = sum (map (λ (u : Timed). u.secs) (t ∷ ts));
      peak = peak_of running;
      le1 = quiet 1 running;
      le2 = quiet 2 running;
      solo = longest_solo (first_start t ts) (buckets_of t ts) running ([], 0) (t ∷ ts);
      running = running;
    })

unfoldable pub timeline : Events → Option Timeline
unfolding timeline_of
timeline events = timeline_of (choose timed_of events)
