-- ===== src/Profile/Stats.antt =====
-- scripts/profile_aggregate.py: `stats`. A quotient is cut to a whole number of units; the percentiles' ranks are computed exactly.
pub mod Bounds
use sp1_lean.Base.{
  ℕ, zero, suc, ◌+◌, ◌-◌, ◌*◌, ◌/◌, ◌%◌, Bool, true, false, Option, none, some, List, [], ◌∷◌, ltb,
  nat_beq, if◌then◌else◌, length, get_elem?, or_else,
}
use sp1_lean.Base.Order.{nat_order}
use sp1_lean.Base.Order.Sorting.{sort_by}

-- `round(n / d)`: to the nearest, and from the middle to the even one
unfoldable pub round : ℕ → ℕ → ℕ
round n d =
    let whole = n / d in
    let twice = 2 * (n % d) in
    if ltb twice d then whole else if ltb d twice then suc whole else whole + whole % 2

abbrev pub min : ℕ → ℕ → ℕ
min a b = if ltb b a then b else a

-- The index that `pct` takes for the percentile p / q of n values.
unfoldable pub rank : ℕ → ℕ → ℕ → ℕ
unfolding round
rank p q n = min (n - 1) (round (p * (n - 1)) q)

abbrev pub at_index : ℕ → List ℕ → ℕ
at_index i values = or_else (get_elem? values i) 0

unfoldable pub pct : ℕ → ℕ → List ℕ → ℕ
unfolding rank
pct p q ordered = at_index (rank p q (length ordered)) ordered

unfoldable pub sum : List ℕ → ℕ
sum [] = 0
sum (v ∷ vs) = v + sum vs

-- `statistics.median`, of sorted values
unfoldable pub median : List ℕ → ℕ
median ordered =
    let half = length ordered / 2 in
    if nat_beq (length ordered % 2) 1
    then at_index half ordered
    else (at_index (half - 1) ordered + at_index half ordered) / 2

pub record Stats : Type 0 where
  pub count : ℕ
  pub total : ℕ
  pub mean : ℕ
  pub middle : ℕ
  pub p90 : ℕ
  pub p95 : ℕ
  pub largest : ℕ

abbrev pub sorted_values : List ℕ → List ℕ
unfolding sort_by
sorted_values = sort_by (λ v. v)

unfoldable pub stats : List ℕ → Stats
unfolding sum median pct sort_by
stats [] = record { count = 0; total = 0; mean = 0; middle = 0; p90 = 0; p95 = 0; largest = 0 }
stats (v ∷ vs) =
    let ordered = sorted_values (v ∷ vs) in
    record {
      count = length (v ∷ vs);
      total = sum (v ∷ vs);
      mean = sum (v ∷ vs) / length (v ∷ vs);
      middle = median ordered;
      p90 = pct 9 10 ordered;
      p95 = pct 19 20 ordered;
      largest = at_index (length ordered - 1) ordered;
    }
