-- ===== src/Profile/Stats/Bounds.antt =====
-- Where the figures of `stats` lie.
use mathlib.Core.List.Memᴰ
use sp1_lean.Base.{
  ℕ, zero, suc, ◌+◌, ◌-◌, ◌*◌, ◌/◌, ◌≤◌, ◌<◌, ◌≡◌, refl, inl, inr, List, [], ◌∷◌, Memᴰ, Memᴰ-nil,
  sym, arith, length, here, there,
}
use sp1_lean.Base.Order.{nat_order}
use sp1_lean.Base.Order.Sorting.{sort_by-IsSorted, IsSorted, Memᴰ-sort_by}
use sp1_lean.Profile.Stats.{round, rank, at_index, pct, sum, median, Stats, sorted_values, stats}

rank_90 :
    (n : ℕ)
    → 0 < n
    → (rank 9 10 n < n)
      × (20 * rank 9 10 n ≤ 18 * (n - 1) + 10)
      × (18 * (n - 1) ≤ 20 * rank 9 10 n + 10)
unfolding rank round
rank_90 n h = ground arith

rank_95 :
    (n : ℕ)
    → 0 < n
    → (rank 19 20 n < n)
      × (40 * rank 19 20 n ≤ 38 * (n - 1) + 20)
      × (38 * (n - 1) ≤ 40 * rank 19 20 n + 20)
unfolding rank round
rank_95 n h = ground arith

rank_le : (n : ℕ) → 0 < n → rank 9 10 n ≤ rank 19 20 n
unfolding rank round
rank_le n h = ground arith

at_index-mem : (i : ℕ) (xs : List ℕ) → i < length xs → Memᴰ (at_index i xs) xs
at_index-mem i [] h = absurd (omega arith)
at_index-mem zero (x ∷ xs) h = here
at_index-mem (suc i) (x ∷ xs) h = there (at_index-mem i xs (omega arith))

sorted_le : (x a : ℕ) (xs : List ℕ) → IsSorted (λ v. v) (x ∷ xs) → Memᴰ a xs → x ≤ a
sorted_le x a xs s m = ground (arith, s.0 a m)

at_index_le :
    (i j : ℕ) (xs : List ℕ)
    → IsSorted (λ v. v) xs
    → i ≤ j
    → j < length xs
    → at_index i xs ≤ at_index j xs
at_index_le i j [] s h k = absurd (omega arith)
at_index_le zero zero (x ∷ xs) s h k = omega arith
at_index_le zero (suc j) (x ∷ xs) s h k = sorted_le x _ xs s (at_index-mem j xs (omega arith))
at_index_le (suc i) zero (x ∷ xs) s h k = absurd (omega arith)
at_index_le (suc i) (suc j) (x ∷ xs) s h k = at_index_le i j xs s.1 (omega arith) (omega arith)

-- A member stands at some index.
index_of : {a : ℕ} (xs : List ℕ) → Memᴰ a xs → (i : ℕ) × (i < length xs) × (at_index i xs ≡ a)
index_of [] m = absurd (Memᴰ-nil m)
index_of (x ∷ xs) m = elim (Memᴰ.cases_cons m) [
  | inl e ↦ (0, omega arith, sym e)
  | inr t ↦ let (i, h, e) = index_of xs t in (suc i, omega arith, e)
]

positive_length : {a : ℕ} (xs : List ℕ) → Memᴰ a xs → 0 < length xs
positive_length [] m = absurd (Memᴰ-nil m)
positive_length (x ∷ xs) m = omega arith

largest_le :
    (a : ℕ) (xs : List ℕ) → IsSorted (λ v. v) xs → Memᴰ a xs → a ≤ at_index (length xs - 1) xs
largest_le a xs s m =
    let (i, h, e) = index_of xs m in
    let below = at_index_le i (length xs - 1) xs s (omega arith) (omega arith) in omega arith

sum_le : (m : ℕ) (xs : List ℕ) → ((a : ℕ) → Memᴰ a xs → a ≤ m) → sum xs ≤ length xs * m
unfolding sum
sum_le m [] h = omega arith
sum_le m (x ∷ xs) h =
    let first = h x here in let rest = sum_le m xs (λ a i. h a (there i)) in ground arith

median_le : (m : ℕ) (xs : List ℕ) → 0 < length xs → ((a : ℕ) → Memᴰ a xs → a ≤ m) → median xs ≤ m
unfolding median
median_le m xs h k =
    let one = k (at_index (length xs / 2) xs) (at_index-mem (length xs / 2) xs (omega arith)) in
    let two =
      k (at_index (length xs / 2 - 1) xs) (at_index-mem (length xs / 2 - 1) xs (omega arith)) in
    ground arith

-- What `stats` says of values, of which there is one at least: the percentiles and the greatest are among the values, in this order; the
-- greatest bounds all values and the median; the total is at most the count times it; and each percentile stands, in the order of size, at an
-- index that is less than the count and half a place at most from the exact rank.
pub record IsSummary (values : List ℕ) (s : Stats) : Type 0 where
  pub p90-mem : Memᴰ s.p90 values
  pub p95-mem : Memᴰ s.p95 values
  pub largest-mem : Memᴰ s.largest values
  pub p90_le : s.p90 ≤ s.p95
  pub p95_le : s.p95 ≤ s.largest
  pub all_le : (a : ℕ) → Memᴰ a values → a ≤ s.largest
  pub middle_le : s.middle ≤ s.largest
  pub total_le : s.total ≤ s.count * s.largest
  pub p90_rank :
      (i : ℕ) × (at_index i (sorted_values values) ≡ s.p90)
      × (i < length (sorted_values values))
      × (20 * i ≤ 18 * (length (sorted_values values) - 1) + 10)
      × (18 * (length (sorted_values values) - 1) ≤ 20 * i + 10)
  pub p95_rank :
      (i : ℕ) × (at_index i (sorted_values values) ≡ s.p95)
      × (i < length (sorted_values values))
      × (40 * i ≤ 38 * (length (sorted_values values) - 1) + 20)
      × (38 * (length (sorted_values values) - 1) ≤ 40 * i + 20)

-- For one value or more, `stats` returns a summary of them: the percentiles and the greatest value are members, in ascending order, the greatest bounds every value
-- and the median, the total is at most the count times the greatest, and each percentile stands in the sorted values at an index within half a place of its exact rank.
pub stats-IsSummary : (v : ℕ) (vs : List ℕ) → IsSummary (v ∷ vs) (stats (v ∷ vs))
unfolding stats pct
stats-IsSummary v vs =
    let values : List ℕ = v ∷ vs in
    let ordered : List ℕ = sorted_values (v ∷ vs) in
    let n : ℕ = length (sorted_values (v ∷ vs)) in
    let moved = λ (a : ℕ). Memᴰ-sort_by (λ (x : ℕ). x) a (v ∷ vs) in
    let sorted = sort_by-IsSorted (λ (x : ℕ). x) (v ∷ vs) in
    let positive : 0 < length (sorted_values (v ∷ vs)) = positive_length _ ((moved v).1 here) in
    let low = rank_90 n positive in
    let high = rank_95 n positive in
    let above : (a : ℕ)
        → Memᴰ a (v ∷ vs)
        → a ≤ at_index (length (sorted_values (v ∷ vs)) - 1) (sorted_values (v ∷ vs)) =
      λ a m. largest_le a ordered sorted ((moved a).1 m) in
    record {
      p90-mem = (moved _).0 (at_index-mem (rank 9 10 n) ordered low.0);
      p95-mem = (moved _).0 (at_index-mem (rank 19 20 n) ordered high.0);
      largest-mem = (moved _).0 (at_index-mem (n - 1) ordered (omega arith));
      p90_le = at_index_le (rank 9 10 n) (rank 19 20 n) ordered sorted (rank_le n positive) high.0;
      p95_le = at_index_le (rank 19 20 n) (n - 1) ordered sorted (omega arith) (omega arith);
      all_le = above;
      middle_le = median_le _ ordered positive (λ a m. above a ((moved a).0 m));
      total_le = sum_le _ (v ∷ vs) above;
      p90_rank = (rank 9 10 n, refl, low.0, low.1, low.2);
      p95_rank = (rank 19 20 n, refl, high.0, high.1, high.2);
    }
