-- ===== src/Build/Log/Buckets.antt =====
-- How a timeline counts the modules of its buckets, and where it begins and ends.
use mathlib.Core.List.Memᴰ
use mathlib.Core.Option.{some-injective}
use sp1_lean.Base.{
  ℕ, zero, suc, ◌+◌, ◌-◌, ◌*◌, ◌/◌, ◌^◌, ◌≤◌, ◌<◌, ◌≡◌, ◌↔◌, refl, sym, ◌∙◌, ap, subst, Bool, ◌&&◌,
  inl, inr, some, List, [], ◌∷◌, arith, ltb, leb, nat_eq, length, get_elem?, replicate, keep, Memᴰ,
  here, there, Bool-cases, if◌then◌else◌,
}
use sp1_lean.Build.Log.{
  Timed, start, first_start, last_finish, low, high, within, bump, count_all, quiet, peak_of,
}

-- Whether a module with this start and this end runs in a bucket of 60 seconds: it starts before the bucket's end, and does not end before the bucket's start.
abbrev pub runs_in : ℕ → ℕ → ℕ → ℕ → Bool
runs_in t0 i s f = ltb s (t0 + (i + 1) * (60 * 10 ^ 9)) && leb (t0 + i * (60 * 10 ^ 9)) f

-- The number of the modules that run in a bucket.
unfoldable pub count_in : ℕ → ℕ → List Timed → ℕ
count_in t0 i [] = 0
count_in t0 i (t ∷ ts) =
    (if runs_in t0 i (t.finish - t.secs) t.finish then 1 else 0) + count_in t0 i ts

edges :
    (t0 s f i : ℕ)
    → t0 ≤ s
    → s ≤ f
    → (((s - t0) / (60 * 10 ^ 9) ≤ i) ↔ (s < t0 + (i + 1) * (60 * 10 ^ 9)))
      × ((i ≤ (f - t0) / (60 * 10 ^ 9)) ↔ (t0 + i * (60 * 10 ^ 9) ≤ f))
edges t0 s f i h k = ((λ x. omega arith, λ x. omega arith), (λ x. omega arith, λ x. omega arith))

within-runs_in :
    (t0 n i : ℕ) (t : Timed)
    → t0 ≤ start t
    → i < n
    → within (low t0 t) (high t0 n t) i ≡ runs_in t0 i (start t) t.finish
within-runs_in t0 n i t h k = ground (arith, edges t0 (start t) t.finish i h (omega arith))

bump-get :
    (lo hi first i : ℕ) (running : List ℕ) {r : ℕ}
    → get_elem? running i ≡ some r
    → get_elem? (bump lo hi first running) i ≡ some (if within lo hi (first + i) then suc r else r)
unfolding bump
bump-get lo hi first i [] e = absurd (cc e)
bump-get lo hi first zero (x ∷ running) {r} e = ap some (ground (arith, some-injective x r e))
bump-get lo hi first (suc i) (x ∷ running) {r} e =
    subst
      (λ k.
        get_elem? (bump lo hi (suc first) running) i ≡ some (if within lo hi k then suc r else r))
      (omega arith) (bump-get lo hi (suc first) i running e)

pub replicate-get : (n i : ℕ) → i < n → get_elem? (replicate {A = ℕ} n 0) i ≡ some 0
replicate-get zero i h = absurd (omega arith)
replicate-get (suc n) zero h = refl
replicate-get (suc n) (suc i) h = replicate-get n i (omega arith)

pub first_start_le : (t u : Timed) (ts : List Timed) → Memᴰ u (t ∷ ts) → first_start t ts ≤ start u
unfolding first_start
first_start_le t u [] m =
    subst (λ x. first_start t [] ≤ start x) (sym (Memᴰ.eq_of_singleton m)) (omega arith)
first_start_le t u (v ∷ ts) m = elim (Memᴰ.cases_cons m) [
  | inl e ↦ subst (λ x. first_start t (v ∷ ts) ≤ start x) (sym e) (ground arith)
  | inr k ↦ let below = first_start_le v u ts k in ground (arith, below)
]

pub last_finish_le : (t u : Timed) (ts : List Timed) → Memᴰ u (t ∷ ts) → u.finish ≤ last_finish t ts
unfolding last_finish
last_finish_le t u [] m =
    subst (λ x. x.finish ≤ last_finish t []) (sym (Memᴰ.eq_of_singleton m)) (omega arith)
last_finish_le t u (v ∷ ts) m = elim (Memᴰ.cases_cons m) [
  | inl e ↦ subst (λ x. x.finish ≤ last_finish t (v ∷ ts)) (sym e) (ground arith)
  | inr k ↦ let below = last_finish_le v u ts k in ground (arith, below)
]

pub count_all-get :
    (t0 n i : ℕ) (running : List ℕ) (ts : List Timed) {r : ℕ}
    → i < n
    → ((u : Timed) → Memᴰ u ts → t0 ≤ start u)
    → get_elem? running i ≡ some r
    → get_elem? (count_all t0 n running ts) i ≡ some (r + count_in t0 i ts)
unfolding count_all count_in
count_all-get t0 n i running [] {r} k h e = e ∙ ap some (omega arith)
count_all-get t0 n i running (t ∷ ts) {r} k h e =
    count_all-get t0 n i (bump (low t0 t) (high t0 n t) 0 running) ts k (λ u m. h u (there m))
      (bump-get (low t0 t) (high t0 n t) 0 i running e)
    ∙ ap some (ground (arith, within-runs_in t0 n i t (h t here) k))

length-bump : (lo hi i : ℕ) (running : List ℕ) → length (bump lo hi i running) ≡ length running
unfolding bump
length-bump lo hi i [] = refl
length-bump lo hi i (r ∷ running) = ap suc (length-bump lo hi (suc i) running)

pub length-count_all :
    (t0 n : ℕ) (running : List ℕ) (ts : List Timed)
    → length (count_all t0 n running ts) ≡ length running
unfolding count_all
length-count_all t0 n running [] = refl
length-count_all t0 n running (t ∷ ts) =
    length-count_all t0 n (bump (low t0 t) (high t0 n t) 0 running) ts
    ∙ length-bump (low t0 t) (high t0 n t) 0 running

pub length-replicate : (n : ℕ) → length (replicate {A = ℕ} n 0) ≡ n
length-replicate zero = refl
length-replicate (suc n) = ap suc (length-replicate n)

pub peak_of_le :
    (i : ℕ) (running : List ℕ) {r : ℕ} → get_elem? running i ≡ some r → r ≤ peak_of running
unfolding peak_of
peak_of_le i [] e = absurd (cc e)
peak_of_le zero (x ∷ running) e = ground (arith, some-injective x _ e)
peak_of_le (suc i) (x ∷ running) e = let below = peak_of_le i running e in ground (arith, below)

pub peak_of-get :
    (x : ℕ) (running : List ℕ)
    → (i : ℕ) × (get_elem? (x ∷ running) i ≡ some (peak_of (x ∷ running)))
unfolding peak_of
peak_of-get x [] = (0, ap some (ground arith))
peak_of-get x (y ∷ running) =
    let (i, e) = peak_of-get y running in
    elim (Bool-cases (ltb x (peak_of (y ∷ running)))) [
      | inl q ↦ (suc i, rw q e)
      | inr q ↦ (0, rw q refl)
    ]

pub quiet-keep :
    (k : ℕ) (running : List ℕ) → quiet k running ≡ 60 * length (keep (λ r. leb r k) running)
unfolding quiet keep
quiet-keep k [] = omega arith
quiet-keep k (r ∷ running) =
    let rest = quiet-keep k running in
    elim (Bool-cases (leb r k)) [
      | inl q ↦ rw q (omega (arith, rest))
      | inr q ↦ rw q (omega (arith, rest))
    ]

-- The earliest start and the latest end are those of some modules.
pub first_start-reached :
    (t : Timed) (ts : List Timed) → (u : Timed) × Memᴰ u (t ∷ ts) × (first_start t ts ≡ start u)
unfolding first_start
first_start-reached t [] = (t, here, refl)
first_start-reached t (v ∷ ts) =
    let (u, m, e) = first_start-reached v ts in
    elim (Bool-cases (ltb (first_start v ts) (start t))) [
      | inl q ↦ (u, there m, rw q e)
      | inr q ↦ (t, here, rw q refl)
    ]

pub last_finish-reached :
    (t : Timed) (ts : List Timed) → (u : Timed) × Memᴰ u (t ∷ ts) × (last_finish t ts ≡ u.finish)
unfolding last_finish
last_finish-reached t [] = (t, here, refl)
last_finish-reached t (v ∷ ts) =
    let (u, m, e) = last_finish-reached v ts in
    elim (Bool-cases (ltb t.finish (last_finish v ts))) [
      | inl q ↦ (u, there m, rw q e)
      | inr q ↦ (t, here, rw q refl)
    ]
