-- ===== src/Build/Log/Running.antt =====
-- What `timeline` makes of the events of a log.
use mathlib.Core.Option.{some-injective}
use sp1_lean.Base.{
  ℕ, ◌+◌, ◌-◌, ◌*◌, ◌/◌, ◌^◌, ◌≤◌, ◌<◌, ◌≡◌, refl, sym, ◌∙◌, ap, subst, true, ◌&&◌, inl, inr,
  Option, none, some, List, [], ◌∷◌, Text, arith, leb, nat_eq, length, get_elem?, replicate, keep,
  choose, Memᴰ, Memᴰ-nil, Memᴰ-choose, here, Bool-cases, if◌then◌else◌, ◌⊎◌, List-cases,
}
use sp1_lean.Build.Log.{
  Events, Timed, timed_of, start, first_start, last_finish, max, Timeline, peak_of, span_of,
  buckets_of, running_of, timeline_of, timeline,
}
use sp1_lean.Build.Log.Buckets.{
  runs_in, count_in, count_all-get, replicate-get, first_start_le, last_finish_le,
  first_start-reached, last_finish-reached, length-count_all, length-replicate, peak_of_le,
  peak_of-get, quiet-keep,
}

-- A module that a timeline looks at: it has an end, and took a second at least.
pub record IsTimed (events : Events) (t : Timed) : Type 0 where
  pub listed : Memᴰ {A = Text × (ℕ × Option ℕ)} (t.name, (t.secs, some t.finish)) events
  pub long : 10 ^ 9 ≤ t.secs

-- The number of these modules that run in a bucket.
unfoldable pub running_in : ℕ → ℕ → Events → ℕ
running_in t0 i [] = 0
running_in t0 i ((m, (s, none)) ∷ events) = running_in t0 i events
running_in t0 i ((m, (s, some f)) ∷ events) =
    (if leb (10 ^ 9) s && runs_in t0 i (f - s) f then 1 else 0) + running_in t0 i events

-- What a timeline shows: it begins with the earliest start of its modules and ends with their latest end, its buckets of 60 seconds cover that span; a bucket's
-- number is that of the modules that run in it, and every module runs in one; the peak is the largest of the numbers, one at least; and the quiet seconds are those of
-- the buckets with one module at most, or with two at most.
pub record IsTimeline (events : Events) (l : Timeline) : Type 0 where
  pub begin : ℕ
  pub first : (t : Timed) × IsTimed events t × (begin ≡ t.finish - t.secs)
  pub begin_least : (t : Timed) → IsTimed events t → begin ≤ t.finish - t.secs
  pub end : ℕ
  pub last : (t : Timed) × IsTimed events t × (end ≡ t.finish)
  pub end_greatest : (t : Timed) → IsTimed events t → t.finish ≤ end
  pub span : l.span ≡ max (end - begin) 1
  pub size : length l.running ≡ l.span / (60 * 10 ^ 9) + 1
  pub counted :
      (i : ℕ) → i < length l.running → get_elem? l.running i ≡ some (running_in begin i events)
  pub covered :
      (t : Timed)
      → IsTimed events t
      → (i : ℕ) × (i < length l.running) × (runs_in begin i (t.finish - t.secs) t.finish ≡ true)
  pub busy : 1 ≤ l.peak
  pub peak_reached : (i : ℕ) × (get_elem? l.running i ≡ some l.peak)
  pub peak_bound : (i r : ℕ) → get_elem? l.running i ≡ some r → r ≤ l.peak
  pub quiet_one : l.le1 ≡ 60 * length (keep (λ r. leb r 1) l.running)
  pub quiet_two : l.le2 ≡ 60 * length (keep (λ r. leb r 2) l.running)

timed_of-IsTimed :
    (events : Events) (t : Timed) → Memᴰ t (choose timed_of events) → IsTimed events t
timed_of-IsTimed events t m = let (e, i, q) = (Memᴰ-choose timed_of t events).0 m in one e i q
  where
    one : (e : Text × (ℕ × Option ℕ)) → Memᴰ e events → timed_of e ≡ some t → IsTimed events t
    one (n, (s, none)) i q = absurd (cc q)
    one (n, (s, some f)) i q = elim (Bool-cases (leb (10 ^ 9) s)) [
      | inr b ↦ absurd (cc (rw b at q))
      | inl b ↦
          let same = some-injective _ t (rw b at q) in
          subst (IsTimed events) same (record { listed = i; long = ground (arith, b) })
    ]

IsTimed-timed_of :
    (events : Events) (t : Timed) → IsTimed events t → Memᴰ t (choose timed_of events)
IsTimed-timed_of events t p =
    (Memᴰ-choose timed_of t events).1
      ((t.name, (t.secs, some t.finish)), p.listed, rw (known t.secs p.long) refl)
  where
    known : (s : ℕ) → 10 ^ 9 ≤ s → leb (10 ^ 9) s ≡ true
    known s h = ground (arith, h)

count_in-choose :
    (t0 i : ℕ) (events : Events) → count_in t0 i (choose timed_of events) ≡ running_in t0 i events
unfolding count_in running_in choose
count_in-choose t0 i [] = refl
count_in-choose t0 i ((m, (s, none)) ∷ events) = count_in-choose t0 i events
count_in-choose t0 i ((m, (s, some f)) ∷ events) =
    let rest = count_in-choose t0 i events in
    elim (Bool-cases (leb (10 ^ 9) s)) [
      | inl b ↦ rw (b, choose) (ap (λ n. (if runs_in t0 i (f - s) f then 1 else 0) + n) rest)
      | inr b ↦ rw (b, choose) (omega (arith, rest))
    ]

module _ (t : Timed) (ts : List Timed) where
  abbrev t0 : ℕ
  t0 = first_start t ts

  length-running : length (running_of t ts) ≡ buckets_of t ts
  unfolding running_of
  length-running =
      length-count_all t0 (buckets_of t ts) (replicate (buckets_of t ts) 0) (t ∷ ts)
      ∙ length-replicate (buckets_of t ts)

  running-get :
      (i : ℕ) → i < buckets_of t ts → get_elem? (running_of t ts) i ≡ some (count_in t0 i (t ∷ ts))
  unfolding running_of
  running-get i h =
      count_all-get t0 (buckets_of t ts) i (replicate (buckets_of t ts) 0) (t ∷ ts) h
        (λ u m. first_start_le t u ts m) (replicate-get (buckets_of t ts) i h)
      ∙ ap some (omega arith)

  -- The bucket of a module's start.
  start_bucket :
      (u : Timed)
      → Memᴰ u (t ∷ ts)
      → (i : ℕ) × (i < buckets_of t ts) × (runs_in t0 i (u.finish - u.secs) u.finish ≡ true)
  unfolding buckets_of span_of
  start_bucket u m =
      let lower = first_start_le t u ts m in
      let upper = last_finish_le t u ts m in
      (
        (start u - t0) / (60 * 10 ^ 9),
        before t0 (start u) u.finish (last_finish t ts) lower (omega arith) upper,
        runs t0 (start u) u.finish lower (omega arith),
      )
    where
      before :
          (b s f e : ℕ)
          → b ≤ s
          → s ≤ f
          → f ≤ e
          → (s - b) / (60 * 10 ^ 9) < max (e - b) 1 / (60 * 10 ^ 9) + 1
      before b s f e h k j = ground arith

      runs : (b s f : ℕ) → b ≤ s → s ≤ f → runs_in b ((s - b) / (60 * 10 ^ 9)) s f ≡ true
      runs b s f h k = ground arith

  running_cons : (x : ℕ) × (rest : List ℕ) × (running_of t ts ≡ x ∷ rest)
  unfolding buckets_of
  running_cons = nonempty (running_of t ts) (omega (arith, length-running))
    where
      nonempty : (xs : List ℕ) → 1 ≤ length xs → (x : ℕ) × (rest : List ℕ) × (xs ≡ x ∷ rest)
      nonempty [] h = absurd (omega (arith, h))
      nonempty (x ∷ xs) h = (x, xs, refl)

  peak_reached_lem : (i : ℕ) × (get_elem? (running_of t ts) i ≡ some (peak_of (running_of t ts)))
  peak_reached_lem =
      let (x, rest, e) = running_cons in
      subst (λ xs. (i : ℕ) × (get_elem? xs i ≡ some (peak_of xs))) (sym e) (peak_of-get x rest)

  -- The timeline of events of which these modules are the ones with an end and a second at least.
  module _ (events : Events) (chosen : choose timed_of events ≡ t ∷ ts) where
    listed : (u : Timed) → Memᴰ u (t ∷ ts) → IsTimed events u
    listed u m = timed_of-IsTimed events u (subst (Memᴰ u) (sym chosen) m)

    among : (u : Timed) → IsTimed events u → Memᴰ u (t ∷ ts)
    among u p = subst (Memᴰ u) chosen (IsTimed-timed_of events u p)

    counted_lem :
        (i : ℕ)
        → i < length (running_of t ts)
        → get_elem? (running_of t ts) i ≡ some (running_in t0 i events)
    counted_lem i h =
        running-get i (omega (arith, length-running, h))
        ∙ ap some (ap (count_in t0 i) (sym chosen) ∙ count_in-choose t0 i events)

    covered_lem :
        (u : Timed)
        → IsTimed events u
        → (i : ℕ) × (i < length (running_of t ts))
          × (runs_in t0 i (u.finish - u.secs) u.finish ≡ true)
    covered_lem u p =
        let (i, h, r) = start_bucket u (among u p) in (i, omega (arith, length-running, h), r)

    -- The count of the bucket in which a module starts is one at least.
    busy_lem : 1 ≤ peak_of (running_of t ts)
    busy_lem =
        let (i, h, r) = start_bucket t here in
        let top = peak_of_le i (running_of t ts) (running-get i h) in
        let one : 1 ≤ count_in t0 i (t ∷ ts) = unfold count_in in rw r (omega arith) in
        omega (arith, top, one)

    timeline_of-IsTimeline : (l : Timeline) → timeline_of (t ∷ ts) ≡ some l → IsTimeline events l
    unfolding timeline_of span_of
    timeline_of-IsTimeline l e =
        let (u, i, q) = first_start-reached t ts in
        let (v, j, r) = last_finish-reached t ts in
        subst (IsTimeline events) (some-injective _ l e) (record {
          begin = t0;
          first = (u, listed u i, q);
          begin_least = λ x p. first_start_le t x ts (among x p);
          end = last_finish t ts;
          last = (v, listed v j, r);
          end_greatest = λ x p. last_finish_le t x ts (among x p);
          span = refl;
          size = unfold buckets_of in length-running;
          counted = counted_lem;
          covered = covered_lem;
          busy = busy_lem;
          peak_reached = peak_reached_lem;
          peak_bound = λ x r q. peak_of_le x (running_of t ts) q;
          quiet_one = quiet-keep 1 (running_of t ts);
          quiet_two = quiet-keep 2 (running_of t ts);
        })

timeline_of-none : (ts : List Timed) → timeline_of ts ≡ none → ts ≡ []
unfolding timeline_of
timeline_of-none [] e = refl
timeline_of-none (t ∷ ts) e = absurd (cc e)

-- Of the events of a log, `timeline` returns None only if no module has an end and took a second at least; otherwise it begins with the earliest start of these modules and ends with the
-- latest end, and counts each of them in every bucket of 60 seconds in which it runs and in no other; its peak is the largest count, one at least, and its quiet seconds are those of the buckets with
-- one module at most, and with two at most.
pub timeline-IsTimeline :
    (events : Events)
    → (timeline events ≡ none → (t : Timed) → ¬ IsTimed events t)
      × ((l : Timeline) → timeline events ≡ some l → IsTimeline events l)
unfolding timeline
timeline-IsTimeline events = (
  λ e t p.
      Memᴰ-nil (
        subst (Memᴰ t) (timeline_of-none (choose timed_of events) e) (IsTimed-timed_of events t p)),
  λ l e. some_timeline (List-cases (choose timed_of events)) l e,
)
  where
    nothing : {l : Timeline} → ¬ (timeline_of [] ≡ some l)
    nothing e = unfold timeline_of in cc e

    some_timeline :
        ((choose timed_of events ≡ [])
          ⊎ ((t : Timed) × (ts : List Timed) × (choose timed_of events ≡ t ∷ ts)))
        → (l : Timeline) → timeline_of (choose timed_of events) ≡ some l
        → IsTimeline events l
    some_timeline (inl q) l e = absurd (nothing (subst (λ x. timeline_of x ≡ some l) q e))
    some_timeline (inr (t, ts, q)) l e =
        timeline_of-IsTimeline t ts events q l (subst (λ x. timeline_of x ≡ some l) q e)
