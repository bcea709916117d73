-- ===== src/Cache/Sweep/Steps.antt =====
-- The restriction of a plan to a ref, and what its deletions leave of a listing.
use sp1_lean.Base.{
  ℕ, ◌+◌, ◌≤◌, ◌≡◌, ◌≢◌, ◌↔◌, sym, ap, ◌∙◌, Bool, true, not, inl, inr, Option, none, some, List, [],
  ◌∷◌, map, Text, arith, nat_beq, nat_eq, list_eq, ◌==◌, eq_iff, keep, Memᴰ, Memᴰ-nil, Memᴰ-cons,
  Memᴰ-keep, here, there, Bool-cases,
}
use sp1_lean.Base.Order.Sorting.{Apart}
use sp1_lean.Cache.Entry.{Entry}
use sp1_lean.Cache.Gc.{Condemned}
use sp1_lean.Cache.Sweep.{restrict, total_size, delete, delete_all}

pub Memᴰ-delete :
    (i : ℕ) (e : Entry) (es : List Entry) → Memᴰ e (delete i es) ↔ (Memᴰ e es × (e.id ≢ i))
unfolding delete
Memᴰ-delete i e es =
    ground (arith, Memᴰ-keep (λ (x : Entry). not (nat_beq x.id i)) e es, eq_iff e.id i)

pub delete_all-mem :
    (fails : ℕ → Bool) (ds : List Condemned) (es : List Entry) (e : Entry)
    → Memᴰ e (delete_all fails ds es).0
    → Memᴰ e es
unfolding delete_all
delete_all-mem fails [] es e m = m
delete_all-mem fails (d ∷ ds) es e m = elim (Bool-cases (fails d.0.id)) [
  | inl f ↦ rw f at m
  | inr f ↦
      ((Memᴰ-delete d.0.id e es).0 (delete_all-mem fails ds (delete d.0.id es) e (rw f at m))).0
]

pub delete_all_keeps :
    (fails : ℕ → Bool) (ds : List Condemned) (es : List Entry) (e : Entry)
    → Memᴰ e es
    → ((d : Condemned) → Memᴰ d ds → e.id ≢ d.0.id)
    → Memᴰ e (delete_all fails ds es).0
unfolding delete_all
delete_all_keeps fails [] es e m h = m
delete_all_keeps fails (d ∷ ds) es e m h = elim (Bool-cases (fails d.0.id)) [
  | inl f ↦ rw (f, delete_all) m
  | inr f ↦
      rw (f, delete_all)
        (delete_all_keeps fails ds (delete d.0.id es) e ((Memᴰ-delete d.0.id e es).1 (m, h d here))
          (λ x i. h x (there i)))
]

pub delete_all_takes :
    (fails : ℕ → Bool) (ds : List Condemned) (es : List Entry)
    → (delete_all fails ds es).1 ≡ true
    → (d : Condemned) (e : Entry) → Memᴰ d ds
    → Memᴰ e (delete_all fails ds es).0
    → e.id ≢ d.0.id
unfolding delete_all
delete_all_takes fails [] es h d e i m = absurd (Memᴰ-nil i)
delete_all_takes fails (x ∷ ds) es h d e i m = elim (Bool-cases (fails x.0.id)) [
  | inl f ↦ absurd (cc (rw f at h))
  | inr f ↦ elim ((Memᴰ-cons d x ds).0 i) [
    | inl q ↦ λ same.
        ((Memᴰ-delete x.0.id e es).0 (delete_all-mem fails ds (delete x.0.id es) e (rw f at m))).1
          (same ∙ ap (λ (c : Condemned). c.0.id) q)
    | inr j ↦ delete_all_takes fails ds (delete x.0.id es) (rw f at h) d e j (rw f at m)
  ]
]

pub restrict-mem :
    (only : Option Text) (ds : List Condemned) (d : Condemned)
    → Memᴰ d (restrict only ds)
    → Memᴰ d ds
unfolding restrict
restrict-mem none ds d m = m
restrict-mem (some ref) ds d m = elim (Bool-cases (ref == [])) [
  | inl q ↦ rw q at m
  | inr q ↦ ((Memᴰ-keep (λ (x : Condemned). x.0.ref == ref) d ds).0 (rw q at m)).0
]

pub restrict-ref :
    (ref : Text) (ds : List Condemned) (d : Condemned)
    → ref ≢ []
    → Memᴰ d (restrict (some ref) ds)
    → d.0.ref ≡ ref
unfolding restrict
restrict-ref ref ds d h m = elim (Bool-cases (ref == [])) [
  | inl q ↦ absurd (h ((eq_iff ref []).0 q))
  | inr q ↦
      (eq_iff d.0.ref ref).0 ((Memᴰ-keep (λ (x : Condemned). x.0.ref == ref) d ds).0 (rw q at m)).1
]

pub keep-Apart {ℓ κ} :
    {A : Type ℓ} (R : A → A → Type κ) (p : A → Bool) (xs : List A)
    → Apart R xs
    → Apart R (keep p xs)
unfolding keep
keep-Apart R p [] h = tt
keep-Apart R p (x ∷ xs) h = elim (Bool-cases (p x)) [
  | inl q ↦ rw q (λ a m. h.0 a ((Memᴰ-keep p a xs).0 m).0, keep-Apart R p xs h.1)
  | inr q ↦ rw q (keep-Apart R p xs h.1)
]

pub restrict-Apart :
    (only : Option Text) (ds : List Condemned)
    → Apart (λ (c d : Condemned). d.0.id ≢ c.0.id) ds
    → Apart (λ (c d : Condemned). d.0.id ≢ c.0.id) (restrict only ds)
unfolding restrict
restrict-Apart none ds h = h
restrict-Apart (some ref) ds h = elim (Bool-cases (ref == [])) [
  | inl q ↦ rw q h
  | inr q ↦
      rw q
        (keep-Apart (λ (c d : Condemned). d.0.id ≢ c.0.id) (λ (x : Condemned). x.0.ref == ref) ds h)
]

delete-total_le : (i : ℕ) (es : List Entry) → total_size (delete i es) ≤ total_size es
unfolding total_size delete keep
delete-total_le i [] = omega arith
delete-total_le i (x ∷ es) =
    let rest = delete-total_le i es in
    elim (Bool-cases (nat_beq x.id i)) [
      | inl q ↦ rw q (omega (arith, rest))
      | inr q ↦ rw q (omega (arith, rest))
    ]

-- Entries of a listing, no two with one id, are not larger than the listing.
pub delete-total_size :
    (e : Entry) (es : List Entry)
    → Memᴰ e es
    → e.size_in_bytes + total_size (delete e.id es) ≤ total_size es
unfolding total_size delete keep
delete-total_size e [] m = absurd (Memᴰ-nil m)
delete-total_size e (x ∷ es) m = elim (Bool-cases (nat_beq x.id e.id)) [
  | inl q ↦ elim ((Memᴰ-cons e x es).0 m) [
    | inl same ↦
        let rest = delete-total_le e.id es in
        let size : e.size_in_bytes ≡ x.size_in_bytes = ap (λ (y : Entry). y.size_in_bytes) same in
        rw q (omega (arith, rest, size))
    | inr i ↦ let rest = delete-total_size e es i in rw q (omega (arith, rest))
  ]
  | inr q ↦ elim ((Memᴰ-cons e x es).0 m) [
    | inl same ↦ absurd (cc (q, (eq_iff x.id e.id).1 (ap (λ (y : Entry). y.id) (sym same))))
    | inr i ↦ let rest = delete-total_size e es i in rw q (omega (arith, rest))
  ]
]

pub total_size-le :
    (ds : List Condemned) (es : List Entry)
    → Apart (λ (c d : Condemned). d.0.id ≢ c.0.id) ds
    → ((d : Condemned) → Memᴰ d ds → Memᴰ d.0 es)
    → total_size (map (λ (d : Condemned). d.0) ds) ≤ total_size es
unfolding total_size
total_size-le [] es h g = omega arith
total_size-le (d ∷ ds) es h g =
    let rest =
      total_size-le ds (delete d.0.id es) h.1
        (λ x i. (Memᴰ-delete d.0.id x.0 es).1 (g x (there i), h.0 x i)) in
    let one = delete-total_size d.0 es (g d here) in omega (arith, rest, one)
