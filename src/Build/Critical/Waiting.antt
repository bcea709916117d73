-- ===== src/Build/Critical/Waiting.antt =====
-- What waits on the stack of `critical_path`: whatever a module there needs is done or further up.
use mathlib.Core.List.Memᴰ
use mathlib.Core.Logic.{⊎_elim}
use sp1_lean.Base.{
  ℕ, ◌≡◌, sym, subst, true, false, not, ◌&&◌, ◌⊎◌, inl, inr, List, [], ◌∷◌, Text, arith, nat_eq,
  list_eq, contains, contains_iff, Memᴰ, Memᴰ-nil, there, Bool-cases,
}
use sp1_lean.Base.Dict.{Dict, has}
use sp1_lean.Build.Critical.{Item, imports_of, push_imports}

abbrev pub Either : Text → List Text → List Text → Type 0
Either x done above = Memᴰ x done ⊎ Memᴰ x above

module _ (imports : Dict Text (List Text)) (secs : Dict Text ℕ) where
  -- The imports of a module that the log has too.
  abbrev pub Needs : Text → Text → Type 0
  Needs m i = Memᴰ i (imports_of imports secs m) × (has i secs ≡ true)

  -- Whatever a module on the stack needs, for which the loop only waits, is done or further up.
  abbrev pub Good : List Text → List Text → List Item → Type 0
  Good done above [] = Unit
  Good done above ((m, b) ∷ stack) =
      (b ≡ true → (i : Text) → Needs m i → Either i done above) × Good done (m ∷ above) stack

  pub Good-mono :
      (done more : List Text) (stack : List Item) (above other : List Text)
      → ((x : Text) → Either x done above → Either x more other)
      → Good done above stack
      → Good more other stack
  Good-mono done more [] above other f g = tt
  Good-mono done more ((m, b) ∷ stack) above other f g =
      (λ e i n. f i (g.0 e i n), Good-mono done more stack (m ∷ above) (m ∷ other) (widen f) g.1)
    where
      widen :
          ((x : Text) → Either x done above → Either x more other)
          → (x : Text) → Either x done (m ∷ above)
          → Either x more (m ∷ other)
      widen f x (inl d) = ⊎_elim inl (λ o. inr (there o)) (f x (inl d))
      widen f x (inr u) = elim (Memᴰ.cases_cons u) [
        | inl e ↦ inr (Memᴰ.head e)
        | inr t ↦ ⊎_elim inl (λ o. inr (there o)) (f x (inr t))
      ]

  -- The imports that are pushed.
  abbrev Covers : List Text → List Text → List Text → Type 0
  Covers done is above = (x : Text) → Memᴰ x is → has x secs ≡ true → Either x done above

  pub push_imports-Good :
      (done is : List Text) (stack : List Item)
      → ((above : List Text) → Covers done is above → Good done above stack)
      → Good done [] (push_imports imports secs done is stack)
  unfolding push_imports
  push_imports-Good done [] stack h = h [] (λ x m. absurd (Memᴰ-nil m))
  push_imports-Good done (i ∷ is) stack h =
      elim (Bool-cases (has i secs && not (contains done i))) [
        | inl e ↦
            rw (e, push_imports)
              (push_imports-Good done is ((i, false) ∷ stack)
                (λ above c. (λ f. absurd (cc f), h (i ∷ above) (front above c))))
        | inr e ↦
            rw (e, push_imports)
              (push_imports-Good done is stack (λ above c. h above (skip e above c)))
      ]
    where
      known :
          has i secs ≡ true → (has i secs && not (contains done i)) ≡ false → contains done i ≡ true
      known k e = ground arith

      front : (above : List Text) → Covers done is above → Covers done (i ∷ is) (i ∷ above)
      front above c x m k = elim (Memᴰ.cases_cons m) [
        | inl q ↦ inr (Memᴰ.head q)
        | inr t ↦ ⊎_elim inl (λ u. inr (there u)) (c x t k)
      ]

      skip :
          (has i secs && not (contains done i)) ≡ false
          → (above : List Text) → Covers done is above
          → Covers done (i ∷ is) above
      skip e above c x m k = elim (Memᴰ.cases_cons m) [
        | inl q ↦ inl (
            subst (λ y. Memᴰ y done) (sym q)
              ((contains_iff done i).0 (known (subst (λ y. has y secs ≡ true) q k) e)))
        | inr t ↦ c x t k
      ]

  pub push_imports-keeps :
      (done is : List Text) (stack : List Item) (x : Item)
      → Memᴰ x stack
      → Memᴰ x (push_imports imports secs done is stack)
  unfolding push_imports
  push_imports-keeps done [] stack x m = m
  push_imports-keeps done (i ∷ is) stack x m =
      elim (Bool-cases (has i secs && not (contains done i))) [
        | inl e ↦ rw (e, push_imports) (push_imports-keeps done is ((i, false) ∷ stack) x (there m))
        | inr e ↦ rw (e, push_imports) (push_imports-keeps done is stack x m)
      ]

  pub push_imports-inside :
      (done is : List Text) (stack : List Item)
      → ((x : Item) → Memᴰ x stack → has x.0 secs ≡ true)
      → (x : Item) → Memᴰ x (push_imports imports secs done is stack)
      → has x.0 secs ≡ true
  unfolding push_imports
  push_imports-inside done [] stack h x m = h x m
  push_imports-inside done (i ∷ is) stack h x m =
      elim (Bool-cases (has i secs && not (contains done i))) [
        | inl e ↦
            push_imports-inside done is ((i, false) ∷ stack) (pushed (ground arith)) x
              (rw (e, push_imports) at m)
        | inr e ↦ push_imports-inside done is stack h x (rw (e, push_imports) at m)
      ]
    where
      pushed : has i secs ≡ true → (y : Item) → Memᴰ y ((i, false) ∷ stack) → has y.0 secs ≡ true
      pushed k y n = elim (Memᴰ.cases_cons n) [
        | inl q ↦ subst (λ (z : Item). has z.0 secs ≡ true) (sym q) k
        | inr t ↦ h y t
      ]
