-- ===== src/Prelude/Lists.antt =====
-- Lists over the native numbers.
use Prim.Native.Nat.{ℕ, zero, suc, ◌≤◌, ◌<◌}
use mathlib.Core.Path.{◌≡◌, refl, sym, ap, ◌∙◌}
use mathlib.Core.Bool.{Bool, true, false, ◌||◌}
use mathlib.Core.Logic.{inl, inr}
use mathlib.Core.Option.{Option, none, some, none-ne-some, some-injective}
use mathlib.Core.List.{List, [], ◌∷◌}
use native.Mathlib.Omega.{arith}
use cluster_api_provider_bri.Prelude.Tests.{if◌then◌else◌, Bool-cases}

module _ {ℓ} {A : Type ℓ} where
  abbrev pub length : List A → ℕ
  length [] = 0
  length (x ∷ xs) = suc (length xs)

  abbrev pub get_elem? : List A → ℕ → Option A
  get_elem? [] i = none
  get_elem? (x ∷ xs) zero = some x
  get_elem? (x ∷ xs) (suc i) = get_elem? xs i

  -- The elements that pass a Boolean test, in order.
  abbrev pub select : (A → Bool) → List A → List A
  select p [] = []
  select p (x ∷ xs) = let rest = select p xs in if p x then x ∷ rest else rest

  abbrev pub any : (A → Bool) → List A → Bool
  any p [] = false
  any p (x ∷ xs) = p x || any p xs

  -- Membership with the place kept.
  abbrev pub In : A → List A → Type ℓ
  In a xs = (i : ℕ) × (get_elem? xs i ≡ some a)

  pub get_elem?-lt_length :
      (xs : List A) (i : ℕ) → i < length xs → (a : A) × (get_elem? xs i ≡ some a)
  get_elem?-lt_length [] i h = elim h [ ]
  get_elem?-lt_length (x ∷ xs) zero h = (x, refl)
  get_elem?-lt_length (x ∷ xs) (suc i) h = get_elem?-lt_length xs i (omega arith)

  pub get_elem?-eq_none : (xs : List A) (i : ℕ) → length xs ≤ i → get_elem? xs i ≡ none
  get_elem?-eq_none [] i h = refl
  get_elem?-eq_none (x ∷ xs) zero h = absurd (omega arith)
  get_elem?-eq_none (x ∷ xs) (suc i) h = get_elem?-eq_none xs i (omega arith)

  kept :
      (p : A → Bool) (x : A) (xs : List A) (a : A) (i : ℕ)
      → p x ≡ true
      → ((j : ℕ) → get_elem? (select p xs) j ≡ some a → (p a ≡ true) × In a xs)
      → get_elem? (x ∷ select p xs) i ≡ some a
      → (p a ≡ true) × In a (x ∷ xs)
  kept p x xs a zero yes_x ih h = (ap p (sym (some-injective x a h)) ∙ yes_x, (0, h))
  kept p x xs a (suc i) yes_x ih h = let r = ih i h in (r.0, (suc r.1.0, r.1.1))

  -- A selected element passes the test, and stands in the list.
  pub In-select :
      (p : A → Bool) (xs : List A) (a : A) (i : ℕ)
      → get_elem? (select p xs) i ≡ some a
      → (p a ≡ true) × In a xs
  In-select p [] a i h = absurd (none-ne-some a h)
  In-select p (x ∷ xs) a i h = elim (Bool-cases (p x)) [
    | inl yes_x ↦ kept p x xs a i yes_x (In-select p xs a) (rw (yes_x, if◌then◌else◌) at h)
    | inr no_x ↦
        let r = In-select p xs a i (rw (no_x, if◌then◌else◌) at h) in (r.0, (suc r.1.0, r.1.1))
  ]

  -- An element of the list that passes the test is selected.
  pub select-In :
      (p : A → Bool) (xs : List A) (a : A) (i : ℕ)
      → get_elem? xs i ≡ some a
      → p a ≡ true
      → In a (select p xs)
  select-In p [] a i h t = absurd (none-ne-some a h)
  select-In p (x ∷ xs) a zero h t = rw (ap p (some-injective x a h) ∙ t, if◌then◌else◌) (0, h)
  select-In p (x ∷ xs) a (suc i) h t = elim (Bool-cases (p x)) [
    | inl yes_x ↦ let m = select-In p xs a i h t in rw (yes_x, if◌then◌else◌) (suc m.0, m.1)
    | inr no_x ↦ rw (no_x, if◌then◌else◌) (select-In p xs a i h t)
  ]
