-- ===== src/Common/Sorting.antt =====
-- Go's `sort.Slice` by a `less` function, as an insertion sort, and what it does to numbers.
use Prim.Native.Nat.{ℕ, zero, suc, ◌<◌}
use mathlib.Core.Path.{◌≡◌, refl, subst}
use mathlib.Core.Logic.{inl, inr}
use mathlib.Core.Option.{some}
use mathlib.Core.Bool.{Bool, true, false, ◌||◌}
use mathlib.Core.List.{List, [], ◌∷◌}
use native.Mathlib.Omega.{arith}
use ethindexer.Common.Tests.{if◌then◌else◌, ltb, ◌==◌, Bool-cases}
use ethindexer.Common.Lists.{elem, Distinct, All, get_elem?}

module _ {ℓ} {A : Type ℓ} (less : A → A → Bool) where
  abbrev pub place : A → List A → List A
  place x [] = x ∷ []
  place x (y ∷ ys) = if less y x then y ∷ place x ys else x ∷ y ∷ ys

  abbrev pub sort_by : List A → List A
  sort_by [] = []
  sort_by (x ∷ xs) = place x (sort_by xs)

-- Each number is below the next.
abbrev pub IsAscending : List ℕ → Type 0
IsAscending [] = Unit
IsAscending (x ∷ xs) = All (λ y. x < y) xs × IsAscending xs

elem-place : (a x : ℕ) (xs : List ℕ) → elem a (place ltb x xs) ≡ ((a == x) || elem a xs)
elem-place a x [] = refl
elem-place a x (y ∷ ys) = ground (arith, elem-place a x ys)

pub elem-sort_by : (a : ℕ) (xs : List ℕ) → elem a (sort_by ltb xs) ≡ elem a xs
elem-sort_by a [] = refl
elem-sort_by a (x ∷ xs) = ground (arith, elem-place a x (sort_by ltb xs), elem-sort_by a xs)

place-All :
    (b x : ℕ) (xs : List ℕ) → b < x → All (λ y. b < y) xs → All (λ y. b < y) (place ltb x xs)
place-All b x [] h all = (h, tt)
place-All b x (y ∷ ys) h all = ground (arith, place-All b x ys)

All-weaken : (a b : ℕ) (xs : List ℕ) → a < b → All (λ y. b < y) xs → All (λ y. a < y) xs
All-weaken a b [] h all = tt
All-weaken a b (x ∷ xs) h all = ground (arith, All-weaken a b xs)

place-IsAscending :
    (x : ℕ) (xs : List ℕ) → elem x xs ≡ false → IsAscending xs → IsAscending (place ltb x xs)
place-IsAscending x [] h s = (tt, tt)
place-IsAscending x (y ∷ ys) h s =
    ground (arith, place-IsAscending x ys, place-All y x ys, All-weaken x y ys)

pub sort_by-IsAscending : (xs : List ℕ) → Distinct xs → IsAscending (sort_by ltb xs)
sort_by-IsAscending [] d = tt
sort_by-IsAscending (x ∷ xs) d =
    ground (arith, elem-sort_by x xs, sort_by-IsAscending xs, place-IsAscending x (sort_by ltb xs))

pub elem-All : (b x : ℕ) (xs : List ℕ) → All (λ y. b < y) xs → elem x xs ≡ true → b < x
elem-All b x [] all e = cc
elem-All b x (y ∷ ys) all e = ground (arith, elem-All b x ys)

some_inj {ℓ} : {A : Type ℓ} (x y : A) → some x ≡ some y → x ≡ y
some_inj x y h = cc

module _ {ℓ κ} {A : Type ℓ} (P : A → Type κ) where
  pub All-get_elem? : (xs : List A) (i : ℕ) (a : A) → All P xs → get_elem? xs i ≡ some a → P a
  All-get_elem? [] i a all e = cc
  All-get_elem? (x ∷ xs) zero a all e = subst P (some_inj x a e) all.0
  All-get_elem? (x ∷ xs) (suc i) a all e = All-get_elem? xs i a all.1 e

  pub All-place :
      (less : A → A → Bool) (x : A) (xs : List A) → P x → All P xs → All P (place less x xs)
  All-place less x [] p all = (p, tt)
  All-place less x (y ∷ ys) p all = elim (Bool-cases (less y x)) [
    | inl before ↦ rw before (all.0, All-place less x ys p all.1)
    | inr not_before ↦ rw not_before (p, all)
  ]

  pub All-sort_by : (less : A → A → Bool) (xs : List A) → All P xs → All P (sort_by less xs)
  All-sort_by less [] all = tt
  All-sort_by less (x ∷ xs) all =
      All-place less x (sort_by less xs) all.0 (All-sort_by less xs all.1)
