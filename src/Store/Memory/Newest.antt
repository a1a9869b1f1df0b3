-- ===== src/Store/Memory/Newest.antt =====
-- Events sorted newest first.
use ethindexer.Common.{
  ℕ, zero, suc, ◌≤◌, ◌<◌, ◌≡◌, ◌⊎◌, ◌==◌, inl, inr, List, [], ◌∷◌, true, false, arith, take,
  sort_by, place, Bool-cases, subst, some, ap, refl, length, get_elem?,
}
use ethindexer.Domain.{Event}
use ethindexer.Store.Memory.Queries.{newer}
use ethindexer.Store.Memory.Selection.{IsIn}

-- The order of events on their numbers: by block number, then by log index; equal places count.
abbrev pub InOrder : Event → Event → Type 0
InOrder a b =
    (b.block_number < a.block_number)
    ⊎ ((a.block_number ≡ b.block_number) × (b.log_index ≤ a.log_index))

-- The first element is no older than the next.
abbrev pub NoneBefore : Event → List Event → Type 0
NoneBefore e [] = Unit
NoneBefore e (x ∷ xs) = InOrder e x

abbrev pub IsNewestFirst : List Event → Type 0
IsNewestFirst [] = Unit
IsNewestFirst (e ∷ es) = NoneBefore e es × IsNewestFirst es

newer-InOrder : (a b : Event) → newer a b ≡ true → InOrder a b
newer-InOrder a b h = elim (Bool-cases (a.block_number == b.block_number)) [
  | inl same ↦ inr (ground (arith, same), ground (arith, same, h))
  | inr other ↦ inl (ground (arith, other, h))
]

not_newer-InOrder : (a b : Event) → newer b a ≡ false → InOrder a b
not_newer-InOrder a b h = elim (Bool-cases (a.block_number == b.block_number)) [
  | inl same ↦ inr (ground (arith, same), ground (arith, same, h))
  | inr other ↦ inl (ground (arith, other, h))
]

place-NoneBefore :
    (e x : Event) (es : List Event)
    → newer e x ≡ true
    → NoneBefore e es
    → NoneBefore e (place newer x es)
place-NoneBefore e x [] before h = newer-InOrder e x before
place-NoneBefore e x (y ∷ ys) before h = elim (Bool-cases (newer y x)) [
  | inl later ↦ subst (NoneBefore e) {x = y ∷ place newer x ys} (ground (arith, later)) h
  | inr first ↦
      subst (NoneBefore e) {x = x ∷ y ∷ ys} (ground (arith, first)) (newer-InOrder e x before)
]

place-IsNewestFirst :
    (x : Event) (es : List Event) → IsNewestFirst es → IsNewestFirst (place newer x es)
place-IsNewestFirst x [] h = (tt, tt)
place-IsNewestFirst x (y ∷ ys) (first, rest) = elim (Bool-cases (newer y x)) [
  | inl later ↦
      subst IsNewestFirst {x = y ∷ place newer x ys} (ground (arith, later))
        (place-NoneBefore y x ys later first, place-IsNewestFirst x ys rest)
  | inr here ↦
      subst IsNewestFirst {x = x ∷ y ∷ ys} (ground (arith, here))
        (not_newer-InOrder x y here, (first, rest))
]

pub sort_by-IsNewestFirst : (es : List Event) → IsNewestFirst (sort_by newer es)
sort_by-IsNewestFirst [] = tt
sort_by-IsNewestFirst (e ∷ es) = place-IsNewestFirst e (sort_by newer es) (sort_by-IsNewestFirst es)

pub take-IsNewestFirst : (n : ℕ) (es : List Event) → IsNewestFirst es → IsNewestFirst (take n es)
take-IsNewestFirst zero es h = tt
take-IsNewestFirst (suc n) [] h = tt
take-IsNewestFirst (suc zero) (e ∷ es) h = (tt, tt)
take-IsNewestFirst (suc (suc n)) (e ∷ []) h = (tt, tt)
take-IsNewestFirst (suc (suc n)) (e ∷ x ∷ es) (first, rest) =
    (first, take-IsNewestFirst (suc n) (x ∷ es) rest)

InOrder-trans : (a b c : Event) → InOrder a b → InOrder b c → InOrder a c
InOrder-trans a b c (inl h) (inl k) = inl (omega (arith, h, k))
InOrder-trans a b c (inl h) (inr (same, k)) = inl (ground (arith, h, same))
InOrder-trans a b c (inr (same, h)) (inl k) = inl (ground (arith, k, same))
InOrder-trans a b c (inr (same, h)) (inr (same', k)) =
    inr (ground (arith, same, same'), omega (arith, h, k))

behind_first :
    (x : Event) (es : List Event) (i : ℕ) (e : Event)
    → IsNewestFirst (x ∷ es)
    → get_elem? es i ≡ some e
    → InOrder x e
behind_first x [] i e h at = absurd (ground (arith, at))
behind_first x (y ∷ ys) zero e (first, rest) at =
    subst (InOrder x) {x = y} {y = e} (ground (arith, at)) first
behind_first x (y ∷ ys) (suc i) e (first, rest) at =
    InOrder-trans x y e first (behind_first y ys i e rest at)

-- A full page whose events all stand before the event.
pub record IsFullBefore (limit : ℕ) (page : List Event) (e : Event) : Type 0 where
  pub full : length page ≡ limit
  pub ahead : (j : ℕ) (x : Event) → get_elem? page j ≡ some x → InOrder x e

reached_at :
    (n : ℕ) (es : List Event) (i : ℕ) (e : Event)
    → IsNewestFirst es
    → get_elem? es i ≡ some e
    → IsIn e (take n es) ⊎ IsFullBefore n (take n es) e
reached_at zero es i e h at =
    inr (record { full = refl; ahead = λ j x no. absurd (ground (arith, no)) })
reached_at (suc n) [] i e h at = absurd (ground (arith, at))
reached_at (suc n) (y ∷ ys) zero e h at = inl (zero, at)
reached_at (suc n) (y ∷ ys) (suc i) e (first, rest) at = one_more (reached_at n ys i e rest at)
  where
    also_first :
        IsFullBefore n (take n ys) e
        → (j : ℕ) (x : Event) → get_elem? (y ∷ take n ys) j ≡ some x
        → InOrder x e
    also_first before zero x here =
        subst (λ z. InOrder z e) {x = y} {y = x} (ground (arith, here))
          (behind_first y ys i e (first, rest) at)
    also_first before (suc j) x there = before.ahead j x there

    one_more :
        IsIn e (take n ys) ⊎ IsFullBefore n (take n ys) e
        → IsIn e (y ∷ take n ys) ⊎ IsFullBefore (suc n) (y ∷ take n ys) e
    one_more (inl (j, there)) = inl (suc j, there)
    one_more (inr before) = inr (record { full = ap suc before.full; ahead = also_first before })

-- An event of a sorted list is on its first page, or the page is full and stands before it.
pub reached :
    (n : ℕ) (es : List Event) (e : Event)
    → IsNewestFirst es
    → IsIn e es
    → IsIn e (take n es) ⊎ IsFullBefore n (take n es) e
reached n es e h (i, at) = reached_at n es i e h at
