-- ===== src/Store/Memory/Strict.antt =====
-- Events at different positions, sorted newest first: what lies before a cursor to one of them.
use ethindexer.Common.{
  ℕ, zero, suc, ◌≤◌, ◌≡◌, inl, inr, refl, List, [], ◌∷◌, some, Bool, true, false, not, ◌&&◌, ◌==◌,
  if◌then◌else◌, arith, take, drop, length, last_or, filter_by, sort_by, place, Bool-cases, subst,
  All, All-map, All-last, All-take, All-place, All-sort_by,
}
use ethindexer.Domain.{Event, EventCursor}
use ethindexer.Store.Memory.Queries.{newer, event_before_cursor, cursor_at}

abbrev pub apart : Event → Event → Bool
apart e x = not (e.block_number == x.block_number && e.log_index == x.log_index)

-- No two events stand at one position.
abbrev pub IsApart : List Event → Type 0
IsApart [] = Unit
IsApart (e ∷ es) = All (λ y. apart e y ≡ true) es × IsApart es

-- Each event is newer than all behind it.
abbrev pub IsStrict : List Event → Type 0
IsStrict [] = Unit
IsStrict (e ∷ es) = All (λ y. newer e y ≡ true) es × IsStrict es

place-IsStrict :
    (x : Event) (es : List Event)
    → All (λ y. apart x y ≡ true) es
    → IsStrict es
    → IsStrict (place newer x es)
place-IsStrict x [] differ h = (tt, tt)
place-IsStrict x (y ∷ ys) (differ, others) (first, rest) = elim (Bool-cases (newer y x)) [
  | inl later ↦
      subst IsStrict {x = y ∷ place newer x ys} (ground (arith, later))
        (All-place (λ z. newer y z ≡ true) newer x ys later first, place-IsStrict x ys others rest)
  | inr here ↦
      let above : newer x y ≡ true = ground (arith, here, differ) in
      subst IsStrict {x = x ∷ y ∷ ys} (ground (arith, here)) (
        (
          above,
          All-map (λ z. newer y z ≡ true) (λ z. newer x z ≡ true) ys
              (λ z below. ground (arith, above, below)) first,
        ),
        (first, rest),
      )
]

pub sort_by-IsStrict : (es : List Event) → IsApart es → IsStrict (sort_by newer es)
sort_by-IsStrict [] h = tt
sort_by-IsStrict (e ∷ es) (differ, rest) =
    place-IsStrict e (sort_by newer es) (All-sort_by (λ y. apart e y ≡ true) newer es differ)
      (sort_by-IsStrict es rest)

module _ (cursor : EventCursor) where
  abbrev pub older : Event → Bool
  older e = event_before_cursor e (some cursor)

  filter_by-place :
      (x : Event) (es : List Event)
      → filter_by older (place newer x es)
        ≡ (if older x then place newer x (filter_by older es) else filter_by older es)
  unfolding event_before_cursor
  filter_by-place x [] = ground arith
  filter_by-place x (y ∷ ys) = ground (arith, filter_by-place x ys)

  -- Sorting and leaving out what is not before the cursor commute.
  pub filter_by-sort_by :
      (es : List Event) → filter_by older (sort_by newer es) ≡ sort_by newer (filter_by older es)
  filter_by-sort_by [] = refl
  filter_by-sort_by (e ∷ es) =
      ground (arith, filter_by-place e (sort_by newer es), filter_by-sort_by es)

filter_by_all :
    (test : Event → Bool) (es : List Event) → All (λ e. test e ≡ true) es → filter_by test es ≡ es
filter_by_all test [] h = refl
filter_by_all test (e ∷ es) (here, rest) = ground (arith, here, filter_by_all test es rest)

older-newer : (e y : Event) → older (cursor_at e) y ≡ newer e y
unfolding event_before_cursor
older-newer e y = ground arith

newer_irrefl : (e : Event) → newer e e ≡ false
newer_irrefl e = ground arith

-- What lies before a cursor to the last of the first events is the rest.
pub filter_by-drop :
    (d : Event) (n : ℕ) (es : List Event)
    → IsStrict es
    → suc n ≤ length es
    → filter_by (older (cursor_at (last_or d (take (suc n) es)))) es ≡ drop (suc n) es
filter_by-drop d n [] s h = absurd (ground (arith, h))
filter_by-drop d zero (e ∷ es) (first, rest) h = ground (
  arith,
  older-newer e e,
  newer_irrefl e,
  filter_by_all (older (cursor_at e)) es (
      All-map (λ y. newer e y ≡ true) (λ y. older (cursor_at e) y ≡ true) es
        (λ y below. ground (arith, older-newer e y, below)) first),
)
filter_by-drop d (suc n) (e ∷ []) s h = absurd (ground (arith, h))
filter_by-drop d (suc n) (e ∷ x ∷ es) ((next, first), rest) h =
    let last = last_or x (take n es) in
    let below : newer e last ≡ true =
      All-last (λ y. newer e y ≡ true) x (take n es) next
        (All-take (λ y. newer e y ≡ true) n es first) in
    ground (
      arith,
      older-newer last e,
      newer_asym e last below,
      filter_by-drop e n (x ∷ es) rest (omega (arith, h)),
    )
  where
    newer_asym : (a b : Event) → newer a b ≡ true → newer b a ≡ false
    newer_asym a b less = ground arith
