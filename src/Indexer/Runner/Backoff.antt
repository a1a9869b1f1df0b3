-- ===== src/Indexer/Runner/Backoff.antt =====
-- The delays between the retries of a synchronization.
use ethindexer.Common.{
  ℕ, zero, suc, ◌+◌, ◌≤◌, ◌<◌, ◌≡◌, List, [], ◌∷◌, leb, if◌then◌else◌, ℤ, pos, arith, get_elem?,
  some, int64_limit, Bool-cases, inl, inr,
}
use ethindexer.Indexer.Runner.{next_retry_backoff}

-- The smaller of two numbers.
abbrev pub smaller : ℕ → ℕ → ℕ
smaller a b = if leb a b then a else b

-- On a positive delay and a maximum that an int64 holds, the next delay is twice the current one,
-- but at most the maximum; no addition overflows.
pub next_retry_backoff_exact :
    (current maximum : ℕ)
    → 1 ≤ current
    → maximum < int64_limit
    → next_retry_backoff (pos current) (pos maximum) ≡ pos (smaller (current + current) maximum)
unfolding next_retry_backoff
next_retry_backoff_exact current maximum positive small = ground arith

-- The first `n` delays from the delay `backoff` on.
abbrev pub delays : ℕ → ℤ → ℤ → List ℤ
delays zero backoff maximum = []
delays (suc n) backoff maximum = backoff ∷ delays n (next_retry_backoff backoff maximum) maximum

-- `n` doubled `i` times
abbrev pub doubled : ℕ → ℕ → ℕ
doubled zero n = n
doubled (suc i) n = doubled i (n + n)

le-doubled : (i n : ℕ) → n ≤ doubled i n
le-doubled zero n = omega arith
le-doubled (suc i) n = omega (arith, le-doubled i (n + n))

-- The delay before retry `i + 1`, where the maximum is an int64 and the first delay lies between 1
-- and it: the first delay doubled `i` times, and the maximum where that is larger.
pub delays-get_elem? :
    (n i first maximum : ℕ)
    → 1 ≤ first
    → first ≤ maximum
    → maximum < int64_limit
    → i < n
    → get_elem? (delays n (pos first) (pos maximum)) i
      ≡ some (pos (smaller (doubled i first) maximum))
delays-get_elem? zero i first maximum positive ordered small lt = absurd (ground arith)
delays-get_elem? (suc n) zero first maximum positive ordered small lt = ground arith
delays-get_elem? (suc n) (suc i) first maximum positive ordered small lt =
    elim (Bool-cases (leb (first + first) maximum)) [
      | inl room ↦ ground (
        arith,
        next_retry_backoff_exact first maximum positive small,
        delays-get_elem? n i (first + first) maximum (omega (arith, positive)) (ground arith) small
            (omega (arith, lt)),
      )
      | inr full ↦ ground (
        arith,
        next_retry_backoff_exact first maximum positive small,
        le-doubled i maximum,
        le-doubled i (first + first),
        delays-get_elem? n i maximum maximum (omega (arith, positive, ordered)) (omega arith) small
            (omega (arith, lt)),
      )
    ]
