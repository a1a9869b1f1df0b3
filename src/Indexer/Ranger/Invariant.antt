-- ===== src/Indexer/Ranger/Invariant.antt =====
-- What holds of the pool after every action, in whatever order they happen.
use ethindexer.Common.{
  ℕ, ◌+◌, ◌%◌, ◌≤◌, ◌<◌, ◌≡◌, ◌⊎◌, inl, inr, refl, none, some, true, false, not, ◌||◌, ◌==◌,
  get_elem?, get_elem?-set, get_elem?-some-lt, set, length, length-set, arith, Bool-cases, is_some,
}
use ethindexer.Failure.{Error, ok}
use ethindexer.Domain.{BlockBundle, uint64_size}
use ethindexer.Indexer.Fetcher.{Fetcher, fetch_block}
use ethindexer.Indexer.Ranger.{Worker, idle, stopped, fetching, Pool, failed}

module _ (f : Fetcher) (from count : ℕ) (small : from + count ≤ uint64_size) where
  -- The slot `i` holds the block that the chain gives at its number.
  abbrev pub IsFilled : ℕ → Pool → Type 0
  IsFilled i p =
      (b : BlockBundle) × (get_elem? p.bundles i ≡ some b) × (fetch_block f (from + i) ≡ ok b)

  -- Some worker is fetching the block of slot `i`.
  abbrev pub IsFetched : ℕ → Pool → Type 0
  IsFetched i p = (w n : ℕ) × (get_elem? p.workers w ≡ some (fetching i n))

  pub record Inv (p : Pool) : Type 0 where
    pub size : length p.bundles ≡ count
    pub staffed : 1 ≤ length p.workers
    pub bound : p.next ≤ count
    pub jobs :
        (w i n : ℕ) → get_elem? p.workers w ≡ some (fetching i n) → (n ≡ from + i) × (i < p.next)
    pub handed : p.cancelled ≡ false → (i : ℕ) → i < p.next → IsFilled i p ⊎ IsFetched i p
    pub stops :
        (w : ℕ) → get_elem? p.workers w ≡ some stopped → (p.cancelled || not p.producing) ≡ true
    pub quiet : p.cancelled ≡ false → (p.failure ≡ none) × (p.parent ≡ none)
    pub reason : p.cancelled ≡ true → (is_some p.failure || is_some p.parent) ≡ true
    pub ended : p.producing ≡ false → (p.next ≡ count) ⊎ (p.cancelled ≡ true)

  -- A worker that fails.
  pub failed-Inv : (w : ℕ) (e : Error) (p : Pool) → Inv p → Inv (failed w e p)
  failed-Inv w e p h = record {
    size = h.size;
    staffed = ground (arith, h.staffed, length-set p.workers w stopped);
    bound = h.bound;
    jobs = λ v i n at. h.jobs v i n (ground (arith, get_elem?-set p.workers w v stopped, at));
    handed = λ c. absurd (ground arith);
    stops = λ v at. refl;
    quiet = λ c. absurd (ground arith);
    reason = λ c. ground arith;
    ended = λ c. inr refl;
  }

  -- A worker that changes to another state keeps the jobs of the others.
  pub others_fetch :
      (w i : ℕ) (s : Worker) (p q : Pool)
      → q.workers ≡ set p.workers w s
      → IsFetched i p
      → (IsFetched i q) ⊎ ((n : ℕ) × (get_elem? p.workers w ≡ some (fetching i n)))
  others_fetch w i s p q is (v, n, at) = elim (Bool-cases (w == v)) [
    | inl same ↦ inr (n, ground (arith, at))
    | inr other ↦ inl (v, n, ground (arith, at, is, get_elem?-set p.workers w v s))
  ]

  module _ (w : ℕ) (p : Pool) (waits : get_elem? p.workers w ≡ some idle)
      (produces : p.producing ≡ true) (more : p.next < count) (h : Inv p) where
    abbrev handed_over : Pool
    handed_over = record p {
      next = p.next + 1;
      workers = set p.workers w (fetching p.next ((from + p.next) % uint64_size));
    }

    hand-handed :
        p.cancelled ≡ false
        → (i : ℕ) → i < p.next + 1
        → IsFilled i handed_over ⊎ IsFetched i handed_over
    hand-handed c i lt = elim (Bool-cases (i == p.next)) [
      | inl new ↦ inr (
        w,
        (from + p.next) % uint64_size,
        ground (
          arith,
          get_elem?-set p.workers w w (fetching p.next ((from + p.next) % uint64_size)),
          get_elem?-some-lt p.workers w waits,
        ),
      )
      | inr old ↦ keep (h.handed c i (ground arith))
    ]
      where
        keep : IsFilled i p ⊎ IsFetched i p → IsFilled i handed_over ⊎ IsFetched i handed_over
        keep (inl filled) = inl filled
        keep (inr fetched) = moved (others_fetch w i _ p handed_over refl fetched)
          where
            moved :
                (IsFetched i handed_over)
                  ⊎ ((n : ℕ) × (get_elem? p.workers w ≡ some (fetching i n)))
                → IsFilled i handed_over ⊎ IsFetched i handed_over
            moved (inl there) = inr there
            moved (inr (n, at)) = absurd (ground arith)

    pub hand-Inv : Inv handed_over
    hand-Inv = record {
      size = h.size;
      staffed = ground (
        arith,
        h.staffed,
        length-set p.workers w (fetching p.next ((from + p.next) % uint64_size)),
      );
      bound = omega (arith, more);
      jobs = λ v i n at. ground (
        arith,
        at,
        h.jobs v i n,
        get_elem?-set p.workers w v (fetching p.next ((from + p.next) % uint64_size)),
      );
      handed = hand-handed;
      stops = λ v at. ground (
        arith,
        at,
        h.stops v,
        get_elem?-set p.workers w v (fetching p.next ((from + p.next) % uint64_size)),
      );
      quiet = h.quiet;
      reason = h.reason;
      ended = λ c. absurd (ground arith);
    }
