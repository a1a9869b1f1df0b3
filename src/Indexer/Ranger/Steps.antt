-- ===== src/Indexer/Ranger/Steps.antt =====
-- Every action keeps the invariant of the pool, so every run does.
use ethindexer.Common.{
  ℕ, ◌+◌, ◌≤◌, ◌≡◌, ◌⊎◌, inl, inr, refl, some, true, false, not, ◌||◌, ◌==◌, get_elem?,
  get_elem?-set, set, length-set, arith, Bool-cases, subst,
}
use ethindexer.Failure.{Error, ok}
use ethindexer.Domain.{BlockBundle, uint64_size}
use ethindexer.Indexer.Fetcher.{Fetcher, fetch_block}
use ethindexer.Indexer.Ranger.{idle, stopped, fetching, Pool}
use ethindexer.Indexer.Ranger.Invariant.{IsFilled, IsFetched, Inv, others_fetch}

module _ (f : Fetcher) (from count : ℕ) (small : from + count ≤ uint64_size) where
  module _ (w : ℕ) (i n : ℕ) (b : BlockBundle) (p : Pool)
      (at : get_elem? p.workers w ≡ some (fetching i n)) (fetched : fetch_block f n ≡ ok b)
      (h : Inv f from count small p) where
    abbrev stored : Pool
    stored = record p { workers = set p.workers w idle; bundles = set p.bundles i b }

    stored-IsFilled : IsFilled f from count small i stored
    stored-IsFilled = (
      b,
      ground (arith, h.jobs w i n at, h.bound, h.size, get_elem?-set p.bundles i i b),
      ground (arith, fetched, h.jobs w i n at),
    )

    still-IsFilled :
        (j : ℕ) → IsFilled f from count small j p → IsFilled f from count small j stored
    still-IsFilled j (c, held, is) = elim (Bool-cases (j == i)) [
      | inl same ↦ subst (λ k. IsFilled f from count small k stored) (ground arith) stored-IsFilled
      | inr other ↦ (c, ground (arith, held, get_elem?-set p.bundles i j b), is)
    ]

    moved :
        (j : ℕ)
        → (IsFetched f from count small j stored)
          ⊎ ((m : ℕ) × (get_elem? p.workers w ≡ some (fetching j m)))
        → IsFilled f from count small j stored ⊎ IsFetched f from count small j stored
    moved j (inl there) = inr there
    moved j (inr (m, here)) = inl (
        subst (λ k. IsFilled f from count small k stored) (ground (arith, at, here))
          stored-IsFilled)

    stored-handed :
        (j : ℕ)
        → IsFilled f from count small j p ⊎ IsFetched f from count small j p
        → IsFilled f from count small j stored ⊎ IsFetched f from count small j stored
    stored-handed j (inl filled) = inl (still-IsFilled j filled)
    stored-handed j (inr busy) =
        moved j (others_fetch f from count small w j idle p stored refl busy)

    pub stored-Inv : Inv f from count small stored
    stored-Inv = record {
      size = ground (arith, length-set p.bundles i b, h.size);
      staffed = ground (arith, h.staffed, length-set p.workers w idle);
      bound = h.bound;
      jobs = λ v j m here. h.jobs v j m (ground (arith, get_elem?-set p.workers w v idle, here));
      handed = λ c j lt. stored-handed j (h.handed c j lt);
      stops = λ v here. h.stops v (ground (arith, get_elem?-set p.workers w v idle, here));
      quiet = h.quiet;
      reason = h.reason;
      ended = h.ended;
    }

  module _ (w : ℕ) (p : Pool) (at : get_elem? p.workers w ≡ some idle)
      (over : (p.cancelled || not p.producing) ≡ true) (h : Inv f from count small p) where
    abbrev left : Pool
    left = record p { workers = set p.workers w stopped }

    left-handed :
        (i : ℕ)
        → IsFilled f from count small i p ⊎ IsFetched f from count small i p
        → IsFilled f from count small i left ⊎ IsFetched f from count small i left
    left-handed i (inl filled) = inl filled
    left-handed i (inr busy) = elim (others_fetch f from count small w i stopped p left refl busy) [
      | inl there ↦ inr there
      | inr (n, was) ↦ absurd (ground (arith, at, was))
    ]

    pub left-Inv : Inv f from count small left
    left-Inv = record {
      size = h.size;
      staffed = ground (arith, h.staffed, length-set p.workers w stopped);
      bound = h.bound;
      jobs = λ v i n here. h.jobs v i n (ground (arith, get_elem?-set p.workers w v stopped, here));
      handed = λ c i lt. left-handed i (h.handed c i lt);
      stops = λ v here. over;
      quiet = h.quiet;
      reason = h.reason;
      ended = h.ended;
    }

  pub close-Inv :
      (p : Pool)
      → (p.next == count || p.cancelled) ≡ true
      → Inv f from count small p
      → Inv f from count small (record p { producing = false })
  close-Inv p over h = record {
    size = h.size;
    staffed = h.staffed;
    bound = h.bound;
    jobs = h.jobs;
    handed = h.handed;
    stops = λ v here. ground arith;
    quiet = h.quiet;
    reason = h.reason;
    ended = λ c. elim (Bool-cases p.cancelled) [
      | inl done ↦ inr done
      | inr not_yet ↦ inl (ground arith)
    ];
  }

  pub cancel-Inv :
      (e : Error) (p : Pool)
      → Inv f from count small p
      → Inv f from count small (record p { parent = some e; cancelled = true })
  cancel-Inv e p h = record {
    size = h.size;
    staffed = h.staffed;
    bound = h.bound;
    jobs = h.jobs;
    handed = λ c. absurd (ground arith);
    stops = λ v here. refl;
    quiet = λ c. absurd (ground arith);
    reason = λ c. ground arith;
    ended = λ c. inr refl;
  }
