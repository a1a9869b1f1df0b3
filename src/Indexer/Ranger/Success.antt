-- ===== src/Indexer/Ranger/Success.antt =====
-- `FetchRange` on a chain whose blocks of the range can all be fetched.
use ethindexer.Common.{
  ℕ, ◌+◌, ◌≤◌, ◌<◌, ◌≡◌, inl, inr, refl, List, [], ◌∷◌, Option, none, some, Bool, true, false,
  get_elem?, arith, Option-cases,
}
use ethindexer.Failure.{Error, ok}
use ethindexer.Domain.{BlockBundle, uint64_size}
use ethindexer.Indexer.Fetcher.{Fetcher, fetch_block}
use ethindexer.Indexer.Ranger.{
  Worker, idle, stopped, fetching, Pool, Action, hand, finish, interrupt, quit, close, cancel,
  hand_to, finish_at, quit_at, interrupt_at, step, run,
}
use ethindexer.Indexer.Ranger.Invariant.{Inv}
use ethindexer.Indexer.Ranger.Range.{step-Inv}

-- The caller's context does not end during the run.
abbrev pub is_undisturbed : List Action → Bool
is_undisturbed [] = true
is_undisturbed (cancel e ∷ actions) = false
is_undisturbed (_ ∷ actions) = is_undisturbed actions

-- Nothing has failed so far.
abbrev IsClean : Pool → Type 0
IsClean p = (p.cancelled ≡ false) × (p.failure ≡ none) × (p.parent ≡ none)

module _ (f : Fetcher) (from count : ℕ) (small : from + count ≤ uint64_size)
    (fetches : (i : ℕ) → i < count → (b : BlockBundle) × (fetch_block f (from + i) ≡ ok b)) where
  finish-IsClean :
      (s : Option Worker) (w : ℕ) (p q : Pool)
      → get_elem? p.workers w ≡ s
      → finish_at f from count s w p ≡ some q
      → Inv f from count small p
      → IsClean p
      → IsClean q
  finish-IsClean none w p q at h inv clean = absurd (ground arith)
  finish-IsClean (some stopped) w p q at h inv clean = absurd (ground arith)
  finish-IsClean (some idle) w p q at h inv clean = absurd (ground arith)
  finish-IsClean (some (fetching i n)) w p q at h inv clean =
      let (number, handed) = inv.jobs w i n at in
      let (b, is) = fetches i (omega (arith, handed, inv.bound)) in
      ground (arith, h, number, is, clean)

  hand-IsClean :
      (s : Option Worker) (w : ℕ) (p q : Pool)
      → hand_to f from count s w p ≡ some q
      → IsClean p
      → IsClean q
  hand-IsClean none w p q h clean = absurd (ground arith)
  hand-IsClean (some stopped) w p q h clean = absurd (ground arith)
  hand-IsClean (some (fetching i n)) w p q h clean = absurd (ground arith)
  hand-IsClean (some idle) w p q h clean = ground (arith, h, clean)

  quit-IsClean :
      (s : Option Worker) (w : ℕ) (p q : Pool) → quit_at s w p ≡ some q → IsClean p → IsClean q
  quit-IsClean none w p q h clean = absurd (ground arith)
  quit-IsClean (some stopped) w p q h clean = absurd (ground arith)
  quit-IsClean (some (fetching i n)) w p q h clean = absurd (ground arith)
  quit-IsClean (some idle) w p q h clean = ground (arith, h, clean)

  interrupt_never :
      (s : Option Worker) (w : ℕ) (e : Error) (p q : Pool)
      → interrupt_at s w e p ≡ some q
      → IsClean p
      → IsClean q
  interrupt_never none w e p q h clean = absurd (ground arith)
  interrupt_never (some stopped) w e p q h clean = absurd (ground arith)
  interrupt_never (some idle) w e p q h clean = absurd (ground arith)
  interrupt_never (some (fetching i n)) w e p q h clean = absurd (ground (arith, h, clean))

  step-IsClean :
      (a : Action) (p q : Pool)
      → is_undisturbed (a ∷ []) ≡ true
      → step f from count a p ≡ some q
      → Inv f from count small p
      → IsClean p
      → IsClean q
  unfolding step
  step-IsClean (hand w) p q calm h inv clean = hand-IsClean _ w p q h clean
  step-IsClean (finish w) p q calm h inv clean = finish-IsClean _ w p q refl h inv clean
  step-IsClean (interrupt w e) p q calm h inv clean = interrupt_never _ w e p q h clean
  step-IsClean (quit w) p q calm h inv clean = quit-IsClean _ w p q h clean
  step-IsClean close p q calm h inv clean = ground (arith, h, clean)
  step-IsClean (cancel e) p q calm h inv clean = absurd (ground arith)

  undisturbed_cons :
      (a : Action) (actions : List Action)
      → is_undisturbed (a ∷ actions) ≡ true
      → (is_undisturbed (a ∷ []) ≡ true) × (is_undisturbed actions ≡ true)
  undisturbed_cons (hand w) actions h = (refl, h)
  undisturbed_cons (finish w) actions h = (refl, h)
  undisturbed_cons (interrupt w e) actions h = (refl, h)
  undisturbed_cons (quit w) actions h = (refl, h)
  undisturbed_cons close actions h = (refl, h)
  undisturbed_cons (cancel e) actions h = absurd (ground arith)

  pub run-IsClean :
      (actions : List Action) (p q : Pool)
      → is_undisturbed actions ≡ true
      → run f from count actions p ≡ some q
      → Inv f from count small p
      → IsClean p
      → IsClean q
  unfolding run
  run-IsClean [] p q calm h inv clean = ground (arith, h, clean)
  run-IsClean (a ∷ actions) p q calm h inv clean = elim (Option-cases (step f from count a p)) [
    | inl stuck ↦ absurd (ground (arith, h, stuck))
    | inr (r, is) ↦
        let (now, later) = undisturbed_cons a actions calm in
        run-IsClean actions r q later (ground (arith, h, is))
          (step-Inv f from count small a p r is inv) (step-IsClean a p r now is inv clean)
  ]
