-- ===== src/Indexer/Ranger/Progress.antt =====
-- The goroutines of `FetchRange` neither run on for ever nor wait for one another.
use ethindexer.Common.{
  ℕ, zero, suc, ◌+◌, ◌*◌, ◌-◌, ◌%◌, ◌≤◌, ◌<◌, ◌≡◌, inl, inr, refl, List, [], ◌∷◌, Option, none,
  some, Bool, true, false, get_elem?, set, length, replicate, arith, Option-cases,
}
use ethindexer.Failure.{Error, Result-cases}
use ethindexer.Domain.{uint64_size}
use ethindexer.Indexer.Fetcher.{Fetcher, fetch_block}
use ethindexer.Indexer.Ranger.{
  Worker, idle, stopped, fetching, Pool, Action, hand, finish, interrupt, quit, close, cancel,
  failed, hand_to, finish_at, quit_at, interrupt_at, step, run,
}

-- What a worker may still do on its own.
abbrev pub to_do : Worker → ℕ
to_do stopped = 0
to_do idle = 1
to_do (fetching i n) = 2

abbrev pub all_to_do : List Worker → ℕ
all_to_do [] = 0
all_to_do (w ∷ workers) = to_do w + all_to_do workers

abbrev pub if_none : Option Error → ℕ
if_none none = 1
if_none (some e) = 0

abbrev pub if_true : Bool → ℕ
if_true true = 1
if_true false = 0

all_to_do-set :
    (workers : List Worker) (w : ℕ) (s t : Worker)
    → get_elem? workers w ≡ some s
    → all_to_do (set workers w t) + to_do s ≡ all_to_do workers + to_do t
all_to_do-set [] w s t at = cc
all_to_do-set (v ∷ workers) zero s t at = ground (arith, at)
all_to_do-set (v ∷ workers) (suc w) s t at = omega (arith, all_to_do-set workers w s t at)

pub all_to_do-replicate : (n : ℕ) → all_to_do (replicate n idle) ≡ n
all_to_do-replicate zero = refl
all_to_do-replicate (suc n) = omega (arith, all_to_do-replicate n)

module _ (f : Fetcher) (from count : ℕ) where
  -- How many actions can still follow.
  abbrev pub remaining : Pool → ℕ
  remaining p = 2 * (count - p.next) + all_to_do p.workers + if_true p.producing + if_none p.parent

  failed_less :
      (w i n : ℕ) (e : Error) (p : Pool)
      → get_elem? p.workers w ≡ some (fetching i n)
      → remaining (failed w e p) < remaining p
  failed_less w i n e p at = ground (arith, all_to_do-set p.workers w (fetching i n) stopped at)

  hand_less :
      (s : Option Worker) (w : ℕ) (p q : Pool)
      → get_elem? p.workers w ≡ s
      → hand_to f from count s w p ≡ some q
      → remaining q < remaining p
  hand_less none w p q at h = absurd (ground arith)
  hand_less (some stopped) w p q at h = absurd (ground arith)
  hand_less (some (fetching i n)) w p q at h = absurd (ground arith)
  hand_less (some idle) w p q at h = ground (
    arith,
    h,
    all_to_do-set p.workers w idle (fetching p.next ((from + p.next) % uint64_size)) at,
  )

  finish_less :
      (s : Option Worker) (w : ℕ) (p q : Pool)
      → get_elem? p.workers w ≡ s
      → finish_at f from count s w p ≡ some q
      → remaining q < remaining p
  finish_less none w p q at h = absurd (ground arith)
  finish_less (some stopped) w p q at h = absurd (ground arith)
  finish_less (some idle) w p q at h = absurd (ground arith)
  finish_less (some (fetching i n)) w p q at h = elim (Result-cases (fetch_block f n)) [
    | inl (b, is) ↦ ground (arith, h, is, all_to_do-set p.workers w (fetching i n) idle at)
    | inr (e, is) ↦ ground (arith, h, is, failed_less w i n e p at)
  ]

  quit_less :
      (s : Option Worker) (w : ℕ) (p q : Pool)
      → get_elem? p.workers w ≡ s
      → quit_at s w p ≡ some q
      → remaining q < remaining p
  quit_less none w p q at h = absurd (ground arith)
  quit_less (some stopped) w p q at h = absurd (ground arith)
  quit_less (some (fetching i n)) w p q at h = absurd (ground arith)
  quit_less (some idle) w p q at h = ground (arith, h, all_to_do-set p.workers w idle stopped at)

  interrupt_less :
      (s : Option Worker) (w : ℕ) (e : Error) (p q : Pool)
      → get_elem? p.workers w ≡ s
      → interrupt_at s w e p ≡ some q
      → remaining q < remaining p
  interrupt_less none w e p q at h = absurd (ground arith)
  interrupt_less (some stopped) w e p q at h = absurd (ground arith)
  interrupt_less (some idle) w e p q at h = absurd (ground arith)
  interrupt_less (some (fetching i n)) w e p q at h = ground (arith, h, failed_less w i n e p at)

  pub step_less :
      (a : Action) (p q : Pool) → step f from count a p ≡ some q → remaining q < remaining p
  unfolding step
  step_less (hand w) p q h = hand_less _ w p q refl h
  step_less (finish w) p q h = finish_less _ w p q refl h
  step_less (interrupt w e) p q h = interrupt_less _ w e p q refl h
  step_less (quit w) p q h = quit_less _ w p q refl h
  step_less close p q h = ground (arith, h)
  step_less (cancel e) p q h = ground (arith, h)

  pub run_bounded :
      (actions : List Action) (p q : Pool)
      → run f from count actions p ≡ some q
      → length actions + remaining q ≤ remaining p
  unfolding run
  run_bounded [] p q h = ground (arith, h)
  run_bounded (a ∷ actions) p q h = elim (Option-cases (step f from count a p)) [
    | inl stuck ↦ absurd (ground (arith, h, stuck))
    | inr (r, is) ↦
        omega (arith, step_less a p r is, run_bounded actions r q (ground (arith, h, is)))
  ]
