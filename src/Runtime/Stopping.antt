-- ===== src/Runtime/Stopping.antt =====
-- How the services of the process stop.
use ethindexer.Common.{
  ◌≡◌, refl, inl, inr, List, [], ◌∷◌, Option, none, some, true, false, ◌||◌, is_some, arith,
  Option-cases, Bool-cases, subst, ◌⊎◌, ◌≢◌,
}
use ethindexer.Failure.{Error}
use ethindexer.Runtime.{
  Services, Action, end_caller, indexer_returns, http_returns, shutdown_returns, indexer_result,
  http_result, shutdown_result, returned, step, run, start, wait,
}

-- The group's context has ended if a goroutine has returned, and only by the caller or by an error.
record Inv (s : Services) : Type 0 where
  done_ends : (s.indexer_done || (s.http_done || s.shutdown_done)) ≡ true → is_some s.group ≡ true
  cause : is_some s.group ≡ true → (is_some s.caller || is_some s.first) ≡ true

-- The same of the state without the goroutine's own flag.
HasCause : Services → Type 0
HasCause s = is_some s.group ≡ true → (is_some s.caller || is_some s.first) ≡ true

returned-Inv :
    (r : Option Error) (s : Services)
    → (is_some r || is_some s.group) ≡ true
    → HasCause s
    → Inv (returned r s)
unfolding HasCause
returned-Inv none s ended cause = record { done_ends = λ d. ended; cause = cause }
returned-Inv (some e) s ended cause = elim (Option-cases s.first) [
  | inl new ↦ record {
    done_ends = λ d. elim (Option-cases s.group) [
      | inl alive ↦ ground (arith, alive)
      | inr (x, is) ↦ ground (arith, is)
    ];
    cause = λ g. ground (arith, new);
  }
  | inr (x, old) ↦ record {
    done_ends = λ d. elim (Option-cases s.group) [
      | inl alive ↦ ground (arith, alive)
      | inr (y, is) ↦ ground (arith, is)
    ];
    cause = λ g. ground (arith, old);
  }
]

indexer_result_ended :
    (group r : Option Error) → (is_some (indexer_result group r) || is_some group) ≡ true
unfolding indexer_result
indexer_result_ended none none = refl
indexer_result_ended none (some e) = refl
indexer_result_ended (some x) none = refl
indexer_result_ended (some x) (some e) = ground arith

http_result_ended :
    (group r : Option Error) → (is_some (http_result group r) || is_some group) ≡ true
unfolding http_result
http_result_ended group none = refl
http_result_ended none (some e) = ground arith
http_result_ended (some x) (some e) = ground arith

step-Inv : (action : Action) (s s' : Services) → Inv s → step action s ≡ some s' → Inv s'
unfolding step HasCause
step-Inv (end_caller e) s s' inv h = elim (Option-cases s.group) [
  | inl alive ↦ record { done_ends = λ d. ground (arith, h, alive); cause = λ g. ground (arith, h) }
  | inr (x, is) ↦ record { done_ends = λ d. ground (arith, h, is); cause = λ g. ground (arith, h) }
]
step-Inv (indexer_returns r) s s' inv h =
    subst Inv {x = returned (indexer_result s.group r) (record s { indexer_done = true })}
      (ground (arith, h))
      (returned-Inv (indexer_result s.group r) (record s { indexer_done = true })
        (indexer_result_ended s.group r) inv.cause)
step-Inv (http_returns r) s s' inv h =
    subst Inv {x = returned (http_result s.group r) (record s { http_done = true })}
      (ground (arith, h))
      (returned-Inv (http_result s.group r) (record s { http_done = true })
        (http_result_ended s.group r) inv.cause)
step-Inv (shutdown_returns r) s s' inv h =
    subst Inv {x = returned (shutdown_result r) (record s { shutdown_done = true })}
      (ground (arith, h))
      (returned-Inv (shutdown_result r) (record s { shutdown_done = true }) (ground (arith, h))
        inv.cause)

run-Inv : (actions : List Action) (s s' : Services) → Inv s → run actions s ≡ some s' → Inv s'
unfolding run
run-Inv [] s s' inv h = subst Inv {x = s} (ground (arith, h)) inv
run-Inv (action ∷ actions) s s' inv h = elim (Option-cases (step action s)) [
  | inl stuck ↦ absurd (ground (arith, h, stuck))
  | inr (s₁, moved) ↦
      run-Inv actions s₁ s' (step-Inv action s s₁ inv moved) (ground (arith, h, moved))
]

start-Inv : Inv start
start-Inv = record { done_ends = λ d. ground (arith, d); cause = λ g. ground (arith, g) }

-- In whatever order the goroutines of `runServices` return: once the indexer or the HTTP server has
-- stopped, the group's context has ended, so that the other one is told to stop and the shutdown
-- begins; and `runServices` returns nil only if the caller's context has ended.
pub run_services_stops :
    (actions : List Action) (s : Services)
    → run actions start ≡ some s
    → (((s.indexer_done || s.http_done) ≡ false) ⊎ (is_some s.group ≡ true))
      × ((wait s ≢ some none) ⊎ (is_some s.caller ≡ true))
unfolding wait
run_services_stops actions s h =
    let inv = run-Inv actions start s start-Inv h in
    (
      elim (Bool-cases (s.indexer_done || s.http_done)) [
        | inr neither ↦ inl neither
        | inl one ↦ inr (ground (arith, one, inv.done_ends))
      ],
      elim (Bool-cases (is_some s.caller)) [
        | inl ended ↦ inr ended
        | inr alive ↦ inl (λ w. ground (arith, alive, w, inv.done_ends, inv.cause))
      ],
    )
