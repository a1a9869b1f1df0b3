-- ===== src/Failure.antt =====
-- Go's error values: the sentinels of internal/store/errors.go, internal/indexer/errors.go,
-- internal/service/errors.go, internal/ethereum/errors.go and internal/server, and what wraps them.
-- `fmt.Errorf("…: %w", err)` adds text and keeps the identity of `err`, so it is `err` here;
-- `fmt.Errorf("%w …: %w", a, b)` is `joined a b`. The texts are left out.
use ethindexer.Common.{ℕ, Bool, true, false, ◌||◌, ◌⊎◌, inl, inr, Option, none, some, ◌≡◌, refl}

pub data Error : Type 0 where
  -- internal/store/errors.go
  not_found invalid_canonical_update invalid_query stale_cursor inconsistent_data : Error
  -- internal/indexer/errors.go
  inconsistent_block_data invalid_low_fetch_range invalid_large_fetch_range : Error
  invalid_sync_config invalid_sync_dependency head_changed sync_retries_exhausted : Error
  -- internal/ethereum/errors.go
  unexpected_chain_id : Error
  -- internal/service/errors.go
  service_not_found service_invalid_query service_stale_cursor not_ready : Error
  -- internal/server/events.go and internal/server/transactions.go
  invalid_event_address invalid_event_limit invalid_event_cursor : Error
  invalid_transaction_hash missing_transaction_value : Error
  -- `strconv.ErrSyntax` and `strconv.ErrRange`
  syntax out_of_range : Error
  -- cmd/indexer/runtime.go: a service that stopped by itself, and `http.ErrServerClosed`
  indexer_stopped http_stopped server_closed : Error
  -- a panic, which ends the call as an error does
  panicked : Error
  -- `context.Canceled` and `context.DeadlineExceeded`
  canceled deadline_exceeded : Error
  -- an error of an RPC endpoint, a database or another library, by a number that tells it apart
  foreign : ℕ → Error
  joined : Error → Error → Error

pub data Result {ℓ} (A : Type ℓ) : Type ℓ where
  err : Error → Result A
  ok : A → Result A

infixl 5 ◌>>=◌ ◌>>◌
-- `if err != nil { return err }`, and else the rest of the function.
abbrev pub ◌>>=◌ {ℓ κ} : {B : Type κ} {A : Type ℓ} → Result A → (A → Result B) → Result B
err failure >>= rest = err failure
ok value >>= rest = rest value

-- `if !test { return err }`
abbrev pub guard : Bool → Error → Result (Unit {0})
guard false failure = err failure
guard true failure = ok tt

abbrev pub ◌>>◌ {ℓ} : {B : Type ℓ} → Result (Unit {0}) → Result B → Result B
check >> rest = check >>= (λ done. rest)

-- The state of a `context.Context` at the moment a call reads it: what `ctx.Err()` returns.
abbrev pub Context : Type 0
Context = Option Error

-- `if err := ctx.Err(); err != nil { return err }`
abbrev pub alive : Context → Result (Unit {0})
alive none = ok tt
alive (some e) = err e

-- `errors.Is` at a sentinel, given by its test.
module _ (sentinel : Error → Bool) where
  unfoldable pub matches : Error → Bool
  matches (joined a b) = matches a || matches b
  matches e = sentinel e

module _ {ℓ κ} {A : Type ℓ} {B : Type κ} where
  -- Inversion of a successful bind.
  pub >>=-eq-ok :
      (m : Result A) (rest : A → Result B) {b : B}
      → (m >>= rest) ≡ ok b
      → (a : A) × (m ≡ ok a) × (rest a ≡ ok b)
  >>=-eq-ok (err e) rest h = cc
  >>=-eq-ok (ok value) rest h = (value, refl, h)

-- What follows a guard is reached only if its test holds.
pub guard-eq-ok {ℓ} :
    {B : Type ℓ} (t : Bool) (e : Error) (m : Result B) {b : B}
    → (guard t e >> m) ≡ ok b
    → (t ≡ true) × (m ≡ ok b)
guard-eq-ok true e m h = (refl, h)
guard-eq-ok false e m h = cc

pub Result-cases {ℓ} :
    {A : Type ℓ} (r : Result A) → ((a : A) × (r ≡ ok a)) ⊎ ((e : Error) × (r ≡ err e))
Result-cases (ok a) = inl (a, refl)
Result-cases (err e) = inr (e, refl)

pub ok_inj {ℓ} : {A : Type ℓ} (a b : A) → ok a ≡ ok b → a ≡ b
ok_inj a b h = cc
