-- ===== src/Resilience.antt =====
-- shared/libs/go/resilience/retry.go and shared/libs/go/resilience/breaker.go. What an attempt, the
-- clock and the context do to the world `W` is up to the caller: `Runtime` has the context's error,
-- the wait of the select statement and math/rand. The state machine of the circuit breaker is
-- github.com/sony/gobreaker: its `Execute` is a parameter.
pub mod Attempts
pub mod Backoff
pub mod Outcome
use eventflow_commerce.Common.{
  ℕ, zero, suc, ◌+◌, ◌-◌, ◌^◌, Bool, true, false, ◌≡◌, ◌&&◌, Option, none, some, leb, ltb,
  if◌then◌else◌,
}
use eventflow_commerce.Common.Int.{ℤ, pos, ◌*ℤ◌, ◌+ℤ◌, leb_ℤ, ltb_ℤ, wrap64, pos_part}
use eventflow_commerce.Errors.{Error, Result, ok, err, breaker_open}

-- `RetryConfig`; durations are nanoseconds.
pub record RetryConfig : Type 0 where
  pub max_attempts : ℤ
  pub base_delay : ℤ
  pub max_delay : ℤ
  pub retryable : Option (Error → Bool)

-- `ctx.Err()`; the select of `ctx.Done()` and `time.After`, with the context's error when it won;
-- and `rand.Int63n`.
pub record Runtime (W : Type 0) : Type 0 where
  pub context_err : W → Option Error
  pub wait : ℤ → W → Option Error × W
  pub int63n : ℤ → W → ℤ

abbrev pub default_base_delay : ℤ
default_base_delay = pos 100000000

abbrev pub max_backoff_shift : ℕ
max_backoff_shift = 20

abbrev pub min_shift : ℕ → ℕ
min_shift n = if ltb max_backoff_shift n then max_backoff_shift else n

abbrev pub base_of : RetryConfig → ℤ
base_of cfg = if leb_ℤ cfg.base_delay (pos 0) then default_base_delay else cfg.base_delay

-- The product of `backoffDelay`, in 64 bits.
unfoldable pub raw_delay : RetryConfig → ℕ → ℤ
raw_delay cfg attempt = wrap64 (base_of cfg *ℤ pos (2 ^ min_shift (attempt - 1)))

-- `backoffDelay` up to the jitter
unfoldable pub capped_delay : RetryConfig → ℕ → ℤ
capped_delay cfg attempt =
    if ltb_ℤ (pos 0) cfg.max_delay && ltb_ℤ cfg.max_delay (raw_delay cfg attempt)
    then cfg.max_delay
    else raw_delay cfg attempt

-- `backoffDelay`, by what `rand.Int63n` returns for its argument
unfoldable pub backoff_delay : (ℤ → ℤ) → RetryConfig → ℕ → ℤ
backoff_delay draw cfg attempt =
    if leb_ℤ (capped_delay cfg attempt) (pos 0)
    then pos 0
    else draw (wrap64 (capped_delay cfg attempt +ℤ pos 1))

abbrev pub is_retried : Option (Error → Bool) → Error → Bool
is_retried none e = true
is_retried (some p) e = p e

-- The attempts that may follow the first.
abbrev pub further_attempts : ℤ → ℕ
further_attempts n = pos_part n - 1

-- A Go function that returns an error.
abbrev pub Call : Type 0 → Type 0
Call W = W → Result (Unit {0}) × W

module _ {W : Type 0} where
  -- The rest of an iteration, when the context is not done.
  abbrev pub unless_done : Option Error → Call W → W → Result (Unit {0}) × W
  unless_done none go w = go w
  unless_done (some e) go w = (err e, w)

  abbrev pub judged :
      (Error → Bool) → (Error → Call W) → Result (Unit {0}) × W → Result (Unit {0}) × W
  judged retried again (ok a, w) = (ok a, w)
  judged retried again (err e, w) = if retried e then again e w else (err e, w)

  abbrev pub after_wait : Call W → Option Error × W → Result (Unit {0}) × W
  after_wait next (none, w) = next w
  after_wait next (some e, w) = (err e, w)

  module _ (time : Runtime W) (cfg : RetryConfig) (fn : Call W) where
    -- One iteration of the loop; `again` is what follows an error that is retried.
    abbrev pub attempt_once : (Error → Call W) → Call W
    attempt_once again w =
        unless_done (time.context_err w) (λ v. judged (is_retried cfg.retryable) again (fn v)) w

    -- The loop of `Retry` from an attempt, with the number of attempts that may follow it.
    unfoldable pub retry_from : ℕ → ℕ → Call W
    retry_from attempt zero = attempt_once (λ e w. (err e, w))
    retry_from attempt (suc left) = attempt_once (λ e w.
        after_wait (retry_from (attempt + 1) left)
          (time.wait (backoff_delay (λ n. time.int63n n w) cfg attempt) w))

    -- `Retry`
    unfoldable pub retry : Call W
    retry = retry_from 1 (further_attempts cfg.max_attempts)

-- `ReadyToTrip` of `NewBreaker`, by the failure threshold and the consecutive failures
unfoldable pub ready_to_trip : ℕ → ℕ → Bool
ready_to_trip threshold failures = ltb 0 threshold && leb threshold failures

-- How `gobreaker.CircuitBreaker.Execute` comes back: rejected by one of its two errors, or with what
-- the function returned.
pub data Passage : Type 0 where
  open_state too_many_requests : Passage
  ran : Result (Unit {0}) → Passage

abbrev pub is_rejection : Passage → Bool
is_rejection (ran r) = false
is_rejection _ = true

-- `gobreaker.CircuitBreaker.Execute`, on the breaker's own state `B` and on what the function works on.
abbrev pub Breaker : Type 0 → Type 0 → Type 0
Breaker B V = Call V → B × V → Passage × (B × V)

module _ {B V : Type 0} where
  -- What its documentation says: the request is rejected and does not run, or its result is returned.
  pub data Passed (fn : Call V) (v : V) : Passage × (B × V) → Type 0 where
    turned_down : (p : Passage) (b : B) → is_rejection p ≡ true → Passed fn v (p, (b, v))
    passed : (b : B) → Passed fn v (ran (fn v).0, (b, (fn v).1))

  abbrev pub IsBreaker : Breaker B V → Type 0
  IsBreaker breaker = (fn : Call V) (b : B) (v : V) → Passed fn v (breaker fn (b, v))

  abbrev pub unwrapped : Passage × (B × V) → Result (Unit {0}) × (B × V)
  unwrapped (ran r, w) = (r, w)
  unwrapped (open_state, w) = (err breaker_open, w)
  unwrapped (too_many_requests, w) = (err breaker_open, w)

  -- `Execute`, for a function whose result is only an error
  unfoldable pub execute : Breaker B V → Call V → Call (B × V)
  execute breaker fn w = unwrapped (breaker fn w)
