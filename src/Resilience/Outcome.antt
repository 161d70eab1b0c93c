-- ===== src/Resilience/Outcome.antt =====
-- What a caller of `Retry` and of `Execute` may rely on.
use eventflow_commerce.Common.{
  ℕ, zero, suc, ◌+◌, ◌≤◌, ◌≡◌, refl, subst, Bool, Bool-cases, inl, inr, Option, none, some,
  Option-cases, arith,
}
use eventflow_commerce.Common.Int.{ℤ}
use eventflow_commerce.Errors.{Error, Result, ok, err, breaker_open}
use eventflow_commerce.Resilience.{
  Runtime, RetryConfig, Call, Breaker, IsBreaker, Passed, Passage, judged, after_wait, attempt_once,
  is_retried, further_attempts, backoff_delay, retry_from, retry, execute, unwrapped, ran,
  open_state, too_many_requests,
}

module _ {W : Type 0} (time : Runtime W) (cfg : RetryConfig) (fn : Call W) where
  module _ (size : W → ℕ) (grows : (w : W) → size (fn w).1 ≤ size w + 1)
      (stays : (d : ℤ) (w : W) → size (time.wait d w).1 ≡ size w) where
    judged_size :
        (retried : Error → Bool) (n : ℕ) (next : Error → Call W) (w : W) (o : Result (Unit {0}) × W)
        → size o.1 ≤ size w + 1
        → ((e : Error) (v : W) → size (next e v).1 ≤ size v + n)
        → size (judged retried next o).1 ≤ size w + suc n
    judged_size retried n next w (ok a, v) h f = omega arith
    judged_size retried n next w (err e, v) h f = elim (Bool-cases (retried e)) [
      | inl y ↦ rw y (omega (arith, f e v))
      | inr y ↦ rw y (omega arith)
    ]

    attempt_once_size :
        (n : ℕ) (next : Error → Call W) (w : W)
        → ((e : Error) (v : W) → size (next e v).1 ≤ size v + n)
        → size (attempt_once time cfg fn next w).1 ≤ size w + suc n
    attempt_once_size n next w f = elim (Option-cases (time.context_err w)) [
      | inl e ↦ rw e (judged_size (is_retried cfg.retryable) n next w (fn w) (grows w) f)
      | inr (cause, e) ↦ rw e (omega arith)
    ]

    after_wait_size :
        (n : ℕ) (next : Call W) (v : W) (o : Option Error × W)
        → size o.1 ≡ size v
        → ((u : W) → size (next u).1 ≤ size u + n)
        → size (after_wait next o).1 ≤ size v + n
    after_wait_size n next v (none, u) h f = omega (arith, f u)
    after_wait_size n next v (some e, u) h f = omega arith

    retry_from_size :
        (attempt left : ℕ) (w : W)
        → size (retry_from time cfg fn attempt left w).1 ≤ size w + suc left
    unfolding retry_from
    retry_from_size attempt zero w = attempt_once_size 0 _ w (λ e v. omega arith)
    retry_from_size attempt (suc left) w = attempt_once_size (suc left) _ w (λ e v.
        after_wait_size (suc left) _ v
          (time.wait (backoff_delay (λ n. time.int63n n v) cfg attempt) v) (stays _ v)
          (λ u. retry_from_size (attempt + 1) left u))

    -- What grows by at most one with each call grows by at most the configured attempts.
    pub retry_size :
        (w : W) → size (retry time cfg fn w).1 ≤ size w + suc (further_attempts cfg.max_attempts)
    unfolding retry
    retry_size w = retry_from_size 1 (further_attempts cfg.max_attempts) w

  module _ (Q : W → Type 0) (post : (w : W) → (fn w).0 ≡ ok tt → Q (fn w).1) where
    judged_ok :
        (retried : Error → Bool) (next : Error → Call W) (w : W) (o : Result (Unit {0}) × W)
        → fn w ≡ o
        → ((e : Error) (v : W) → (next e v).0 ≡ ok tt → Q (next e v).1)
        → (judged retried next o).0 ≡ ok tt
        → Q (judged retried next o).1
    judged_ok retried next w (ok a, v) e f = subst (λ o. o.0 ≡ ok tt → Q o.1) e (post w)
    judged_ok retried next w (err e, v) p f = elim (Bool-cases (retried e)) [
      | inl y ↦ rw y (f e v)
      | inr y ↦ rw y (λ h. absurd (cc))
    ]

    attempt_once_ok :
        (next : Error → Call W) (w : W)
        → ((e : Error) (v : W) → (next e v).0 ≡ ok tt → Q (next e v).1)
        → (attempt_once time cfg fn next w).0 ≡ ok tt
        → Q (attempt_once time cfg fn next w).1
    attempt_once_ok next w f = elim (Option-cases (time.context_err w)) [
      | inl e ↦ rw e (judged_ok (is_retried cfg.retryable) next w (fn w) refl f)
      | inr (cause, e) ↦ rw e (λ h. absurd (cc))
    ]

    after_wait_ok :
        (next : Call W) (o : Option Error × W)
        → ((u : W) → (next u).0 ≡ ok tt → Q (next u).1)
        → (after_wait next o).0 ≡ ok tt
        → Q (after_wait next o).1
    after_wait_ok next (none, u) f = f u
    after_wait_ok next (some e, u) f = λ h. absurd (cc)

    retry_from_ok :
        (attempt left : ℕ) (w : W)
        → (retry_from time cfg fn attempt left w).0 ≡ ok tt
        → Q (retry_from time cfg fn attempt left w).1
    unfolding retry_from
    retry_from_ok attempt zero w = attempt_once_ok _ w (λ e v h. absurd (cc))
    retry_from_ok attempt (suc left) w = attempt_once_ok _ w (λ e v.
        after_wait_ok _ (time.wait (backoff_delay (λ n. time.int63n n v) cfg attempt) v)
          (λ u. retry_from_ok (attempt + 1) left u))

    -- A success is the success of a call, and the world is as that call left it.
    pub retry_ok : (w : W) → (retry time cfg fn w).0 ≡ ok tt → Q (retry time cfg fn w).1
    unfolding retry
    retry_ok w = retry_from_ok 1 (further_attempts cfg.max_attempts) w

module _ {B V : Type 0} (breaker : Breaker B V) (fn : Call V) (lawful : IsBreaker breaker) where
  unwrapped_lem :
      (Q : Result (Unit {0}) → V → Type 0) (v : V) (o : Passage × (B × V))
      → Passed fn v o
      → Q (err breaker_open) v
      → Q (fn v).0 (fn v).1
      → Q (unwrapped o).0 (unwrapped o).1.1
  unwrapped_lem Q v o (Passed.turned_down (ran r) b h) q p = absurd (cc)
  unwrapped_lem Q v o (Passed.turned_down open_state b h) q p = q
  unwrapped_lem Q v o (Passed.turned_down too_many_requests b h) q p = q
  unwrapped_lem Q v o (Passed.passed b) q p = p

  -- What holds after the call and after a rejection holds after `Execute`.
  pub execute_lem :
      (Q : Result (Unit {0}) → V → Type 0) (b : B) (v : V)
      → Q (err breaker_open) v
      → Q (fn v).0 (fn v).1
      → Q (execute breaker fn (b, v)).0 (execute breaker fn (b, v)).1.1
  unfolding execute
  execute_lem Q b v q p = unwrapped_lem Q v (breaker fn (b, v)) (lawful fn b v) q p
