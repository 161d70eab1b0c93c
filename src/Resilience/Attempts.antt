-- ===== src/Resilience/Attempts.antt =====
-- How the loop of `Retry` runs: which attempts it makes, and how it ends.
use eventflow_commerce.Common.{
  ℕ, zero, suc, ◌+◌, ◌≤◌, ◌≡◌, refl, sym, ap, subst, ◌∙◌, Bool, true, false, Bool-cases, inl, inr,
  Option, none, some, Option-cases, List, [], ◌∷◌, ◌++◌, length, arith,
}
use mathlib.Core.List.{append_assoc, append-nil}
use eventflow_commerce.Common.Int.{ℤ}
use eventflow_commerce.Errors.{Error, Result, ok, err}
use eventflow_commerce.Resilience.{
  Runtime, RetryConfig, Call, judged, after_wait, attempt_once, is_retried, further_attempts,
  backoff_delay, retry_from, retry,
}

abbrev pub Reported : Type 0
Reported = Result (Unit {0})

module _ {W : Type 0} (time : Runtime W) (fn : Call W) (retried : Error → Bool) where
  -- How a loop of at most so many attempts runs from a world: its result, and what its attempts
  -- returned. An attempt is made unless the context is done.
  pub data Course : ℕ → W → Reported → List Reported → Type 0 where
    -- The context is done before an attempt.
    not_begun :
        (n : ℕ) (w : W) (cause : Error)
        → time.context_err w ≡ some cause
        → Course n w (err cause) []
    succeeded :
        (n : ℕ) (w : W)
        → time.context_err w ≡ none
        → (fn w).0 ≡ ok tt
        → Course (suc n) w (ok tt) (ok tt ∷ [])
    -- The error is not one that is retried.
    rejected :
        (n : ℕ) (w : W) (e : Error)
        → time.context_err w ≡ none
        → (fn w).0 ≡ err e
        → retried e ≡ false
        → Course (suc n) w (err e) (err e ∷ [])
    -- No attempt is left.
    exhausted :
        (w : W) (e : Error)
        → time.context_err w ≡ none
        → (fn w).0 ≡ err e
        → retried e ≡ true
        → Course 1 w (err e) (err e ∷ [])
    -- The context is done while the loop waits for another attempt.
    interrupted :
        (n : ℕ) (w : W) (e cause : Error) (delay : ℤ)
        → time.context_err w ≡ none
        → (fn w).0 ≡ err e
        → retried e ≡ true
        → (time.wait delay (fn w).1).0 ≡ some cause
        → Course (suc (suc n)) w (err cause) (err e ∷ [])
    again :
        (n : ℕ) (w : W) (e : Error) (delay : ℤ) (r : Reported) (tries : List Reported)
        → time.context_err w ≡ none
        → (fn w).0 ≡ err e
        → retried e ≡ true
        → (time.wait delay (fn w).1).0 ≡ none
        → Course (suc n) (time.wait delay (fn w).1).1 r tries
        → Course (suc (suc n)) w r (err e ∷ tries)

  pub Course-length :
      (n : ℕ) (w : W) (r : Reported) (tries : List Reported) → Course n w r tries → length tries ≤ n
  Course-length n w r tries (Course.not_begun _ _ cause c) = omega arith
  Course-length n w r tries (Course.succeeded m _ c h) = omega arith
  Course-length n w r tries (Course.rejected m _ e c h k) = omega arith
  Course-length n w r tries (Course.exhausted _ e c h k) = omega arith
  Course-length n w r tries (Course.interrupted m _ e cause d c h k l) = omega arith
  Course-length n w r tries (Course.again m _ e d s rest c h k l rec) =
      omega (arith, Course-length (suc m) (time.wait d (fn w).1).1 s rest rec)

module _ {W : Type 0} where
  -- `record_of` lists what the calls of `fn` returned; waiting calls nothing.
  pub record IsRecord (time : Runtime W) (fn : Call W) (record_of : W → List Reported)
      : Type 0 where
    pub calls : (w : W) → record_of (fn w).1 ≡ record_of w ++ (fn w).0 ∷ []
    pub waits : (d : ℤ) (w : W) → record_of (time.wait d w).1 ≡ record_of w

  module _ (time : Runtime W) (cfg : RetryConfig) (fn : Call W)
      (record_of : W → List Reported) where
    -- A run of at most so many attempts, and what it added to the record.
    abbrev pub Ends : ℕ → W → Reported × W → Type 0
    Ends n w o =
        (tries : List Reported) × (record_of o.1 ≡ record_of w ++ tries)
        × Course time fn (is_retried cfg.retryable) n w o.0 tries

    -- What follows an attempt that failed with an error that is retried.
    abbrev Follows : ℕ → W → Error → Reported × W → Type 0
    Follows n w e o =
        (rest : List Reported) × (record_of o.1 ≡ record_of (fn w).1 ++ rest)
        × Course time fn (is_retried cfg.retryable) n w o.0 (err e ∷ rest)

    judged-Ends :
        (n : ℕ) (next : Error → Call W) (w : W) (o : Reported × W)
        → fn w ≡ o
        → time.context_err w ≡ none
        → record_of o.1 ≡ record_of w ++ o.0 ∷ []
        → ((e : Error)
            → (fn w).0 ≡ err e
            → is_retried cfg.retryable e ≡ true
            → Follows (suc n) w e (next e (fn w).1))
        → Ends (suc n) w (judged (is_retried cfg.retryable) next o)
    judged-Ends n next w (ok a, v) q c h f =
        (ok tt ∷ [], h, Course.succeeded n w c (ap (λ (p : Reported × W). p.0) q))
    judged-Ends n next w (err e, v) q c h f = elim (Bool-cases (is_retried cfg.retryable e)) [
      | inl y ↦
          let k : Follows (suc n) w e (next e v) =
            subst (λ (p : Reported × W). Follows (suc n) w e (next e p.1)) q
              (f e (ap (λ (p : Reported × W). p.0) q) y) in
          let same : record_of (fn w).1 ≡ record_of w ++ err e ∷ [] =
            ap (λ (p : Reported × W). record_of p.1) q ∙ h in
          rw y (err e ∷ k.0, k.1 ∙ rw same (append_assoc (record_of w) (err e ∷ []) k.0), k.2)
      | inr y ↦ rw y (err e ∷ [], h, Course.rejected n w e c (ap (λ (p : Reported × W). p.0) q) y)
    ]

    attempt_once-Ends :
        (n : ℕ) (next : Error → Call W) (w : W)
        → IsRecord time fn record_of
        → ((e : Error)
            → time.context_err w ≡ none
            → (fn w).0 ≡ err e
            → is_retried cfg.retryable e ≡ true
            → Follows (suc n) w e (next e (fn w).1))
        → Ends (suc n) w (attempt_once time cfg fn next w)
    attempt_once-Ends n next w h f = elim (Option-cases (time.context_err w)) [
      | inl e ↦ rw e (judged-Ends n next w (fn w) refl e (h.calls w) (λ x. f x e))
      | inr (cause, e) ↦
          rw e ([], sym (append-nil (record_of w)), Course.not_begun (suc n) w cause e)
    ]

    after_wait-Follows :
        (n : ℕ) (next : Call W) (e : Error) (w : W) (delay : ℤ) (o : Option Error × W)
        → time.wait delay (fn w).1 ≡ o
        → time.context_err w ≡ none
        → (fn w).0 ≡ err e
        → is_retried cfg.retryable e ≡ true
        → record_of o.1 ≡ record_of (fn w).1
        → ((u : W) → Ends (suc n) u (next u))
        → Follows (suc (suc n)) w e (after_wait next o)
    after_wait-Follows n next e w delay (none, u) q c x y h f =
        let k : Ends (suc n) u (next u) = f u in
        (
          k.0,
          rw (k.1, h) refl,
          Course.again n w e delay (next u).0 k.0 c x y (ap (λ (p : Option Error × W). p.0) q) (
              subst (λ v. Course time fn (is_retried cfg.retryable) (suc n) v (next u).0 k.0)
                (sym (ap (λ (p : Option Error × W). p.1) q)) k.2),
        )
    after_wait-Follows n next e w delay (some cause, u) q c x y h f = (
      [],
      h ∙ sym (append-nil (record_of (fn w).1)),
      Course.interrupted n w e cause delay c x y (ap (λ (p : Option Error × W). p.0) q),
    )

    retry_from-Ends :
        (attempt left : ℕ) (w : W)
        → IsRecord time fn record_of
        → Ends (suc left) w (retry_from time cfg fn attempt left w)
    unfolding retry_from
    retry_from-Ends attempt zero w h =
        attempt_once-Ends 0 (λ e v. (err e, v)) w h
          (λ e c x y. ([], sym (append-nil (record_of (fn w).1)), Course.exhausted w e c x y))
    retry_from-Ends attempt (suc left) w h = attempt_once-Ends (suc left) _ w h (λ e c x y.
        let delay = backoff_delay (λ n. time.int63n n (fn w).1) cfg attempt in
        after_wait-Follows left (retry_from time cfg fn (attempt + 1) left) e w delay
          (time.wait delay (fn w).1) refl c x y (h.waits delay (fn w).1)
          (λ u. retry_from-Ends (attempt + 1) left u h))

    -- Retry calls the function at most as often as configured, and at least once unless the context
    -- is done: then it makes no call and returns the context's error. After a call that succeeds it
    -- returns the success; after an error that is not retried, or with no attempt left, that error;
    -- else it waits, and returns the context's error if the context is done meanwhile, or goes on
    -- in the same way. This holds if a record of the calls is kept that waiting does not change.
    pub retry-Ends :
        (w : W)
        → IsRecord time fn record_of
        → Ends (suc (further_attempts cfg.max_attempts)) w (retry time cfg fn w)
    unfolding retry
    retry-Ends w h = retry_from-Ends 1 (further_attempts cfg.max_attempts) w h
