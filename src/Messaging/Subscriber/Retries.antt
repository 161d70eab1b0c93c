-- ===== src/Messaging/Subscriber/Retries.antt =====
-- How often the subscriber calls the handler.
use eventflow_commerce.Common.{
  ℕ, zero, suc, ◌+◌, ◌≤◌, ◌≡◌, refl, Bool-cases, inl, inr, Option, none, some, List, [], ◌∷◌,
  length, String, arith,
}
use eventflow_commerce.Errors.{Error, Result, ok, err, Result-cases}
use eventflow_commerce.Messaging.Publisher.{KafkaEvent, KafkaMessage}
use eventflow_commerce.Messaging.Subscriber.{
  Effect, handled, Outside, Subscriber, commit, wait, retry_loop, handle_with_retry, send_to_dlq,
  handle_failure, process_message, after_wait, commit_if, finished, handle_unmarshalled,
  call_handler, with_error_type,
}

-- The calls of the handler.
abbrev pub handler_calls : {D V : Type 0} → List (Effect D V) → ℕ
handler_calls [] = 0
handler_calls (handled e r ∷ t) = suc (handler_calls t)
handler_calls (_ ∷ t) = handler_calls t

module _ {D V : Type 0} (out : Outside D V) (s : Subscriber) where
  after_wait_calls :
      (n : ℕ) (next : List (Effect D V) → Result (Unit {0}) × List (Effect D V))
      (t : List (Effect D V)) (o : Option Error × List (Effect D V))
      → handler_calls o.1 ≡ handler_calls t
      → ((u : List (Effect D V)) → handler_calls (next u).1 ≤ handler_calls u + n)
      → handler_calls (after_wait out s next o).1 ≤ handler_calls t + n
  after_wait_calls n next t (none, u) h f = omega (arith, f u)
  after_wait_calls n next t (some e, u) h f = omega arith

  retry_loop_calls :
      (e : KafkaEvent D) (attempt left : ℕ) (o : Result (Unit {0}) × List (Effect D V))
      → handler_calls (retry_loop out s e attempt left o).1 ≤ handler_calls o.1 + left
  unfolding retry_loop wait
  retry_loop_calls e attempt left (ok a, t) = omega arith
  retry_loop_calls e attempt zero (err x, t) = omega arith
  retry_loop_calls e attempt (suc left) (err x, t) =
      after_wait_calls (suc left) _ t (wait out s _ t) refl
        (λ u. omega (arith, retry_loop_calls e (attempt + 1) left (call_handler out e u)))

  handle_failure_calls :
      (m : KafkaMessage V) (text : String) (t : List (Effect D V))
      → handler_calls (handle_failure out s m text t) ≡ handler_calls t
  unfolding handle_failure send_to_dlq commit
  handle_failure_calls m text t = elim (Bool-cases s.has_dlq_writer) [
    | inl y ↦ elim (Result-cases (out.write_dlq (with_error_type out text m) (length t))) [
      | inl (a, p) ↦ rw (y, p, commit_if) refl
      | inr (x, p) ↦ rw (y, p, commit_if) refl
    ]
    | inr n ↦ rw (n, commit_if) refl
  ]

  finished_calls :
      (m : KafkaMessage V) (o : Result (Unit {0}) × List (Effect D V))
      → handler_calls (finished out s m o) ≡ handler_calls o.1
  unfolding commit
  finished_calls m (ok a, t) = refl
  finished_calls m (err e, t) = handle_failure_calls m "handler_error" t

  handle_unmarshalled_calls :
      (m : KafkaMessage V) (o : Option (KafkaEvent D)) (t : List (Effect D V))
      → handler_calls (handle_unmarshalled out s m o t) ≤ handler_calls t + suc s.max_retries
  unfolding handle_with_retry
  handle_unmarshalled_calls m none t = omega (arith, handle_failure_calls m "unmarshal_error" t)
  handle_unmarshalled_calls m (some e) t =
      rw (finished_calls m (handle_with_retry out s e t))
        (omega (arith, retry_loop_calls e 1 s.max_retries (call_handler out e t)))

  -- For one message the handler is called at most once more than the configured retries, whatever it
  -- returns.
  pub process_message_calls :
      (m : KafkaMessage V) (t : List (Effect D V))
      → handler_calls (process_message out s m t) ≤ handler_calls t + suc s.max_retries
  unfolding process_message
  process_message_calls m t = handle_unmarshalled_calls m (out.unmarshal m.value) t
