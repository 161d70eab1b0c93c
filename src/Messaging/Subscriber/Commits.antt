-- ===== src/Messaging/Subscriber/Commits.antt =====
-- When the subscriber commits the offset of a message.
use eventflow_commerce.Common.{
  ℕ, zero, suc, ◌+◌, ◌≡◌, refl, sym, ◌∙◌, ◌⊎◌, String, ap, true, false, Bool-cases, inl, inr,
  Option, none, some, List, [], ◌∷◌, length,
}
use eventflow_commerce.Errors.{Error, Result, ok, err, Result-cases}
use eventflow_commerce.Messaging.Publisher.{KafkaEvent, KafkaMessage}
use eventflow_commerce.Messaging.Subscriber.{
  Effect, fetched, rejected, handled, dead_lettered, committed, Fetched, message, failed, stopped,
  Outside, Subscriber, commit, wait, retry_loop, handle_with_retry, send_to_dlq, handle_failure,
  with_error_type, process_message, subscribe, after_wait, commit_if, finished, handle_unmarshalled,
  call_handler,
}

pub Fetched-cases :
    {V : Type 0} (f : Fetched V)
    → ((m : KafkaMessage V) × (f ≡ message m)) ⊎ ((f ≡ failed) ⊎ ((e : Error) × (f ≡ stopped e)))
Fetched-cases (message m) = inl (m, refl)
Fetched-cases failed = inr (inl refl)
Fetched-cases (stopped e) = inr (inr (e, refl))

module _ {D V : Type 0} (out : Outside D V) where
  -- The call before a commit: the handler returned no error for the event of the message, or the
  -- dead letter topic accepted the message.
  abbrev pub IsEarned : KafkaMessage V → List (Effect D V) → Type 0
  IsEarned m (handled e (ok _) ∷ t) = out.unmarshal m.value ≡ some e
  IsEarned m (dead_lettered k (ok _) ∷ t) = k.value ≡ m.value
  IsEarned m _ = true ≡ false

  -- Every commit was earned.
  abbrev pub IsSafe : List (Effect D V) → Type 0
  IsSafe [] = Unit
  IsSafe (committed m r ∷ t) = IsEarned m t × IsSafe t
  IsSafe (_ ∷ t) = IsSafe t

  module _ (s : Subscriber) where
    -- After the handler's last call: no error, and then that call stands at the end of the trace.
    abbrev HasHandled : KafkaEvent D → Result (Unit {0}) × List (Effect D V) → Type 0
    HasHandled e (ok _, handled f (ok _) ∷ t) = (f ≡ e) × IsSafe t
    HasHandled e (ok _, _) = true ≡ false
    HasHandled e (err _, t) = IsSafe t

    call_handler-HasHandled :
        (e : KafkaEvent D) (t : List (Effect D V)) → IsSafe t → HasHandled e (call_handler out e t)
    call_handler-HasHandled e t h = elim (Result-cases (out.handler e (length t))) [
      | inl (a, p) ↦ rw p (refl, h)
      | inr (x, p) ↦ rw p h
    ]

    after_wait-HasHandled :
        (e : KafkaEvent D) (next : List (Effect D V) → Result (Unit {0}) × List (Effect D V))
        (o : Option Error × List (Effect D V))
        → IsSafe o.1
        → ((u : List (Effect D V)) → IsSafe u → HasHandled e (next u))
        → HasHandled e (after_wait out s next o)
    after_wait-HasHandled e next (none, t) h f = f t h
    after_wait-HasHandled e next (some x, t) h f = h

    retry_loop-HasHandled :
        (e : KafkaEvent D) (attempt left : ℕ) (o : Result (Unit {0}) × List (Effect D V))
        → HasHandled e o
        → HasHandled e (retry_loop out s e attempt left o)
    unfolding retry_loop wait
    retry_loop-HasHandled e attempt left (ok a, t) h = h
    retry_loop-HasHandled e attempt zero (err x, t) h = h
    retry_loop-HasHandled e attempt (suc left) (err x, t) h =
        after_wait-HasHandled e _ (wait out s _ t) h (λ u k.
          retry_loop-HasHandled e (attempt + 1) left (call_handler out e u)
            (call_handler-HasHandled e u k))

    handle_failure-IsSafe :
        (m : KafkaMessage V) (text : String) (t : List (Effect D V))
        → IsSafe t
        → IsSafe (handle_failure out s m text t)
    unfolding handle_failure send_to_dlq commit
    handle_failure-IsSafe m text t h = elim (Bool-cases s.has_dlq_writer) [
      | inl y ↦ elim (Result-cases (out.write_dlq (with_error_type out text m) (length t))) [
        | inl (a, p) ↦ rw (y, p, commit_if) (refl, h)
        | inr (x, p) ↦ rw (y, p, commit_if) h
      ]
      | inr n ↦ rw (n, commit_if) h
    ]

    finished-IsSafe :
        (m : KafkaMessage V) (e : KafkaEvent D) (o : Result (Unit {0}) × List (Effect D V))
        → out.unmarshal m.value ≡ some e
        → HasHandled e o
        → IsSafe (finished out s m o)
    unfolding commit
    finished-IsSafe m e (ok a, handled f (ok b) ∷ t) p h = (p ∙ ap some (sym h.0), h.1)
    finished-IsSafe m e (ok a, t) p h = absurd (cc)
    finished-IsSafe m e (err x, t) p h = handle_failure-IsSafe m "handler_error" t h

    handle_unmarshalled-IsSafe :
        (m : KafkaMessage V) (o : Option (KafkaEvent D)) (t : List (Effect D V))
        → out.unmarshal m.value ≡ o
        → IsSafe t
        → IsSafe (handle_unmarshalled out s m o t)
    unfolding handle_with_retry
    handle_unmarshalled-IsSafe m none t p h = handle_failure-IsSafe m "unmarshal_error" t h
    handle_unmarshalled-IsSafe m (some e) t p h =
        finished-IsSafe m e (handle_with_retry out s e t) p (
          retry_loop-HasHandled e 1 s.max_retries (call_handler out e t)
            (call_handler-HasHandled e t h))

    process_message-IsSafe :
        (m : KafkaMessage V) (t : List (Effect D V)) → IsSafe t → IsSafe (process_message out s m t)
    unfolding process_message
    process_message-IsSafe m t h = handle_unmarshalled-IsSafe m (out.unmarshal m.value) t refl h

    -- However long Subscribe runs, and whatever it is answered, it commits the offset of a message
    -- only directly after the handler returned no error for the event of that message, or the dead
    -- letter topic accepted that message.
    pub subscribe-IsSafe :
        (n : ℕ) (t : List (Effect D V)) → IsSafe t → IsSafe (subscribe out s n t).1
    unfolding subscribe
    subscribe-IsSafe zero t h = h
    subscribe-IsSafe (suc n) t h = elim (Fetched-cases (out.fetch (length t))) [
      | inl (m, e) ↦
          rw (subscribe, e)
            (subscribe-IsSafe n (process_message out s m (fetched m ∷ t))
              (process_message-IsSafe m (fetched m ∷ t) h))
      | inr (inl e) ↦ rw (subscribe, e) (subscribe-IsSafe n (rejected ∷ t) h)
      | inr (inr (x, e)) ↦ rw (subscribe, e) h
    ]
