-- ===== src/Messaging/Subscriber.antt =====
-- shared/libs/go/events/kafka.go: `Subscriber`. What the loop calls outside (the reader and the writer
-- of kafka-go, the handler, the context and the timer) is answered by `Outside`, by the number of
-- calls made before; each call is noted with its answer, the latest first. Spans and metrics are
-- left out.
pub mod Commits
pub mod Retries
use Prim.Native.String.{String}
use eventflow_commerce.Common.{
  ℕ, zero, suc, ◌+◌, ◌-◌, ◌/◌, ◌^◌, Bool, true, false, Option, none, some, List, [], ◌∷◌, ◌++◌,
  length, if◌then◌else◌,
}
use eventflow_commerce.Common.Int.{ℤ, pos, negsuc, pos_part, sub_ℕ, leb_ℤ, wrap64, ◌+ℤ◌, ◌*ℤ◌}
use eventflow_commerce.Errors.{Error, Result, ok, err}
use eventflow_commerce.Messaging.Publisher.{KafkaEvent, KafkaMessage, Header, error_type_header}

-- A call of the loop with its answer; `rejected` is a fetch that failed.
pub data Effect (D V : Type 0) : Type 0 where
  fetched : KafkaMessage V → Effect D V
  rejected : Effect D V
  handled : KafkaEvent D → Result (Unit {0}) → Effect D V
  waited : ℤ → Option Error → Effect D V
  dead_lettered : KafkaMessage V → Result (Unit {0}) → Effect D V
  committed : KafkaMessage V → Result (Unit {0}) → Effect D V

-- The settings of `KafkaConfig` that `NewSubscriber` reads.
pub record KafkaConfig : Type 0 where
  pub dlq_topic : String
  pub configured_retries : ℤ
  pub configured_delay : ℤ

-- `Subscriber`, as far as its methods read it.
pub record Subscriber : Type 0 where
  pub has_dlq_writer : Bool
  pub max_retries : ℕ
  pub retry_base_delay : ℤ

-- `Fetched` is what `FetchMessage` returns: a message, an error, or an error with the context done.
pub data Fetched (V : Type 0) : Type 0 where
  message : KafkaMessage V → Fetched V
  failed : Fetched V
  stopped : Error → Fetched V

pub record Outside (D V : Type 0) : Type 0 where
  pub unmarshal : V → Option (KafkaEvent D)
  pub fetch : ℕ → Fetched V
  pub handler : KafkaEvent D → ℕ → Result (Unit {0})
  pub timer : ℤ → ℕ → Option Error
  pub int64n : ℤ → ℕ → ℤ
  pub write_dlq : KafkaMessage V → ℕ → Result (Unit {0})
  pub commit_offset : KafkaMessage V → ℕ → Result (Unit {0})

abbrev is_blank : String → Bool
is_blank String.[] = true
is_blank (String.◌∷◌ c s) = false

-- `NewSubscriber`, its defaults included
unfoldable pub new_subscriber : KafkaConfig → Subscriber
new_subscriber config = record {
  has_dlq_writer = if is_blank config.dlq_topic then false else true;
  max_retries =
      if leb_ℤ config.configured_retries (pos 0) then 3 else pos_part config.configured_retries;
  retry_base_delay =
      if leb_ℤ config.configured_delay (pos 0) then pos 100000000 else config.configured_delay;
}

-- Division by two, towards zero.
abbrev half : ℤ → ℤ
half (pos n) = pos (n / 2)
half (negsuc n) = sub_ℕ 0 (suc n / 2)

-- `retryDelay`, by what `rand.Int64N` returns for its argument
unfoldable pub retry_delay : Subscriber → (ℤ → ℤ) → ℕ → ℤ
retry_delay s draw attempt =
    let delay = wrap64 (s.retry_base_delay *ℤ pos (2 ^ (attempt - 1))) in
    wrap64 (delay +ℤ draw (wrap64 (half delay +ℤ pos 1)))

module _ {D V : Type 0} (out : Outside D V) where
  abbrev pub Trace : Type 0
  Trace = List (Effect D V)

  abbrev call_handler : KafkaEvent D → Trace → Result (Unit {0}) × Trace
  call_handler e t = let r = out.handler e (length t) in (r, handled e r ∷ t)

  -- `commit`, whose error is only logged
  unfoldable pub commit : KafkaMessage V → Trace → Trace
  commit m t = committed m (out.commit_offset m (length t)) ∷ t

  abbrev with_error_type : String → KafkaMessage V → KafkaMessage V
  with_error_type text m = record m { headers = m.headers ++ error_type_header text ∷ [] }

  module _ (s : Subscriber) where
    -- `wait`
    unfoldable pub wait : ℤ → Trace → Option Error × Trace
    wait d t = let r = out.timer d (length t) in (r, waited d r ∷ t)

    abbrev after_wait :
        (Trace → Result (Unit {0}) × Trace) → Option Error × Trace → Result (Unit {0}) × Trace
    after_wait next (none, t) = next t
    after_wait next (some e, t) = (err e, t)

    -- The loop of `handleWithRetry`: an attempt, how many may follow, and the error so far.
    unfoldable pub retry_loop :
        KafkaEvent D → ℕ → ℕ → Result (Unit {0}) × Trace → Result (Unit {0}) × Trace
    retry_loop e attempt left (ok a, t) = (ok a, t)
    retry_loop e attempt zero (err x, t) = (err x, t)
    retry_loop e attempt (suc left) (err x, t) =
        after_wait (λ u. retry_loop e (attempt + 1) left (call_handler e u))
          (wait (retry_delay s (λ n. out.int64n n (length t)) attempt) t)

    -- `handleWithRetry`
    unfoldable pub handle_with_retry : KafkaEvent D → Trace → Result (Unit {0}) × Trace
    handle_with_retry e t = retry_loop e 1 s.max_retries (call_handler e t)

    -- `sendToDLQ`
    unfoldable pub send_to_dlq : KafkaMessage V → String → Trace → Bool × Trace
    send_to_dlq m text t = if s.has_dlq_writer then write (with_error_type text m) t else (false, t)
      where
        accepted : Result (Unit {0}) → Bool
        accepted (ok _) = true
        accepted (err _) = false

        write : KafkaMessage V → Trace → Bool × Trace
        write k u = let r = out.write_dlq k (length u) in (accepted r, dead_lettered k r ∷ u)

    abbrev commit_if : KafkaMessage V → Bool × Trace → Trace
    commit_if m (true, t) = commit m t
    commit_if m (false, t) = t

    -- `handleFailure`
    unfoldable pub handle_failure : KafkaMessage V → String → Trace → Trace
    handle_failure m text t = commit_if m (send_to_dlq m text t)

    abbrev finished : KafkaMessage V → Result (Unit {0}) × Trace → Trace
    finished m (ok a, t) = commit m t
    finished m (err e, t) = handle_failure m "handler_error" t

    abbrev handle_unmarshalled : KafkaMessage V → Option (KafkaEvent D) → Trace → Trace
    handle_unmarshalled m none t = handle_failure m "unmarshal_error" t
    handle_unmarshalled m (some e) t = finished m (handle_with_retry e t)

    -- `processMessage`
    unfoldable pub process_message : KafkaMessage V → Trace → Trace
    process_message m t = handle_unmarshalled m (out.unmarshal m.value) t

    -- The loop of `Subscribe`, for at most so many iterations: the error that it returned, if it did.
    unfoldable pub subscribe : ℕ → Trace → Option Error × Trace
    subscribe zero t = (none, t)
    subscribe (suc n) t = elim (out.fetch (length t)) [
      | message m ↦ subscribe n (process_message m (fetched m ∷ t))
      | failed ↦ subscribe n (rejected ∷ t)
      | stopped e ↦ (some e, rejected ∷ t)
    ]
