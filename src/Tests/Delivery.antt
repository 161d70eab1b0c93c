-- ===== src/Tests/Delivery.antt =====
-- Concrete runs of the retry helper, the inventory client, the relay and the subscriber.
use eventflow_commerce.Errors.{http_code}
use eventflow_commerce.Errors.{is_app_error}
use eventflow_commerce.Order.Client.{transport_error}
use eventflow_commerce.Order.Client.{is_retryable_inventory_error}
use eventflow_commerce.Order.Client.{do_inventory}
use eventflow_commerce.Resilience.{execute}
use eventflow_commerce.Order.Client.{wrap_breaker_open}
use eventflow_commerce.Resilience.{retry_from}
use eventflow_commerce.Common.{
  ℕ, ◌≡◌, ◌+◌, refl, true, false, none, some, List, [], ◌∷◌, ◌++◌, arith, ◌==◌, if◌then◌else◌,
}
use eventflow_commerce.Common.Int.{ℤ, pos, ◌≤ℤ◌}
use eventflow_commerce.Errors.{ok, err, remote}
use eventflow_commerce.Database.{answers, lost, Reply}
use eventflow_commerce.Resilience.{
  RetryConfig, Runtime, Call, Breaker, ran, Passed, IsBreaker, retry, backoff_delay,
}
use eventflow_commerce.Resilience.Attempts.{Reported, IsRecord, Ends, retry-Ends}
use eventflow_commerce.Resilience.Backoff.{IsInt63n, backoff_delay-IsCapped}
use eventflow_commerce.Order.Client.{Link, timed_out, responded, delete_reservation, release_remote}
use eventflow_commerce.Order.Client.Release.{HasSucceeded, release_remote-HasSucceeded}
use eventflow_commerce.Messaging.Outbox.{OutboxRow, orders_topic, order_created, order_confirmed}
use eventflow_commerce.Messaging.Publisher.{KafkaEvent, KafkaMessage}
use eventflow_commerce.Messaging.Relay.{Setting, RelayWorld, relay_batch, relay_ticks}
use eventflow_commerce.Messaging.Relay.Backed.{AreBacked}
use eventflow_commerce.Messaging.Relay.Safety.{relay_batch-AreBacked}
use eventflow_commerce.Messaging.Relay.Batch.{IsOpen, Relayed, relay_batch-Relayed}
use eventflow_commerce.Messaging.Relay.Drain.{pending_count, relay_ticks_drain}
use eventflow_commerce.Messaging.Subscriber.{
  Outside, Subscriber, message, stopped, subscribe, new_subscriber,
}
use eventflow_commerce.Messaging.Subscriber.Commits.{IsSafe, subscribe-IsSafe}

abbrev thrice : RetryConfig
thrice = record {
  max_attempts = pos 3;
  base_delay = pos 50000000;
  max_delay = pos 500000000;
  retryable = none;
}

-- The second call succeeds.
abbrev second_time : Call (List Reported)
second_time [] = (err remote, err remote ∷ [])
second_time (r ∷ rs) = (ok tt, r ∷ rs ++ ok tt ∷ [])

abbrev patient : {W : Type 0} → Runtime W
patient = record { context_err = λ w. none; wait = λ d w. (none, w); int63n = λ n w. pos 0 }

second_time_run : retry patient thrice second_time [] ≡ (ok tt, err remote ∷ ok tt ∷ [])
unfolding retry retry_from
second_time_run = refl

abbrev second_time-IsRecord : IsRecord patient second_time (λ w. w)
second_time-IsRecord = record {
  calls = λ w. elim w as (λ w. (second_time w).1 ≡ w ++ (second_time w).0 ∷ []) [
    | [] ↦ refl
    | r ∷ rs ↦ refl
  ];
  waits = λ d w. refl;
}

retry-Ends_example :
    Ends patient thrice second_time (λ w. w) 3 [] (retry patient thrice second_time [])
retry-Ends_example = retry-Ends patient thrice second_time (λ w. w) [] second_time-IsRecord

-- `rand.Int63n` at its least.
abbrev lowest : ℤ → ℤ
lowest n = pos 0

abbrev lowest-IsInt63n : IsInt63n lowest
lowest-IsInt63n n h = (omega arith, h)

backoff_delay-IsCapped_example :
    (pos 0 ≤ℤ backoff_delay lowest thrice 2) × (backoff_delay lowest thrice 2 ≤ℤ pos 500000000)
backoff_delay-IsCapped_example =
    backoff_delay-IsCapped lowest thrice 2 lowest-IsInt63n (omega arith) (omega arith)

-- A breaker that lets every call through.
abbrev closed : Breaker ℕ Link
closed fn (b, v) = (ran (fn v).0, (b, (fn v).1))

abbrev closed-IsBreaker : IsBreaker closed
closed-IsBreaker fn b v = Passed.passed b

-- The first request times out.
abbrev line : ℕ × Link
line = (
  0,
  record { exchanges = []; comes_back = λ n. if n == 0 then timed_out else responded 204 none },
)

released : (release_remote closed patient 1 line).0 ≡ ok tt
unfolding release_remote wrap_breaker_open retry retry_from execute do_inventory
    is_retryable_inventory_error transport_error is_app_error http_code
released = refl

release_remote-HasSucceeded_example :
    HasSucceeded (delete_reservation 1) (release_remote closed patient 1 line).1.1
release_remote-HasSucceeded_example =
    release_remote-HasSucceeded closed closed-IsBreaker patient 1 line released

abbrev note : ℕ → OutboxRow ℕ
note n = record {
  message = record {
    topic = orders_topic;
    event_type = order_created;
    aggregate_id = n;
    payload = n;
  };
  published = false;
  attempts = 0;
}

abbrev paper : List (OutboxRow ℕ)
paper = note 1 ∷ record (note 2) { published = true } ∷ note 3 ∷ []

abbrev setting : ℕ → (ℕ → Reply) → Setting ℕ ℕ (KafkaEvent ℕ)
setting n brokers = record {
  unmarshal_data = λ p. some p;
  marshal = λ e. some e;
  brokers = λ k t. brokers k.key;
  fresh = λ t. 900 + t;
  now = λ t. t;
  locked = λ t. false;
  batch_size = n;
}

abbrev desk : (ℕ → Reply) → RelayWorld ℕ (KafkaEvent ℕ)
desk replies = record { committed = paper; view = []; calls = []; clock = 0; replies = replies }

-- The brokers lose a reply.
relay_batch-AreBacked_example :
    let w = desk (λ t. answers) in
    let o = relay_batch (setting 5 (λ k. if k == 1 then lost else answers)) w in
    AreBacked (setting 5 (λ k. if k == 1 then lost else answers)) o.1.calls paper o.1.committed
relay_batch-AreBacked_example =
    relay_batch-AreBacked (setting 5 (λ k. if k == 1 then lost else answers)) (desk (λ t. answers))

abbrev open_setting : IsOpen (setting 1 (λ k. answers))
open_setting = record {
  unlocked = λ n. refl;
  readable = λ p. (p, refl);
  writable = λ e. (e, refl);
  accepted = λ k n. refl;
}

relay_batch-Relayed_example :
    Relayed
      (setting 1 (λ k. answers))
      open_setting
      (desk (λ t. answers))
      (relay_batch (setting 1 (λ k. answers)) (desk (λ t. answers)))
relay_batch-Relayed_example =
    relay_batch-Relayed (setting 1 (λ k. answers)) open_setting (desk (λ t. answers)) (λ t. refl)

relay_ticks_drain_example :
    pending_count (relay_ticks (setting 1 (λ k. answers)) 2 (desk (λ t. answers))).committed ≡ 0
relay_ticks_drain_example =
    relay_ticks_drain (setting 1 (λ k. answers)) open_setting 2 (desk (λ t. answers)) (λ t. refl)
      (omega arith)

abbrev parcel : ℕ → KafkaMessage ℕ
parcel n = record { to_topic = orders_topic; key = n; value = n; headers = [] }

abbrev event : ℕ → KafkaEvent ℕ
event n = record {
  event_id = n;
  kind = order_confirmed;
  source = "";
  body = n;
  stamp = none;
  format_version = "1.0";
  correlation = 0;
  aggregate = n;
}

-- Two messages, of which the first is never handled.
abbrev surroundings : Outside ℕ ℕ
surroundings = record {
  unmarshal = λ v. some (event v);
  fetch = λ n.
      if n == 0 then message (parcel 1) else if n == 9 then message (parcel 2) else stopped remote;
  handler = λ e n. if e.event_id == 1 then err remote else ok tt;
  timer = λ d n. none;
  int64n = λ d n. pos 0;
  write_dlq = λ m n. err remote;
  commit_offset = λ m n. ok tt;
}

abbrev subscriber : Subscriber
subscriber =
    new_subscriber
      (record { dlq_topic = "dlq"; configured_retries = pos 0; configured_delay = pos 0 })

subscribe-IsSafe_example : IsSafe surroundings (subscribe surroundings subscriber 3 []).1
subscribe-IsSafe_example = subscribe-IsSafe surroundings subscriber 3 [] tt
