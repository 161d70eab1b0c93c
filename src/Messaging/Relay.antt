-- ===== src/Messaging/Relay.antt =====
-- shared/libs/go/outbox/relay.go: `RelayBatch`, over the rows of outbox_messages. A row is known by its
-- place in the table, which stands for its `id`. The rows that other transactions have locked, the
-- brokers, encoding/json, `uuid.New` and `time.Now` are parameters. A statement that fails aborts
-- the transaction in postgres: the later statements and the commit fail, but the loop goes on.
pub mod Backed
pub mod Safety
pub mod Prefix
pub mod Batch
pub mod Drain
use eventflow_commerce.Common.{
  ℕ, zero, suc, ◌+◌, Bool, true, false, not, ◌&&◌, Option, none, some, List, [], ◌∷◌, map, take,
  if◌then◌else◌,
}
use eventflow_commerce.Errors.{Result, ok, err, driver, commit_transaction, malformed}
use eventflow_commerce.Database.{
  World, Action, Reply, answers, begin, commit, exec, query, rollback, close, tick, reply,
}
use eventflow_commerce.Messaging.Outbox.{Message, OutboxRow}
use eventflow_commerce.Messaging.Publisher.{KafkaEvent, KafkaMessage, publish}

-- A row that the relay selected: its place, and what it reads of it.
abbrev pub Selected : Type 0 → Type 0
Selected P = ℕ × Message P

module _ {A : Type 0} where
  -- `UPDATE ... WHERE id = $1`
  abbrev pub update_at : ℕ → (A → A) → List A → List A
  update_at n f [] = []
  update_at zero f (x ∷ xs) = f x ∷ xs
  update_at (suc n) f (x ∷ xs) = x ∷ update_at n f xs

module _ {P : Type 0} where
  abbrev pub one_further : Selected P → Selected P
  one_further (place, m) = (suc place, m)

  -- The query of `selectPending` without its limit: unpublished rows that nobody has locked.
  unfoldable pub pending_rows : (ℕ → Bool) → List (OutboxRow P) → List (Selected P)
  pending_rows locked [] = []
  pending_rows locked (r ∷ rows) =
      let rest = map one_further (pending_rows (λ n. locked (suc n)) rows) in
      if not r.published && not (locked 0) then (0, r.message) ∷ rest else rest

  abbrev pub as_published : OutboxRow P → OutboxRow P
  as_published r = record r { published = true }

  abbrev pub as_failed : OutboxRow P → OutboxRow P
  as_failed r = record r { attempts = r.attempts + 1 }

abbrev pub RelayWorld : Type 0 → Type 0 → Type 0
RelayWorld P V = World (List (OutboxRow P)) (KafkaMessage V)

-- The event that `publishRow` publishes; its `ID` is left empty.
abbrev pub event_of : {P D : Type 0} → Message P → D → KafkaEvent D
event_of m d = record {
  event_id = 0;
  kind = m.event_type;
  source = "";
  body = d;
  stamp = none;
  format_version = "";
  correlation = 0;
  aggregate = m.aggregate_id;
}

-- What the relay takes from other packages, and the size of its batches.
pub record Setting (P D V : Type 0) : Type 0 where
  pub unmarshal_data : P → Option D
  pub marshal : KafkaEvent D → Option V
  pub brokers : KafkaMessage V → ℕ → Reply
  pub fresh : ℕ → ℕ
  pub now : ℕ → ℕ
  pub locked : ℕ → Bool
  pub batch_size : ℕ

module _ {P D V : Type 0} (set : Setting P D V) where
  -- A statement of `publishRow`, whose error is only logged: whether the transaction is still good.
  unfoldable pub mark_row :
      Bool → ℕ → (OutboxRow P → OutboxRow P) → RelayWorld P V → Bool × RelayWorld P V
  mark_row false place f w = (false, tick w)
  mark_row true place f w = elim (reply w) [
    | answers ↦ (true, record (tick w) { view = update_at place f w.view })
    | _ ↦ (false, tick w)
  ]

  abbrev pub mark_by : Bool → ℕ → Result (Unit {0}) × RelayWorld P V → Bool × RelayWorld P V
  mark_by good place (ok _, w) = mark_row good place as_published w
  mark_by good place (err _, w) = mark_row good place as_failed w

  abbrev pub publish_data :
      Message P → Option D → RelayWorld P V → Result (Unit {0}) × RelayWorld P V
  publish_data m none w = (err malformed, w)
  publish_data m (some d) w =
      publish set.marshal set.brokers (set.fresh w.clock) (set.now w.clock) m.topic (event_of m d) w

  -- `publishRow`, which returns nothing, and whether the transaction is still good
  unfoldable pub publish_row : Bool → Selected P → RelayWorld P V → Bool × RelayWorld P V
  publish_row good (place, m) w =
      mark_by good place (publish_data m (set.unmarshal_data m.payload) w)

  -- The loop of `RelayBatch`.
  unfoldable pub publish_rows : List (Selected P) → Bool × RelayWorld P V → Bool × RelayWorld P V
  publish_rows [] (good, w) = (good, w)
  publish_rows (r ∷ rows) (good, w) = publish_rows rows (publish_row good r w)

  abbrev pub settle : Bool × RelayWorld P V → Result (Unit {0}) × RelayWorld P V
  unfolding commit
  settle (true, w) = close tt (commit w)
  settle (false, w) = (err (driver commit_transaction), rollback (tick w))

  abbrev pub publish_selected :
      Result (List (Selected P)) × RelayWorld P V → Result (Unit {0}) × RelayWorld P V
  publish_selected (ok rows, w) = settle (publish_rows rows (true, w))
  publish_selected (err e, w) = (err e, rollback w)

  abbrev pub select_pending : RelayWorld P V → Result (List (Selected P)) × RelayWorld P V
  select_pending = exec (query (λ rows. ok (take set.batch_size (pending_rows set.locked rows))))

  abbrev pub batch_begun : Result (Unit {0}) × RelayWorld P V → Result (Unit {0}) × RelayWorld P V
  batch_begun (ok _, w) = publish_selected (select_pending w)
  batch_begun (err e, w) = (err e, rollback w)

  -- `RelayBatch`, without the gauge that `reportPending` sets
  unfoldable pub relay_batch : Action (List (OutboxRow P)) (KafkaMessage V) (Unit {0})
  relay_batch w = batch_begun (begin w)

  -- The loop of `Start`, for so many ticks: an error of a batch is only logged.
  unfoldable pub relay_ticks : ℕ → RelayWorld P V → RelayWorld P V
  relay_ticks zero w = w
  relay_ticks (suc n) w = relay_ticks n (relay_batch w).1
