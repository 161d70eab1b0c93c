-- ===== src/Payment/Store/Tables.antt =====
-- services/payment/internal/eventstore/store.go and the query of snapshot.go: the tables of the
-- payment service (services/payment/migrations) and the statements on the event stream. The rows of
-- an aggregate are read in the order of their versions. A stored snapshot is the payment without its
-- pending events, which is what encoding/json writes of it.
use Prim.Native.String.{String}
use package.text.Mathlib.Text.{◌==◌ as str_eq}
use eventflow_commerce.Common.{
  ℕ, ◌+◌, Bool, true, false, ◌&&◌, Option, none, some, List, [], ◌∷◌, ◌++◌, ◌==◌, ltb, leb,
  where_rows, any_row, if◌then◌else◌,
}
use eventflow_commerce.Common.Int.{ℤ}
use eventflow_commerce.Errors.{Result, ok, err, conflict}
use eventflow_commerce.Database.{Prog, pure, sql, ◌>>◌}
use eventflow_commerce.Messaging.Outbox.{EventType, OutboxRow}
use eventflow_commerce.Payment.Aggregate.{Status, Event, Payment}
use eventflow_commerce.Payment.Codec.{
  UuidText, Json, Object, field, event_type, marshal_event, unmarshal_event,
}

pub record EventRow : Type 0 where
  pub aggregate : ℕ
  pub stored_type : EventType
  pub event_version : ℕ
  pub event_data : Object

-- `Snapshot`
pub record SnapshotRow : Type 0 where
  pub snapshot_of : ℕ
  pub snapshot_version : ℕ
  pub snapshot : Payment

-- A row of payment_status; `completed` is `completed_at IS NOT NULL`.
pub record StatusRow : Type 0 where
  pub status_id : ℕ
  pub status_customer : ℕ
  pub status_order : ℕ
  pub status_amount : ℤ
  pub status_currency : String
  pub status_text : Status
  pub status_transaction : Option String
  pub completed : Bool
  pub status_version : ℕ

-- `outboxPayload`
pub record PaymentPayload : Type 0 where
  pub payload_payment : ℕ
  pub payload_order : ℕ
  pub payload_customer : ℕ
  pub payload_amount : ℤ
  pub payload_currency : String
  pub payload_status : Status
  pub payload_transaction : String
  pub payload_reason : String

pub record Tables : Type 0 where
  pub events : List EventRow
  pub snapshots : List SnapshotRow
  pub statuses : List StatusRow
  pub outbox : List (OutboxRow PaymentPayload)
  pub processed : List ℕ

abbrev pub snapshot_threshold : ℕ
snapshot_threshold = 10

abbrev pub same_version : ℕ → ℕ → EventRow → Bool
same_version id version r = r.aggregate == id && r.event_version == version

abbrev pub after_version : ℕ → ℕ → EventRow → Bool
after_version id version r = r.aggregate == id && ltb version r.event_version

-- `ORDER BY event_version ASC`
abbrev pub place : EventRow → List EventRow → List EventRow
place r [] = r ∷ []
place r (x ∷ rows) = if leb r.event_version x.event_version then r ∷ x ∷ rows else x ∷ place r rows

abbrev pub by_version : List EventRow → List EventRow
by_version [] = []
by_version (r ∷ rows) = place r (by_version rows)

-- `ORDER BY aggregate_version DESC LIMIT 1`
abbrev pub newer : SnapshotRow → Option SnapshotRow → SnapshotRow
newer r none = r
newer r (some x) = if leb x.snapshot_version r.snapshot_version then r else x

abbrev pub latest : List SnapshotRow → Option SnapshotRow
latest [] = none
latest (r ∷ rows) = some (newer r (latest rows))

abbrev pub snapshot_for : ℕ → SnapshotRow → Bool
snapshot_for id r = r.snapshot_of == id

-- `LatestSnapshot`
unfoldable pub latest_snapshot : ℕ → Tables → Option SnapshotRow
latest_snapshot id t = latest (where_rows (snapshot_for id) t.snapshots)

abbrev pub is_nil : {A : Type 0} → List A → Bool
is_nil [] = true
is_nil (_ ∷ _) = false

module _ (u : UuidText) where
  abbrev pub decode_row : EventRow → Result Event
  decode_row r = unmarshal_event u r.stored_type r.event_data

  abbrev pub decoded : Result Event → Result (List Event) → Result (List Event)
  decoded (ok e) (ok events) = ok (e ∷ events)
  decoded (ok e) (err x) = err x
  decoded (err x) _ = err x

  unfoldable pub decode : List EventRow → Result (List Event)
  decode [] = ok []
  decode (r ∷ rows) = decoded (decode_row r) (decode rows)

  -- `Store.Load`
  unfoldable pub events_after : ℕ → ℕ → Tables → Result (List Event)
  events_after id version t = decode (by_version (where_rows (after_version id version) t.events))

  abbrev pub is_text : String → Option Json → Bool
  is_text s none = false
  is_text s (some (Json.text x)) = str_eq x s
  is_text s (some (Json.number _)) = false

  abbrev pub is_initiation : EventType → Bool
  is_initiation EventType.payment_initiated = true
  is_initiation _ = false

  abbrev pub initiates : ℕ → EventRow → Bool
  initiates order r =
      is_initiation r.stored_type && is_text (u.render order) (field "order_id" r.event_data)

  abbrev pub first_aggregate : List EventRow → ℕ
  first_aggregate [] = 0
  first_aggregate (r ∷ rows) = r.aggregate

  -- `Store.FindByOrderID`, with 0 for `uuid.Nil`
  unfoldable pub find_aggregate : ℕ → Tables → ℕ
  find_aggregate order t = first_aggregate (where_rows (initiates order) t.events)

  abbrev pub event_row : ℕ → ℕ → Event → EventRow
  event_row id version e = record {
    aggregate = id;
    stored_type = event_type e;
    event_version = version;
    event_data = marshal_event u e;
  }

  -- `INSERT INTO payment_events`, whose unique index on the aggregate and the version becomes a
  -- conflict.
  unfoldable pub insert_event : ℕ → ℕ → Event → Prog Tables (Unit {0})
  insert_event id version e =
      sql (λ t. if any_row (same_version id version) t.events then err conflict else ok tt)
        (λ t.
          if any_row (same_version id version) t.events
          then t
          else record t { events = t.events ++ event_row id version e ∷ [] })

  -- `Store.Append`: the events take the versions that follow `expected`.
  unfoldable pub append : ℕ → ℕ → List Event → Prog Tables (Unit {0})
  append id expected [] = pure tt
  append id expected (e ∷ rest) = do insert_event id (expected + 1) e; append id (expected + 1) rest
