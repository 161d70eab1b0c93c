-- ===== src/Messaging/Publisher.antt =====
-- shared/libs/go/events/kafka.go: `Event`, the message that carries it, and `Publisher.Publish`.
-- encoding/json is a parameter, and so are the brokers, which may accept a message, refuse it, or
-- accept it and lose the reply. The empty text of an identifier is 0. Trace headers are left out.
use Prim.Native.String.{String}
use eventflow_commerce.Common.{ℕ, ◌==◌, Option, none, some, List, [], ◌∷◌, if◌then◌else◌}
use eventflow_commerce.Errors.{ok, err, malformed, remote}
use eventflow_commerce.Database.{Action, Reply, answers, fails, lost}
use eventflow_commerce.Database.Actions.{log_call}
use eventflow_commerce.Messaging.Outbox.{Topic, EventType}
use eventflow_commerce.Order.Domain.{is_empty}

-- `Event`; `stamp` is `none` for the zero time.
pub record KafkaEvent (D : Type 0) : Type 0 where
  pub event_id : ℕ
  pub kind : EventType
  pub source : String
  pub body : D
  pub stamp : Option ℕ
  pub format_version : String
  pub correlation : ℕ
  pub aggregate : ℕ

pub data Header : Type 0 where
  event_type_header : EventType → Header
  source_header version_header error_type_header : String → Header
  correlation_header : ℕ → Header

-- `kafka.Message`, with its value as bytes `V`.
pub record KafkaMessage (V : Type 0) : Type 0 where
  pub to_topic : Topic
  pub key : ℕ
  pub value : V
  pub headers : List Header

abbrev pub or_id : ℕ → ℕ → ℕ
or_id fresh given = if given == 0 then fresh else given

abbrev pub or_now : ℕ → Option ℕ → Option ℕ
or_now now none = some now
or_now now (some t) = some t

abbrev pub or_version : String → String
or_version text = if is_empty text then "1.0" else text

abbrev pub correlation_headers : ℕ → List Header
correlation_headers c = if c == 0 then [] else correlation_header c ∷ []

module _ {D : Type 0} where
  -- The defaults that `Publish` fills in.
  unfoldable pub completed : ℕ → ℕ → KafkaEvent D → KafkaEvent D
  completed fresh now e = record e {
    event_id = or_id fresh e.event_id;
    stamp = or_now now e.stamp;
    format_version = or_version e.format_version;
  }

  -- The message of `Publish`: keyed by the aggregate, or else by the event.
  unfoldable pub message_of : {V : Type 0} → Topic → KafkaEvent D → V → KafkaMessage V
  message_of t e v = record {
    to_topic = t;
    key = or_id e.event_id e.aggregate;
    value = v;
    headers =
        event_type_header e.kind
        ∷ source_header e.source
        ∷ version_header e.format_version
        ∷ correlation_headers e.correlation;
  }

module _ {S V : Type 0} where
  -- `kafkaWriter.WriteMessages`: the calls of the world are the messages that the brokers have.
  unfoldable pub write_message :
      (KafkaMessage V → ℕ → Reply) → KafkaMessage V → Action S (KafkaMessage V) (Unit {0})
  write_message brokers m w = elim (brokers m w.clock) [
    | answers ↦ (ok tt, log_call m w)
    | fails ↦ (err remote, w)
    | lost ↦ (err remote, log_call m w)
  ]

module _ {S D V : Type 0} where
  abbrev pub written :
      (KafkaMessage V → ℕ → Reply)
      → Topic
      → KafkaEvent D
      → Option V
      → Action S (KafkaMessage V) (Unit {0})
  written brokers t e none w = (err malformed, w)
  written brokers t e (some v) w = write_message brokers (message_of t e v) w

  -- `Publish`, with what `uuid.New` and `time.Now` return
  unfoldable pub publish :
      (KafkaEvent D → Option V)
      → (KafkaMessage V → ℕ → Reply)
      → ℕ
      → ℕ
      → Topic
      → KafkaEvent D
      → Action S (KafkaMessage V) (Unit {0})
  publish marshal brokers fresh now t e =
      let full = completed fresh now e in written brokers t full (marshal full)
