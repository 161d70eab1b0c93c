-- ===== src/Payment/Codec.antt =====
-- services/payment/internal/domain/events.go: the stored form of an event. An object of
-- encoding/json is the list of its fields; github.com/google/uuid is a parameter.
use Prim.Native.String.{String}
use package.text.Mathlib.Text.{◌==◌ as str_eq}
use eventflow_commerce.Common.{ℕ, ◌≡◌, Option, none, some, List, [], ◌∷◌, if◌then◌else◌}
use eventflow_commerce.Common.Int.{ℤ, pos}
use eventflow_commerce.Errors.{Result, ok, err, malformed, unknown_event_type}
use eventflow_commerce.Messaging.Outbox.{EventType}
use eventflow_commerce.Payment.Aggregate.{
  Event, payment_initiated, payment_processed, payment_failed, payment_refunded, payment_cancelled,
}

-- The text form of identifiers. What the code relies on: a text that was written reads back.
pub record UuidText : Type 0 where
  pub render : ℕ → String
  pub parse : String → Option ℕ
  pub parse-render : (u : ℕ) → parse (render u) ≡ some u

pub data Json : Type 0 where
  text : String → Json
  number : ℤ → Json

abbrev pub Object : Type 0
Object = List (String × Json)

abbrev pub field : String → Object → Option Json
field key [] = none
field key ((k, v) ∷ rest) = if str_eq k key then some v else field key rest

-- `EventType()`
unfoldable pub event_type : Event → EventType
event_type (payment_initiated _ _ _ _ _) = EventType.payment_initiated
event_type (payment_processed _ _) = EventType.payment_processed
event_type (payment_failed _ _) = EventType.payment_failed
event_type (payment_refunded _ _ _) = EventType.payment_refunded
event_type (payment_cancelled _ _) = EventType.payment_cancelled

infixl 5 ◌>>=◌
abbrev ◌>>=◌ : {A B : Type 0} → Result A → (A → Result B) → Result B
ok a >>= f = f a
err e >>= f = err e

abbrev as_text : Option Json → Result String
as_text none = ok ""
as_text (some (text s)) = ok s
as_text (some (number _)) = err malformed

abbrev as_number : Option Json → Result ℤ
as_number none = ok (pos 0)
as_number (some (number n)) = ok n
as_number (some (text _)) = err malformed

module _ (u : UuidText) where
  abbrev parsed : Option ℕ → Result ℕ
  parsed none = err malformed
  parsed (some i) = ok i

  abbrev as_uuid : Option Json → Result ℕ
  as_uuid none = ok 0
  as_uuid (some (text s)) = parsed (u.parse s)
  as_uuid (some (number _)) = err malformed

  -- `MarshalEvent`
  unfoldable pub marshal_event : Event → Object
  marshal_event (payment_initiated i o c a cur) =
      ("payment_id", text (u.render i))
      ∷ ("order_id", text (u.render o))
      ∷ ("customer_id", text (u.render c))
      ∷ ("amount_cents", number a)
      ∷ ("currency", text cur)
      ∷ []
  marshal_event (payment_processed i t) =
      ("payment_id", text (u.render i)) ∷ ("transaction_id", text t) ∷ []
  marshal_event (payment_failed i r) = ("payment_id", text (u.render i)) ∷ ("reason", text r) ∷ []
  marshal_event (payment_refunded i a r) =
      ("payment_id", text (u.render i)) ∷ ("amount_cents", number a) ∷ ("reason", text r) ∷ []
  marshal_event (payment_cancelled i r) =
      ("payment_id", text (u.render i)) ∷ ("reason", text r) ∷ []

  -- `UnmarshalEvent`: the factory of the stored type, then its fields; a field that the object
  -- lacks keeps its zero value.
  unfoldable pub unmarshal_event : EventType → Object → Result Event
  unmarshal_event EventType.payment_initiated d = do
    i ← as_uuid (field "payment_id" d)
    o ← as_uuid (field "order_id" d)
    c ← as_uuid (field "customer_id" d)
    a ← as_number (field "amount_cents" d)
    cur ← as_text (field "currency" d)
    ok (payment_initiated i o c a cur)
  unmarshal_event EventType.payment_processed d = do
    i ← as_uuid (field "payment_id" d)
    t ← as_text (field "transaction_id" d)
    ok (payment_processed i t)
  unmarshal_event EventType.payment_failed d = do
    i ← as_uuid (field "payment_id" d)
    r ← as_text (field "reason" d)
    ok (payment_failed i r)
  unmarshal_event EventType.payment_refunded d = do
    i ← as_uuid (field "payment_id" d)
    a ← as_number (field "amount_cents" d)
    r ← as_text (field "reason" d)
    ok (payment_refunded i a r)
  unmarshal_event EventType.payment_cancelled d = do
    i ← as_uuid (field "payment_id" d)
    r ← as_text (field "reason" d)
    ok (payment_cancelled i r)
  unmarshal_event _ d = err unknown_event_type

  -- An event that was marshalled and is read back under its type name is the same event, provided
  -- that identifiers read back.
  pub unmarshal_event-marshal_event :
      (e : Event) → unmarshal_event (event_type e) (marshal_event e) ≡ ok e
  unfolding unmarshal_event marshal_event event_type
  unmarshal_event-marshal_event (payment_initiated i o c a cur) =
      rw (u.parse-render i) (rw (u.parse-render o) (rw (u.parse-render c)))
  unmarshal_event-marshal_event (payment_processed i t) = rw (u.parse-render i)
  unmarshal_event-marshal_event (payment_failed i r) = rw (u.parse-render i)
  unmarshal_event-marshal_event (payment_refunded i a r) = rw (u.parse-render i)
  unmarshal_event-marshal_event (payment_cancelled i r) = rw (u.parse-render i)
