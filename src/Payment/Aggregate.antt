-- ===== src/Payment/Aggregate.antt =====
-- services/payment/internal/domain/payment.go and the events of events.go. A command that mutates
-- `*Payment` returns the new record; `uuid.New` is an argument. `Version` counts events, far below
-- 2 ^ 63, and is left unbounded.
pub mod Lifecycle
use Prim.Native.String.{String}
use eventflow_commerce.Common.{ℕ, ◌+◌, Bool, true, false, List, [], ◌∷◌, ◌++◌, ◌==◌, if◌then◌else◌}
use eventflow_commerce.Common.Int.{ℤ, pos, leb_ℤ}
use eventflow_commerce.Errors.{Result, ok, err, validation, conflict}

-- `unset` is the empty text, the status of `&Payment{}`.
pub data Status : Type 0 where
  unset initiated completed failed refunded cancelled : Status

pub data Event : Type 0 where
  payment_initiated : ℕ → ℕ → ℕ → ℤ → String → Event
  payment_processed : ℕ → String → Event
  payment_failed : ℕ → String → Event
  payment_refunded : ℕ → ℤ → String → Event
  payment_cancelled : ℕ → String → Event

pub record Payment : Type 0 where
  pub id : ℕ
  pub order_id : ℕ
  pub customer_id : ℕ
  pub amount_cents : ℤ
  pub currency : String
  pub status : Status
  pub version : ℕ
  pub pending_events : List Event

abbrev pub is_empty : String → Bool
is_empty String.[] = true
is_empty (String.◌∷◌ c s) = false

-- `&Payment{}`
abbrev pub blank : Payment
blank = record {
  id = 0;
  order_id = 0;
  customer_id = 0;
  amount_cents = pos 0;
  currency = "";
  status = unset;
  version = 0;
  pending_events = [];
}

abbrev change : Event → Payment → Payment
change (payment_initiated i o c a cur) p = record p {
  id = i;
  order_id = o;
  customer_id = c;
  amount_cents = a;
  currency = cur;
  status = initiated;
}
change (payment_processed _ _) p = record p { status = completed }
change (payment_failed _ _) p = record p { status = failed }
change (payment_refunded _ _ _) p = record p { status = refunded }
change (payment_cancelled _ _) p = record p { status = cancelled }

-- `Apply`
unfoldable pub apply : Event → Payment → Payment
apply e p =
    let q = change e p in
    record q { version = q.version + 1; pending_events = q.pending_events ++ e ∷ [] }

-- `ClearPendingEvents`
abbrev pub clear_pending : Payment → Payment
clear_pending p = record p { pending_events = [] }

abbrev pub is_initiated : Status → Bool
is_initiated initiated = true
is_initiated _ = false

abbrev pub is_completed : Status → Bool
is_completed completed = true
is_completed _ = false

-- `Initiate`, with the identifier that `uuid.New` returns.
unfoldable pub initiate : ℕ → ℕ → ℕ → ℤ → String → Result Payment
unfolding apply
initiate fresh order customer amount cur =
    if order == 0
    then err (validation "order_id")
    else if customer == 0
    then err (validation "customer_id")
    else if leb_ℤ amount (pos 0)
    then err (validation "amount_cents")
    else if is_empty cur
    then err (validation "currency")
    else ok (apply (payment_initiated fresh order customer amount cur) blank)

-- `Process`
unfoldable pub process : String → Payment → Result Payment
unfolding apply
process transaction p =
    if is_initiated p.status
    then (if is_empty transaction
        then err (validation "transaction_id")
        else ok (apply (payment_processed p.id transaction) p))
    else err conflict

-- `Fail`
unfoldable pub fail : String → Payment → Result Payment
unfolding apply
fail reason p =
    if is_initiated p.status
    then (if is_empty reason
        then err (validation "reason")
        else ok (apply (payment_failed p.id reason) p))
    else err conflict

-- `Refund`
unfoldable pub refund : String → Payment → Result Payment
unfolding apply
refund reason p =
    if is_completed p.status
    then (if is_empty reason
        then err (validation "reason")
        else ok (apply (payment_refunded p.id p.amount_cents reason) p))
    else err conflict

-- `Cancel`
unfoldable pub cancel : String → Payment → Result Payment
unfolding apply
cancel reason p =
    if is_initiated p.status
    then (if is_empty reason
        then err (validation "reason")
        else ok (apply (payment_cancelled p.id reason) p))
    else err conflict

-- The loop that rebuilds an aggregate: every event in its order.
unfoldable pub replay : List Event → Payment → Payment
replay [] p = p
replay (e ∷ events) p = replay events (apply e p)
