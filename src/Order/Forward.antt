-- ===== src/Order/Forward.antt =====
-- The consumer of payment events against the graph of the saga.
use eventflow_commerce.Common.{ℕ, ◌≡◌, refl, ap, ◌∙◌, ◌⊎◌, inl, inr, Option}
use eventflow_commerce.Errors.{Result, ok}
use eventflow_commerce.Database.{World}
use eventflow_commerce.Messaging.Outbox.{EventType}
use eventflow_commerce.Order.Saga.{State, here, compensating, compensated, compensating_stays}
use eventflow_commerce.Order.Rows.{Tables}
use eventflow_commerce.Order.Service.{Remote, handle_payment}
use eventflow_commerce.Order.Unreleased.{state_of}
use eventflow_commerce.Order.Progress.{
  IsAhead, IsAhead-same, IsAhead-with_error, transition_saga-IsAhead, confirm_body-IsAhead,
  compensate_body-IsAhead,
}
use eventflow_commerce.Order.Along.Events.{IsKept, handle_payment-keeps}

IsAhead-IsKept : (id : ℕ) (s : State) → IsKept (IsAhead id s)
IsAhead-IsKept id s = record {
  by_mark = λ event_id t h. IsAhead-same id s t _ refl h;
  by_note = IsAhead-with_error id s;
  by_transition = transition_saga-IsAhead id s;
  by_confirm = confirm_body-IsAhead id s;
  by_compensate = compensate_body-IsAhead id s;
}

-- Whatever the payment event, the answers of the inventory service and the failures of the database,
-- the saga of every order that has one is afterwards where transitions of its graph lead from where
-- it stood.
pub handle_payment-IsAhead :
    (replied : Remote → ℕ → Result (Unit {0})) (kind : EventType) (event_id : ℕ) (order : Option ℕ)
    (id : ℕ) (s : State) (w : World Tables Remote)
    → state_of id w.committed ≡ ok s
    → IsAhead id s (handle_payment replied kind event_id order w).1.committed
handle_payment-IsAhead replied kind event_id order id s w h =
    handle_payment-keeps (IsAhead id s) (IsAhead-IsKept id s) replied kind event_id order w
      (record { now = s; stands = h; reached = here })

undoing_rows :
    (id : ℕ) (t : Tables) (h : IsAhead id compensating t)
    → (h.now ≡ compensating) ⊎ (h.now ≡ compensated)
    → (state_of id t ≡ ok compensating) ⊎ (state_of id t ≡ ok compensated)
undoing_rows id t h (inl e) = inl (h.stands ∙ ap ok e)
undoing_rows id t h (inr e) = inr (h.stands ∙ ap ok e)

-- A saga that compensates is compensating or compensated after any payment event, a late success of
-- the payment included, whatever the inventory service answers and the database fails.
pub handle_payment_compensating :
    (replied : Remote → ℕ → Result (Unit {0})) (kind : EventType) (event_id : ℕ) (order : Option ℕ)
    (id : ℕ) (w : World Tables Remote)
    → state_of id w.committed ≡ ok compensating
    → (state_of id (handle_payment replied kind event_id order w).1.committed ≡ ok compensating)
      ⊎ (state_of id (handle_payment replied kind event_id order w).1.committed ≡ ok compensated)
handle_payment_compensating replied kind event_id order id w h =
    let a = handle_payment-IsAhead replied kind event_id order id compensating w h in
    undoing_rows id (handle_payment replied kind event_id order w).1.committed a
      (compensating_stays compensating a.now a.reached (inl refl))
