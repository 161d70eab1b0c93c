-- ===== src/Order/Along/Events.antt =====
-- The consumer of payment events keeps every property of the tables that its writes keep.
use eventflow_commerce.Common.{
  ℕ, ◌≡◌, refl, sym, subst, ◌⊎◌, inl, inr, Bool, Bool-cases, Option, none, some,
}
use eventflow_commerce.Errors.{Result, ok, err}
use eventflow_commerce.Database.{World, exec}
use eventflow_commerce.Database.Preserves.{Preserves, Preserves-call, in_tx-Preserves}
use eventflow_commerce.Database.Actions
use eventflow_commerce.Database.Session.{beside}
use eventflow_commerce.Messaging.Outbox.{EventType, payment_processed, payment_failed}
use eventflow_commerce.Order.Domain.{Order, fail_order}
use eventflow_commerce.Order.Saga.{State, compensating}
use eventflow_commerce.Order.Rows.{Tables, mark_event, transition_saga, with_error}
use eventflow_commerce.Order.Service.{
  Remote, release_stock, is_terminal, get_by_id, mark_compensating, confirm_body, compensate_body,
  call_remote, compensate_by, noted, confirm_payment, fail_payment, marked, react, handle_marked,
  with_order, handle_payment,
}
use eventflow_commerce.Order.Along.{
  get_rows, Along, Along-resume, Along-exec, Along-above, session-keeps, execute-keeps,
}

-- What the writes of a payment event keep.
pub record IsKept (P : Tables → Type 0) : Type 0 where
  pub by_mark : (event_id : ℕ) (t : Tables) → P t → P (marked event_id t)
  pub by_note : (order : ℕ) (t : Tables) → P t → P (with_error order t)
  pub by_transition : (order : ℕ) (to : State) → Preserves P (transition_saga order to)
  pub by_confirm : (o : Order) → Preserves P (confirm_body o)
  pub by_compensate :
      (o : Order) (step : Order → Result Order) → Preserves P (compensate_body o step)

module _ (P : Tables → Type 0) (kept : IsKept P) where
  mark_event-keeps : (event_id : ℕ) → Preserves P (mark_event event_id)
  unfolding mark_event
  mark_event-keeps event_id = Preserves-call _ _ (kept.by_mark event_id)

  compensating-keeps :
      (order : ℕ) (v : World Tables Remote)
      → P v.committed
      → P (mark_compensating order v).1.committed
  unfolding mark_compensating
  compensating-keeps order v h = in_tx-Preserves _ v (kept.by_transition order compensating) h

  Along-read :
      (event_id order : ℕ) (v : World Tables Remote)
      → P v.committed
      → Along P (beside (marked event_id) (get_by_id order) v)
  Along-read event_id order v h =
      Along-above P event_id (get_by_id order v) (kept.by_mark event_id)
        (subst P (sym (get_rows order v)) h)

  Along-confirm :
      (event_id order : ℕ) (v : World Tables Remote)
      → P v.committed
      → Along P (confirm_payment (marked event_id) order v)
  unfolding confirm_payment
  Along-confirm event_id order v h =
      Along-resume P {A = Order} _ (beside (marked event_id) (get_by_id order) v)
        (Along-read event_id order v h)
        (λ o x rows seen. elim (Bool-cases (is_terminal o.status)) [
          | inl e ↦ rw e (record { rows = rows; seen = λ a f. seen })
          | inr e ↦ rw e (Along-exec P (confirm_body o) x (kept.by_confirm o) rows seen)
        ])

  module _ (replied : Remote → ℕ → Result (Unit {0})) (event_id order : ℕ) where
    Along-noted :
        (r : Remote) (o : Result (Unit {0})) (v : World Tables Remote)
        → P v.committed
        → P v.view
        → Along P (noted replied (marked event_id) order (o, v))
    Along-noted r (ok a) v rows seen = record { rows = rows; seen = λ a f. seen }
    Along-noted r (err e) v rows seen = record {
      rows = execute-keeps P order v (kept.by_note order) rows;
      seen = λ a f. absurd (cc);
    }

    Along-compensate :
        (r : Remote) (v : World Tables Remote)
        → P v.committed
        → P v.view
        → Along P (compensate_by replied (marked event_id) order r v)
    unfolding compensate_by call_remote
    Along-compensate r v rows seen =
        Along-noted r (replied r v.clock) (Actions.log_call r v) rows seen

    Along-fail :
        (v : World Tables Remote)
        → P v.committed
        → Along P (fail_payment replied (marked event_id) order v)
    unfolding fail_payment
    Along-fail v h =
        Along-resume P {A = Order} _ (beside (marked event_id) (get_by_id order) v)
          (Along-read event_id order v h)
          (λ o x rows seen. elim (Bool-cases (is_terminal o.status)) [
            | inl e ↦ rw e (record { rows = rows; seen = λ a f. seen })
            | inr e ↦ rw e (
                Along-resume P {A = Unit {0}} _
                  (beside (marked event_id) (mark_compensating order) x)
                  (Along-above P event_id (mark_compensating order x) (kept.by_mark event_id)
                    (compensating-keeps order x rows))
                  (λ _ y rows_y seen_y.
                    Along-resume P {A = Unit {0}} _
                      (compensate_by replied (marked event_id) order (release_stock order) y)
                      (Along-compensate (release_stock order) y rows_y seen_y)
                      (λ _ z rows_z seen_z.
                        Along-exec P (compensate_body o fail_order) z
                          (kept.by_compensate o fail_order) rows_z seen_z)))
          ])

    Along-react :
        (kind : EventType) (v : World Tables Remote)
        → (kind ≡ payment_processed) ⊎ (kind ≡ payment_failed)
        → P v.committed
        → Along P (react replied kind event_id order v)
    unfolding react
    Along-react kind v (inl k) h = rw k (Along-confirm event_id order v h)
    Along-react kind v (inr k) h = rw k (Along-fail v h)

    handled-keeps :
        (kind : EventType) (w : World Tables Remote)
        → (kind ≡ payment_processed) ⊎ (kind ≡ payment_failed)
        → P w.committed
        → P (with_order replied kind event_id (some order) w).1.committed
    unfolding handle_marked
    handled-keeps kind w k h =
        session-keeps P (handle_marked replied kind event_id order) w h (λ v rows seen.
          Along-resume P {A = Bool} _ (exec (mark_event event_id) v)
            (Along-exec P (mark_event event_id) v (mark_event-keeps event_id) rows seen)
            (λ fresh x rows_x seen_x. elim (Bool-cases fresh) [
              | inl e ↦ rw e (Along-react kind x k rows_x)
              | inr e ↦ rw e (record { rows = rows_x; seen = λ a f. seen_x })
            ]))

-- Whatever the payment event, the answers of the other services and the failures of the database.
pub handle_payment-keeps :
    (P : Tables → Type 0)
    → IsKept P
    → (replied : Remote → ℕ → Result (Unit {0})) (kind : EventType) (event_id : ℕ)
      (order : Option ℕ) (w : World Tables Remote)
    → P w.committed
    → P (handle_payment replied kind event_id order w).1.committed
unfolding handle_payment
handle_payment-keeps P kept replied payment_processed event_id (some order) w h =
    handled-keeps P kept replied event_id order payment_processed w (inl refl) h
handle_payment-keeps P kept replied payment_failed event_id (some order) w h =
    handled-keeps P kept replied event_id order payment_failed w (inr refl) h
handle_payment-keeps P kept replied payment_processed event_id none w h = h
handle_payment-keeps P kept replied payment_failed event_id none w h = h
handle_payment-keeps P kept replied _ event_id order w h = h
