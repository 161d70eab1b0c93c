-- ===== src/Order/Agreement/Consumer.antt =====
-- The consumer of payment events keeps every order in agreement with its saga.
use eventflow_commerce.Common.{
  ℕ, ◌≡◌, refl, sym, ap, ◌∙◌, subst, ◌⊎◌, inl, inr, Bool, Bool-cases, false, Option, none, some,
}
use eventflow_commerce.Errors.{Result, ok, err}
use eventflow_commerce.Database.{World, run, exec}
use eventflow_commerce.Database.Atomic.{in_tx-keeps}
use eventflow_commerce.Database.Preserves.{Preserves-call}
use eventflow_commerce.Database.Actions
use eventflow_commerce.Database.Session.{beside, above}
use eventflow_commerce.Messaging.Outbox.{EventType, payment_processed, payment_failed}
use eventflow_commerce.Order.Domain.{Order, fail_order}
use eventflow_commerce.Order.Saga.{compensating}
use eventflow_commerce.Order.Rows.{Tables, mark_event, transition_saga, with_error}
use eventflow_commerce.Order.Service.{
  Remote, Step, release_stock, is_terminal, get_by_id, mark_compensating, confirm_body,
  compensate_body, call_remote, compensate_by, noted, confirm_payment, fail_payment, marked, react,
  handle_marked, with_order, handle_payment,
}
use eventflow_commerce.Order.Along.{
  get_rows, get_first, first_order_id, Along, Along-into, Along-resume, Along-run, Along-exec,
  Along-above, session-keeps, execute-keeps,
}
use eventflow_commerce.Order.Progress.{noted_other}
use eventflow_commerce.Order.Agreement.{Agrees, Agrees-same, row_of, transition_saga-Stepped}
use eventflow_commerce.Order.Agreement.Bodies.{
  confirm_body-Agrees, fail_body-Agrees, compensating-Agrees, order_eq,
}

-- Every order agrees with its saga.
pub record IsSettled (t : Tables) : Type 0 where
  pub each : (id : ℕ) → Agrees id t

-- Besides, this is the row of the order.
record IsRead (o : Order) (t : Tables) : Type 0 where
  settled : IsSettled t
  stands : row_of o.id t ≡ ok o

marked-IsSettled : (event_id : ℕ) (t : Tables) → IsSettled t → IsSettled (marked event_id t)
marked-IsSettled event_id t h = record { each = λ id. Agrees-same id t _ refl refl (h.each id) }

marked-IsRead : (event_id : ℕ) (o : Order) (t : Tables) → IsRead o t → IsRead o (marked event_id t)
marked-IsRead event_id o t h = record {
  settled = marked-IsSettled event_id t h.settled;
  stands = h.stands;
}

noted-IsRead : (id : ℕ) (o : Order) (t : Tables) → IsRead o t → IsRead o (with_error id t)
noted-IsRead other o t h = record {
  settled = record {
    each = λ id. Agrees-same id t _ refl (noted_other id other t.sagas) (h.settled.each id);
  };
  stands = h.stands;
}

-- A call that reads the order first.
Along-read :
    {B : Type 0} (f : Order → Step B) (writes : Tables → Tables) (order : ℕ)
    (o : Result Order × World Tables Remote)
    → ((t : Tables) (p : Order) → IsRead p t → IsRead p (writes t))
    → IsSettled o.1.committed
    → ((p : Order) → o.0 ≡ ok p → row_of order o.1.committed ≡ ok p)
    → ((p : Order) (v : World Tables Remote)
        → p.id ≡ order
        → IsRead p v.committed
        → IsRead p v.view
        → Along IsSettled (f p v))
    → Along IsSettled (Actions.resume f (above writes o))
Along-read f writes order (err e, v) k h first next = record { rows = h; seen = λ a e. absurd (cc) }
Along-read f writes order (ok p, v) k h first next =
    let own : p.id ≡ order = first_order_id order v.committed.orders p (first p refl) in
    let r : IsRead p v.committed = record {
      settled = h;
      stands = subst (λ i. row_of i v.committed ≡ ok p) (sym own) (first p refl);
    } in
    next p (record v { view = writes v.committed }) own r (k v.committed p r)

compensating-IsRead :
    (o : Order) (order : ℕ) (v : World Tables Remote)
    → o.id ≡ order
    → is_terminal o.status ≡ false
    → IsRead o v.committed
    → IsRead o (mark_compensating order v).1.committed
unfolding mark_compensating
compensating-IsRead o order v own n h =
    in_tx-keeps (IsRead o) (transition_saga order compensating) v
      (λ a u e.
        let ran : run (transition_saga o.id compensating) v.committed ≡ (ok tt, u) =
          subst (λ i. run (transition_saga i compensating) v.committed ≡ (ok tt, u)) (sym own) e in
        record {
          settled = record {
            each = λ id.
                compensating-Agrees id o v.committed u h.stands n (h.settled.each o.id) ran
                  (h.settled.each id);
          };
          stands =
              order_eq o.id v.committed u
                (transition_saga-Stepped o.id compensating v.committed u ran).same_orders
              ∙ h.stands;
        })
      h

module _ (event_id order : ℕ) where
  read-Along :
      {B : Type 0} (f : Order → Step B) (v : World Tables Remote)
      → IsSettled v.committed
      → ((p : Order) (x : World Tables Remote)
          → p.id ≡ order
          → IsRead p x.committed
          → IsRead p x.view
          → Along IsSettled (f p x))
      → Along IsSettled (Actions.resume f (beside (marked event_id) (get_by_id order) v))
  read-Along f v h next =
      Along-read f (marked event_id) order (get_by_id order v)
        (λ t p r. marked-IsRead event_id p t r) (subst IsSettled (sym (get_rows order v)) h)
        (λ p e. ap (λ t. row_of order t) (get_rows order v) ∙ get_first order v p e) next

  Along-confirm :
      (v : World Tables Remote)
      → IsSettled v.committed
      → Along IsSettled (confirm_payment (marked event_id) order v)
  unfolding confirm_payment
  Along-confirm v h = read-Along _ v h (λ o x own rows seen.
      elim (Bool-cases (is_terminal o.status)) [
        | inl e ↦ rw e (record { rows = rows.settled; seen = λ a f. seen.settled })
        | inr e ↦ rw e (
            Along-run IsSettled (confirm_body o) x
              (λ a u ran. record {
                each =
                    λ id. confirm_body-Agrees id o x.view u seen.stands ran (seen.settled.each id);
              })
              rows.settled)
      ])

  module _ (replied : Remote → ℕ → Result (Unit {0})) where
    Along-noted :
        (p : Order) (o : Result (Unit {0})) (v : World Tables Remote)
        → IsRead p v.committed
        → IsRead p v.view
        → Along (IsRead p) (noted replied (marked event_id) order (o, v))
    Along-noted p (ok a) v rows seen = record { rows = rows; seen = λ a f. seen }
    Along-noted p (err e) v rows seen = record {
      rows = execute-keeps (IsRead p) order v (noted-IsRead order p) rows;
      seen = λ a f. absurd (cc);
    }

    Along-compensate :
        (p : Order) (r : Remote) (v : World Tables Remote)
        → IsRead p v.committed
        → IsRead p v.view
        → Along (IsRead p) (compensate_by replied (marked event_id) order r v)
    unfolding compensate_by call_remote
    Along-compensate p r v rows seen =
        Along-noted p (replied r v.clock) (Actions.log_call r v) rows seen

    Along-fail :
        (v : World Tables Remote)
        → IsSettled v.committed
        → Along IsSettled (fail_payment replied (marked event_id) order v)
    unfolding fail_payment
    Along-fail v h = read-Along _ v h (λ o x own rows seen.
        elim (Bool-cases (is_terminal o.status)) [
          | inl e ↦ rw e (record { rows = rows.settled; seen = λ a f. seen.settled })
          | inr e ↦ rw e (
              Along-into (IsRead o) IsSettled (λ t r. r.settled) {A = Unit {0}} _
                (beside (marked event_id) (mark_compensating order) x)
                (Along-above (IsRead o) event_id (mark_compensating order x)
                  (marked-IsRead event_id o) (compensating-IsRead o order x own e rows))
                (λ _ y rows_y seen_y.
                  Along-into (IsRead o) IsSettled (λ t r. r.settled) {A = Unit {0}} _
                    (compensate_by replied (marked event_id) order (release_stock order) y)
                    (Along-compensate o (release_stock order) y rows_y seen_y)
                    (λ _ z rows_z seen_z.
                      Along-run IsSettled (compensate_body o fail_order) z
                        (λ a u ran. record {
                          each = λ id.
                              fail_body-Agrees id o z.view u seen_z.stands ran
                                (seen_z.settled.each id);
                        })
                        rows_z.settled)))
        ])

    Along-react :
        (kind : EventType) (v : World Tables Remote)
        → (kind ≡ payment_processed) ⊎ (kind ≡ payment_failed)
        → IsSettled v.committed
        → Along IsSettled (react replied kind event_id order v)
    unfolding react
    Along-react kind v (inl k) h = rw k (Along-confirm v h)
    Along-react kind v (inr k) h = rw k (Along-fail v h)

    handled-IsSettled :
        (kind : EventType) (w : World Tables Remote)
        → (kind ≡ payment_processed) ⊎ (kind ≡ payment_failed)
        → IsSettled w.committed
        → IsSettled (with_order replied kind event_id (some order) w).1.committed
    unfolding handle_marked mark_event
    handled-IsSettled kind w k h =
        session-keeps IsSettled (handle_marked replied kind event_id order) w h (λ v rows seen.
          Along-resume IsSettled {A = Bool} _ (exec (mark_event event_id) v)
            (Along-exec IsSettled (mark_event event_id) v
              (Preserves-call _ _ (marked-IsSettled event_id)) rows seen)
            (λ fresh x rows_x seen_x. elim (Bool-cases fresh) [
              | inl e ↦ rw e (Along-react kind x k rows_x)
              | inr e ↦ rw e (record { rows = rows_x; seen = λ a f. seen_x })
            ]))

-- Whatever the payment event, the answers of the inventory service and the failures of the database,
-- every order is afterwards in agreement with its saga, if every order was so before.
pub handle_payment-IsSettled :
    (replied : Remote → ℕ → Result (Unit {0})) (kind : EventType) (event_id : ℕ) (order : Option ℕ)
    (w : World Tables Remote)
    → IsSettled w.committed
    → IsSettled (handle_payment replied kind event_id order w).1.committed
unfolding handle_payment
handle_payment-IsSettled replied payment_processed event_id (some order) w h =
    handled-IsSettled event_id order replied payment_processed w (inl refl) h
handle_payment-IsSettled replied payment_failed event_id (some order) w h =
    handled-IsSettled event_id order replied payment_failed w (inr refl) h
handle_payment-IsSettled replied payment_processed event_id none w h = h
handle_payment-IsSettled replied payment_failed event_id none w h = h
handle_payment-IsSettled replied _ event_id order w h = h
