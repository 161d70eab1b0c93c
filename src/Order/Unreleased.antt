-- ===== src/Order/Unreleased.antt =====
-- A failed payment whose reservation cannot be released.
use eventflow_commerce.Common.{
  ℕ, ◌+◌, ◌≡◌, refl, ◌∙◌, true, false, some, List, [], ◌∷◌, ◌++◌, where_rows, update_rows, arith,
}
use eventflow_commerce.Errors.{Error, Result, ok, err}
use eventflow_commerce.Database.{World, answers, select, begin, commit, exec, finish, in_tx}
use eventflow_commerce.Database.Session.{execute, in_session}
use eventflow_commerce.Messaging.Outbox.{payment_failed}
use eventflow_commerce.Messaging.Processed.{was_processed}
use eventflow_commerce.Order.Domain.{Order}
use eventflow_commerce.Order.Saga.{State, awaiting_payment, compensating, can_transition}
use eventflow_commerce.Order.Rows.{
  Tables, with_error, SagaRow, has_id, is_saga_of, first_order, first_state, set_state, note_error,
  mark_event, transition_saga, state_for_update, update_state,
}
use eventflow_commerce.Order.Service.{
  Remote, release_stock, is_terminal, get_by_id, fail_payment, mark_compensating, call_remote,
  compensate_by, marked, react, handle_marked, handle_payment,
}

abbrev pub state_of : ℕ → Tables → Result State
state_of id t = first_state (where_rows (is_saga_of id) t.sagas)

-- The orders, the outbox and the marked events are as before.
abbrev pub SameButSaga : Tables → Tables → Type 0
SameButSaga t v = (v.orders ≡ t.orders) × ((v.outbox ≡ t.outbox) × (v.processed ≡ t.processed))

noted_state :
    (id : ℕ) (rows : List SagaRow)
    → first_state (where_rows (is_saga_of id) (update_rows (is_saga_of id) note_error rows))
      ≡ first_state (where_rows (is_saga_of id) rows)
noted_state id [] = refl
noted_state id (s ∷ rows) = ground (arith, noted_state id rows)

pub moved_state :
    (id : ℕ) (from to : State) (rows : List SagaRow)
    → first_state (where_rows (is_saga_of id) rows) ≡ ok from
    → first_state (where_rows (is_saga_of id) (update_rows (is_saga_of id) (set_state to) rows))
      ≡ ok to
moved_state id from to [] h = absurd (cc)
moved_state id from to (s ∷ rows) h = ground (arith, moved_state id from to rows)

-- A world whose server answers every call.
abbrev pub answering : Tables → Tables → List Remote → ℕ → World Tables Remote
answering t view calls clock = record {
  committed = t;
  view = view;
  calls = calls;
  clock = clock;
  replies = λ _. answers;
}

abbrev moved : ℕ → Tables → Tables
moved id t = record t { sagas = update_rows (is_saga_of id) (set_state compensating) t.sagas }

module _ (t u : Tables) (calls : List Remote) (n order : ℕ) where
  get_answered :
      (row : Order)
      → first_order order (where_rows (has_id order) t.orders) ≡ ok row
      → get_by_id order (answering t u calls n) ≡ (ok row, answering t u calls (n + 1 + 1))
  unfolding get_by_id select
  get_answered row stood = rw (stood) refl

  mark_answered :
      (event_id : ℕ)
      → was_processed event_id u.processed ≡ false
      → exec (mark_event event_id) (answering t u calls n)
        ≡ (ok true, answering t (marked event_id u) calls (n + 1))
  unfolding exec mark_event
  mark_answered event_id new = rw (new) refl

  compensating_answered :
      state_of order t ≡ ok awaiting_payment
      → mark_compensating order (answering t u calls n)
        ≡ (ok tt, answering (moved order t) (moved order t) calls (n + 1 + 1 + 1 + 1))
  unfolding mark_compensating in_tx begin exec commit transition_saga state_for_update
      can_transition update_state
  compensating_answered awaiting = rw awaiting refl

  refused_answered :
      (replied : Remote → ℕ → Result (Unit {0})) (writes : Tables → Tables) (r : Remote) (e : Error)
      → replied r n ≡ err e
      → compensate_by replied writes order r (answering t u calls n) ≡ (
        err e,
        answering (with_error order t) (writes (with_error order t)) (calls ++ r ∷ []) (n + 1),
      )
  unfolding compensate_by call_remote execute
  refused_answered replied writes r e refused = rw refused refl

module _ (replied : Remote → ℕ → Result (Unit {0})) (order : ℕ) (e : Error) (row : Order)
    (refused : (n : ℕ) → replied (release_stock order) n ≡ err e)
    (waiting : is_terminal row.status ≡ false) where
  -- The tables after a failed compensation.
  abbrev stuck : Tables → Tables
  stuck t = with_error order (moved order t)

  fail_answered :
      (writes : Tables → Tables) (t u : Tables) (calls : List Remote) (n : ℕ)
      → first_order order (where_rows (has_id order) t.orders) ≡ ok row
      → state_of order t ≡ ok awaiting_payment
      → (fail_payment replied writes order (answering t u calls n)).0 ≡ err e
        × (fail_payment replied writes order (answering t u calls n)).1.committed ≡ stuck t
  unfolding fail_payment
  fail_answered writes t u calls n stood awaiting =
      rw
        (
          get_answered t u calls n order row stood,
          waiting,
          compensating_answered t (writes t) calls (n + 1 + 1) order awaiting,
          refused_answered (moved order t) (writes (moved order t)) calls
              (n + 1 + 1 + 1 + 1 + 1 + 1) order replied writes (release_stock order) e
              (refused (n + 1 + 1 + 1 + 1 + 1 + 1)),
        )
        (refl, refl)

  finish_err :
      (c : Tables) (o : Result (Unit {0}) × World Tables Remote)
      → ((o.0 ≡ err e) × (o.1.committed ≡ c))
      → ((finish o).0 ≡ err e) × ((finish o).1.committed ≡ c)
  unfolding commit
  finish_err c (ok a, v) h = absurd (cc)
  finish_err c (err x, v) h = h

  handled_stuck :
      (event_id : ℕ) (t u : Tables) (calls : List Remote) (n : ℕ)
      → was_processed event_id t.processed ≡ false
      → first_order order (where_rows (has_id order) t.orders) ≡ ok row
      → state_of order t ≡ ok awaiting_payment
      → ((handle_payment replied payment_failed event_id (some order) (answering t u calls n)).0
          ≡ err e)
        × ((handle_payment replied payment_failed event_id
              (some order)
              (answering t u calls n)).1.committed
            ≡ stuck t)
  unfolding handle_payment in_session begin handle_marked react
  handled_stuck event_id t u calls n new stood awaiting = finish_err (stuck t) _ (
      rw (mark_answered t t calls (n + 1) order event_id new)
        (fail_answered (marked event_id) t (marked event_id t) calls (n + 1 + 1) stood awaiting))

  -- When an order awaits its payment, the payment fails, the inventory service refuses to release
  -- the reservation, and the server answers every call, the error is returned; orders and outbox
  -- are as before and the event is not marked, so that it comes again; and the saga is committed as
  -- compensating.
  pub handle_payment_unreleased :
      (event_id : ℕ) (t u : Tables) (calls : List Remote) (n : ℕ)
      → was_processed event_id t.processed ≡ false
      → first_order order (where_rows (has_id order) t.orders) ≡ ok row
      → state_of order t ≡ ok awaiting_payment
      → ((handle_payment replied payment_failed event_id (some order) (answering t u calls n)).0
          ≡ err e)
        × ((state_of order
                (handle_payment replied payment_failed event_id
                  (some order)
                  (answering t u calls n)).1.committed
              ≡ ok compensating)
            × SameButSaga t
                (handle_payment replied payment_failed event_id
                  (some order)
                  (answering t u calls n)).1.committed)
  handle_payment_unreleased event_id t u calls n new stood awaiting =
      let (failed, rows) = handled_stuck event_id t u calls n new stood awaiting in
      (
        failed,
        rw rows (
          noted_state order (moved order t).sagas
              ∙ moved_state order awaiting_payment compensating t.sagas awaiting,
          (refl, (refl, refl)),
        ),
      )
