-- ===== src/Order/Progress.antt =====
-- The saga of an order only moves along its graph, statement by statement.
use eventflow_commerce.Common.{
  ℕ, ◌≡◌, ◌≢◌, refl, sym, ap, ◌∙◌, subst, inl, inr, Bool, Bool-cases, true, false, List, [], ◌∷◌,
  ◌++◌, ◌==◌, ==_iff, where_rows, update_rows, any_row, if◌then◌else◌, arith,
}
use eventflow_commerce.Errors.{conflict, Result, ok, err}
use eventflow_commerce.Database.{run, done, pure, ◌>>=◌}
use eventflow_commerce.Database.Preserves.{
  Preserves, Preserves-done, Preserves-call, Preserves-bind,
}
use eventflow_commerce.Messaging.Outbox.{
  EventType, order_ready_for_payment, order_confirmed, order_cancelled,
}
use eventflow_commerce.Order.Domain.{Order, mark_pending, confirm}
use eventflow_commerce.Order.Saga.{
  stock_reserved, awaiting_payment, paid, completed, compensated, State, can_transition, same_state,
  Reaches, then_to,
}
use eventflow_commerce.Order.Rows.{
  Tables, SagaRow, is_saga_of, first_state, set_state, note_error, with_error, transition_saga,
  move_saga, state_for_update, update_state, start_saga, update_status, enqueue,
}
use eventflow_commerce.Order.Service.{apply_transition, pending_body, confirm_body, compensate_body}
use eventflow_commerce.Order.Unreleased.{state_of, moved_state}

-- The saga of the order stands where transitions from a state lead.
pub record IsAhead (id : ℕ) (s : State) (t : Tables) : Type 0 where
  pub now : State
  pub stands : state_of id t ≡ ok now
  pub reached : Reaches s now

pub other_state :
    (id other : ℕ) (to : State) (rows : List SagaRow)
    → id ≢ other
    → first_state (where_rows (is_saga_of id) (update_rows (is_saga_of other) (set_state to) rows))
      ≡ first_state (where_rows (is_saga_of id) rows)
other_state id other to [] h = refl
other_state id other to (s ∷ rows) h = ground (arith, other_state id other to rows h)

pub noted_other :
    (id other : ℕ) (rows : List SagaRow)
    → first_state (where_rows (is_saga_of id) (update_rows (is_saga_of other) note_error rows))
      ≡ first_state (where_rows (is_saga_of id) rows)
noted_other id other [] = refl
noted_other id other (s ∷ rows) = ground (arith, noted_other id other rows)

started_other :
    (id : ℕ) (s : State) (rows : List SagaRow) (row : SagaRow)
    → first_state (where_rows (is_saga_of id) rows) ≡ ok s
    → first_state (where_rows (is_saga_of id) (rows ++ row ∷ [])) ≡ ok s
started_other id s [] row h = absurd (cc)
started_other id s (x ∷ rows) row h = ground (arith, started_other id s rows row)

abbrev state_or : State → Result State → State
state_or s (ok x) = x
state_or s (err e) = s

state_of_ok : (a b : State) → ok a ≡ ok b → a ≡ b
state_of_ok a b h = ap (state_or a) h

module _ (id : ℕ) (s : State) where
  pub IsAhead-same : (t u : Tables) → u.sagas ≡ t.sagas → IsAhead id s t → IsAhead id s u
  IsAhead-same t u same h = record {
    now = h.now;
    stands = ap (λ rows. first_state (where_rows (is_saga_of id) rows)) same ∙ h.stands;
    reached = h.reached;
  }

  pub IsAhead-with_error :
      (other : ℕ) (t : Tables) → IsAhead id s t → IsAhead id s (with_error other t)
  IsAhead-with_error other t h = record {
    now = h.now;
    stands = noted_other id other t.sagas ∙ h.stands;
    reached = h.reached;
  }

  updated :
      (other : ℕ) (to current : State) (t : Tables)
      → state_of other t ≡ ok current
      → can_transition current to ≡ true
      → IsAhead id s t
      → IsAhead id s (record t { sagas = update_rows (is_saga_of other) (set_state to) t.sagas })
  updated other to current t stood can h = elim (Bool-cases (id == other)) [
    | inl e ↦
        let p : id ≡ other = (==_iff id other).0 e in
        record {
          now = to;
          stands =
              ap
                (λ i. first_state (
                  where_rows (is_saga_of i)
                    (update_rows (is_saga_of other) (set_state to) t.sagas)))
                p
              ∙ moved_state other current to t.sagas stood;
          reached = then_to {m = h.now} h.reached (
              subst (λ m. can_transition m to ≡ true)
                (state_of_ok current h.now (sym stood ∙ ap (λ i. state_of i t) (sym p) ∙ h.stands))
                can);
        }
    | inr e ↦ record {
      now = h.now;
      stands = other_state id other to t.sagas (ground arith) ∙ h.stands;
      reached = h.reached;
    }
  ]

  moved_if :
      (can same : Bool) (other : ℕ) (to current : State) (t u : Tables)
      → can_transition current to ≡ can
      → state_of other t ≡ ok current
      → run
          (if can then (if same then pure tt else update_state other to) else done (err conflict))
          t
        ≡ (ok tt, u)
      → IsAhead id s t
      → IsAhead id s u
  unfolding run update_state
  moved_if true true other to current t u can stood e h =
      subst (IsAhead id s) (ap (λ (o : Result (Unit {0}) × Tables). o.1) e) h
  moved_if true false other to current t u can stood e h =
      subst (IsAhead id s) (ap (λ (o : Result (Unit {0}) × Tables). o.1) e)
        (updated other to current t stood can h)
  moved_if false same other to current t u can stood e h = absurd (cc)

  moved_from :
      (r : Result State) (other : ℕ) (to : State) (t u : Tables)
      → state_of other t ≡ r
      → run (done r >>= move_saga other to) t ≡ (ok tt, u)
      → IsAhead id s t
      → IsAhead id s u
  unfolding run
  moved_from (ok current) other to t u stood e h =
      moved_if (can_transition current to) (same_state current to) other to current t u refl stood e
        h
  moved_from (err x) other to t u stood e h = absurd (cc)

  pub transition_saga-IsAhead :
      (other : ℕ) (to : State) → Preserves (IsAhead id s) (transition_saga other to)
  unfolding transition_saga state_for_update run
  transition_saga-IsAhead other to = record {
    keep = λ t u a e h. moved_from (state_of other t) other to t u refl e h;
  }

  start_saga-IsAhead : (other : ℕ) → Preserves (IsAhead id s) (start_saga other)
  unfolding start_saga
  start_saga-IsAhead other = Preserves-call _ _ (λ t h.
      elim (Bool-cases (any_row (is_saga_of other) t.sagas)) [
        | inl e ↦ rw e h
        | inr e ↦ rw e (record {
          now = h.now;
          stands = started_other id h.now t.sagas _ h.stands;
          reached = h.reached;
        })
      ])

  apply_transition-IsAhead :
      (o : Order) (step : Order → Result Order) (kind : EventType)
      → Preserves (IsAhead id s) (apply_transition o step kind)
  unfolding apply_transition update_status enqueue
  apply_transition-IsAhead o step kind =
      Preserves-bind (done (step o)) _ (Preserves-done (step o)) (λ q.
        Preserves-bind (update_status q.id q.status o.version) _
          (Preserves-call _ _ (λ t h. IsAhead-same t _ refl h))
          (λ _. Preserves-call _ _ (λ t h. IsAhead-same t _ refl h)))

  pub pending_body-IsAhead : (o : Order) → Preserves (IsAhead id s) (pending_body o)
  unfolding pending_body
  pending_body-IsAhead o = Preserves-bind (start_saga o.id) _ (start_saga-IsAhead o.id) (λ _.
      Preserves-bind (transition_saga o.id stock_reserved) _
        (transition_saga-IsAhead o.id stock_reserved)
        (λ _.
          Preserves-bind (apply_transition o mark_pending order_ready_for_payment) _
            (apply_transition-IsAhead o mark_pending order_ready_for_payment)
            (λ _. transition_saga-IsAhead o.id awaiting_payment)))

  pub confirm_body-IsAhead : (o : Order) → Preserves (IsAhead id s) (confirm_body o)
  unfolding confirm_body
  confirm_body-IsAhead o =
      Preserves-bind (transition_saga o.id paid) _ (transition_saga-IsAhead o.id paid) (λ _.
        Preserves-bind (apply_transition o confirm order_confirmed) _
          (apply_transition-IsAhead o confirm order_confirmed)
          (λ _. transition_saga-IsAhead o.id completed))

  pub compensate_body-IsAhead :
      (o : Order) (step : Order → Result Order) → Preserves (IsAhead id s) (compensate_body o step)
  unfolding compensate_body
  compensate_body-IsAhead o step =
      Preserves-bind (apply_transition o step order_cancelled) _
        (apply_transition-IsAhead o step order_cancelled)
        (λ _. transition_saga-IsAhead o.id compensated)
