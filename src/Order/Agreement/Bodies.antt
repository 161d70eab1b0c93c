-- ===== src/Order/Agreement/Bodies.antt =====
-- The transactions of service/order.go leave the status of an order and its saga in agreement.
use eventflow_commerce.Common.{
  ℕ, ◌≡◌, ◌≢◌, refl, sym, ap, ◌∙◌, subst, inl, inr, Bool, Bool-cases, true, false, [], ◌∷◌, ◌++◌,
  List, ◌==◌, ==_iff, where_rows, any_row, arith,
}
use eventflow_commerce.Errors.{Result, ok}
use eventflow_commerce.Database.{run, ◌>>◌}
use eventflow_commerce.Database.Atomic.{bind-Split}
use eventflow_commerce.Messaging.Outbox.{EventType}
use eventflow_commerce.Order.Domain.{
  Status, Order, pending, is_pending, is_pending_payment, cancel_order, pending_payment,
  payment_failed, confirmed, cancelled, move, mark_pending, confirm, fail_order,
}
use eventflow_commerce.Order.Saga.{
  State, stock_reserved, awaiting_payment, paid, compensating, compensated, completed,
}
use eventflow_commerce.Order.Rows.{
  Tables, SagaRow, set_status, is_saga_of, first_state, has_id, first_order, start_saga,
  transition_saga,
}
use eventflow_commerce.Order.Service.{
  is_terminal, apply_transition, pending_body, confirm_body, compensate_body,
}
use eventflow_commerce.Order.Unreleased.{state_of}
use eventflow_commerce.Order.Agreement.{
  Agrees, Agrees-same, agrees, row_of, Stepped, Applied, transition_saga-Stepped,
  apply_transition-Applied,
}

-- A transaction has moved the order to a status and its saga to a state, and nothing else.
record Settles (o : Order) (to : Status) (s : State) (t u : Tables) : Type 0 where
  own : row_of o.id u ≡ ok (set_status to o)
  saga : state_of o.id u ≡ ok s
  other_order : (id : ℕ) → id ≢ o.id → row_of id u ≡ row_of id t
  other_saga : (id : ℕ) → id ≢ o.id → state_of id u ≡ state_of id t

pub order_eq : (id : ℕ) (t u : Tables) → u.orders ≡ t.orders → row_of id u ≡ row_of id t
order_eq id t u e = ap (λ rows. first_order id (where_rows (has_id id) rows)) e

saga_eq : (id : ℕ) (t u : Tables) → u.sagas ≡ t.sagas → state_of id u ≡ state_of id t
saga_eq id t u e = ap (λ rows. first_state (where_rows (is_saga_of id) rows)) e

status_eq : (o p : Order) (to : Status) → ok (set_status to o) ≡ ok p → p.status ≡ to
status_eq o p to h =
    let same : set_status to o ≡ p = cc h in sym (ap (λ (q : Order). q.status) same)

Settles-Agrees :
    (id : ℕ) (o : Order) (to : Status) (s : State) (t u : Tables)
    → Settles o to s t u
    → agrees to (ok s) ≡ true
    → Agrees id t
    → Agrees id u
Settles-Agrees id o to s t u h fit a = elim (Bool-cases (id == o.id)) [
  | inl e ↦
      subst (λ i. Agrees i u) (sym ((==_iff id o.id).0 e))
        (record {
          matches = λ p stands.
              subst (λ (r : Result State). agrees p.status r ≡ true) (sym h.saga)
                (subst (λ x. agrees x (ok s) ≡ true) (sym (status_eq o p to (sym h.own ∙ stands)))
                  fit);
        })
  | inr e ↦
      let apart : id ≢ o.id = ground arith in
      Agrees-same id t u (h.other_order id apart) (h.other_saga id apart) a
]

module _ (o : Order) (to : Status) (s : State) (t u v : Tables) (a : Applied o to t u) where
  -- The order is moved first, then its saga.
  then-Stepped : row_of o.id t ≡ ok o → Stepped o.id s u v → Settles o to s t v
  then-Stepped stands m = record {
    own = order_eq o.id u v m.same_orders ∙ a.own stands;
    saga = m.now;
    other_order = λ id h. order_eq id u v m.same_orders ∙ a.others id h;
    other_saga = λ id h. m.others id h ∙ saga_eq id t u a.same_sagas;
  }

-- A step that leaves the orders and the other sagas alone, then what follows.
after :
    (o : Order) (to : Status) (s : State) (t u v : Tables)
    → u.orders ≡ t.orders
    → ((id : ℕ) → id ≢ o.id → state_of id u ≡ state_of id t)
    → Settles o to s u v
    → Settles o to s t v
after o to s t u v same others h = record {
  own = h.own;
  saga = h.saga;
  other_order = λ id n. h.other_order id n ∙ order_eq id t u same;
  other_saga = λ id n. h.other_saga id n ∙ others id n;
}

started_other :
    (id : ℕ) (rows : List SagaRow) (row : SagaRow)
    → id ≢ row.saga_order
    → first_state (where_rows (is_saga_of id) (rows ++ row ∷ []))
      ≡ first_state (where_rows (is_saga_of id) rows)
started_other id [] row h = ground arith
started_other id (x ∷ rows) row h = ground (arith, started_other id rows row h)

-- `Start` leaves the orders and the sagas of other orders alone.
begun :
    (order : ℕ) (t u : Tables)
    → run (start_saga order) t ≡ (ok tt, u)
    → (u.orders ≡ t.orders) × ((id : ℕ) → id ≢ order → state_of id u ≡ state_of id t)
unfolding start_saga run
begun order t u = elim (Bool-cases (any_row (is_saga_of order) t.sagas)) [
  | inl e ↦ rw e (λ h. absurd (cc h))
  | inr e ↦ rw e (λ h.
      subst (λ v. (v.orders ≡ t.orders) × ((id : ℕ) → id ≢ order → state_of id v ≡ state_of id t))
        (ap (λ (r : Result (Unit {0}) × Tables). r.1) h)
        (refl, λ id n. started_other id t.sagas _ n))
]

moved_Settles :
    (o : Order) (from : Status → Bool) (to : Status) (s : State) (kind : EventType) (t u : Tables)
    → row_of o.id t ≡ ok o
    → run (apply_transition o (move from to) kind >> transition_saga o.id s) t ≡ (ok tt, u)
    → Settles o to s t u
moved_Settles o from to s kind t u stands e =
    let x = bind-Split (apply_transition o (move from to) kind) _ t tt u e in
    then-Stepped o to s t x.middle u (apply_transition-Applied from to o kind t x.middle x.first)
      stands (transition_saga-Stepped o.id s x.middle u x.second)

module _ (id : ℕ) (o : Order) (t u : Tables) (stands : row_of o.id t ≡ ok o) where
  pub pending_body-Agrees : run (pending_body o) t ≡ (ok tt, u) → Agrees id t → Agrees id u
  unfolding pending_body mark_pending agrees
  pending_body-Agrees e =
      let x = bind-Split (start_saga o.id) _ t tt u e in
      let y = bind-Split (transition_saga o.id stock_reserved) _ x.middle tt u x.second in
      let b = begun o.id t x.middle x.first in
      let f = transition_saga-Stepped o.id stock_reserved x.middle y.middle y.first in
      Settles-Agrees id o pending_payment awaiting_payment t u
        (after o pending_payment awaiting_payment t x.middle u b.0 b.1 (
          after o pending_payment awaiting_payment x.middle y.middle u f.same_orders f.others (
            moved_Settles o is_pending pending_payment awaiting_payment _ y.middle u
              (order_eq o.id x.middle y.middle f.same_orders
                ∙ order_eq o.id t x.middle b.0
                ∙ stands)
              y.second)))
        refl

  pub confirm_body-Agrees : run (confirm_body o) t ≡ (ok tt, u) → Agrees id t → Agrees id u
  unfolding confirm_body confirm agrees
  confirm_body-Agrees e =
      let x = bind-Split (transition_saga o.id paid) _ t tt u e in
      let f = transition_saga-Stepped o.id paid t x.middle x.first in
      Settles-Agrees id o confirmed completed t u
        (after o confirmed completed t x.middle u f.same_orders f.others (
          moved_Settles o is_pending_payment confirmed completed _ x.middle u
            (order_eq o.id t x.middle f.same_orders ∙ stands) x.second))
        refl

  pub fail_body-Agrees :
      run (compensate_body o fail_order) t ≡ (ok tt, u) → Agrees id t → Agrees id u
  unfolding compensate_body fail_order agrees
  fail_body-Agrees e =
      Settles-Agrees id o payment_failed compensated t u
        (moved_Settles o is_pending_payment payment_failed compensated _ t u stands e) refl

  pub cancel_body-Agrees :
      run (compensate_body o cancel_order) t ≡ (ok tt, u) → Agrees id t → Agrees id u
  unfolding compensate_body cancel_order agrees
  cancel_body-Agrees e =
      Settles-Agrees id o cancelled compensated t u
        (moved_Settles o _ cancelled compensated _ t u stands e) refl

compensating_fits :
    (s : Status) (from : State)
    → is_terminal s ≡ false
    → agrees s (ok from) ≡ true
    → agrees s (ok compensating) ≡ true
unfolding is_terminal agrees
compensating_fits pending_payment from n h = refl
compensating_fits pending from n h = absurd (cc h)
compensating_fits s from n h = ground arith

-- `markCompensating` for an order that is not terminal
module _ (id : ℕ) (o : Order) (t u : Tables) (stands : row_of o.id t ≡ ok o) where
  pub compensating-Agrees :
      is_terminal o.status ≡ false
      → Agrees o.id t
      → run (transition_saga o.id compensating) t ≡ (ok tt, u)
      → Agrees id t
      → Agrees id u
  compensating-Agrees n own e a =
      let f = transition_saga-Stepped o.id compensating t u e in
      elim (Bool-cases (id == o.id)) [
        | inl same ↦
            subst (λ i. Agrees i u) (sym ((==_iff id o.id).0 same))
              (record {
                matches = λ p q.
                    let is_o : o ≡ p = cc (sym (order_eq o.id t u f.same_orders ∙ stands) ∙ q) in
                    subst (λ (x : Order). agrees x.status (state_of o.id u) ≡ true) is_o
                      (subst (λ r. agrees o.status r ≡ true) (sym f.now)
                        (compensating_fits o.status f.from n
                          (subst (λ r. agrees o.status r ≡ true) f.was (own.matches o stands))));
              })
        | inr apart ↦
            Agrees-same id t u (order_eq id t u f.same_orders) (f.others id (ground arith)) a
      ]
