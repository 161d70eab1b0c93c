-- ===== src/Order/Reads/Past.antt =====
-- An earlier reading of an order against the order that is committed later.
use eventflow_commerce.Common.{
  ℕ, ◌≡◌, refl, ap, ◌∙◌, subst, inl, inr, Bool, Bool-cases, List, [], ◌∷◌, ◌++◌, ◌≤◌, ◌==◌,
  where_rows, update_rows, any_row, arith,
}
use eventflow_commerce.Errors.{Result, ok}
use eventflow_commerce.Database.{done}
use eventflow_commerce.Database.Preserves.{
  Preserves, Preserves-done, Preserves-call, Preserves-bind, Preserves-if,
}
use eventflow_commerce.Messaging.Outbox.{
  EventType, Message, order_ready_for_payment, order_confirmed, order_cancelled,
}
use eventflow_commerce.Order.Domain.{Status, Order, OrderItem, mark_pending, confirm}
use eventflow_commerce.Order.Saga.{
  State, stock_reserved, awaiting_payment, paid, completed, compensated, can_transition, same_state,
}
use eventflow_commerce.Order.Rows.{
  Tables, OrderPayload, has_id, first_order, at_version, set_status, enqueue, update_status,
  start_saga, transition_saga, state_for_update, move_saga, update_state, is_saga_of,
}
use eventflow_commerce.Order.Orders.{
  insert_order, insert_item, insert_items, save_writes, with_item, created_message,
}
use eventflow_commerce.Order.Service.{apply_transition, pending_body, confirm_body, compensate_body}
use eventflow_commerce.Order.Agreement.{row_of}
use eventflow_commerce.Order.Along.Events.{IsKept}

-- The same order, of the same customer and the same amount, at this version or a later one.
pub record IsEarlier (o p : Order) : Type 0 where
  pub same_id : p.id ≡ o.id
  pub same_customer : p.customer_id ≡ o.customer_id
  pub same_total : p.total_amount_cents ≡ o.total_amount_cents
  pub same_currency : p.currency ≡ o.currency
  pub not_newer : o.version ≤ p.version

pub IsEarlier-refl : (o : Order) → IsEarlier o o
IsEarlier-refl o = record {
  same_id = refl;
  same_customer = refl;
  same_total = refl;
  same_currency = refl;
  not_newer = omega arith;
}

IsEarlier-trans : (o p q : Order) → IsEarlier o p → IsEarlier p q → IsEarlier o q
IsEarlier-trans o p q h k = record {
  same_id = k.same_id ∙ h.same_id;
  same_customer = k.same_customer ∙ h.same_customer;
  same_total = k.same_total ∙ h.same_total;
  same_currency = k.same_currency ∙ h.same_currency;
  not_newer = omega (arith, h.not_newer, k.not_newer);
}

-- The order of this id is committed, and what was read is an earlier version of it.
pub record IsPast (id : ℕ) (o : Order) (t : Tables) : Type 0 where
  pub now : Order
  pub stands : row_of id t ≡ ok now
  pub earlier : IsEarlier o now

updated :
    (id : ℕ) (k : Order → Bool) (f : Order → Order) (rows : List Order) (p : Order)
    → ((q : Order) → IsEarlier q (f q))
    → first_order id (where_rows (has_id id) rows) ≡ ok p
    → (q : Order) × (first_order id (where_rows (has_id id) (update_rows k f rows)) ≡ ok q)
      × IsEarlier p q
updated id k f [] p later = λ h. absurd (cc)
updated id k f (x ∷ rows) p later = elim (Bool-cases (k x)) [
  | inl e ↦ elim (Bool-cases (x.id == id)) [
    | inl y ↦
        rw (e, y, ap (λ i. i == id) (later x).same_id ∙ y)
          (λ h.
            let same : x ≡ p = cc h in (f x, refl, subst (λ q. IsEarlier q (f x)) same (later x)))
    | inr n ↦ rw (e, n, ap (λ i. i == id) (later x).same_id ∙ n) (updated id k f rows p later)
  ]
  | inr e ↦ elim (Bool-cases (x.id == id)) [
    | inl y ↦
        rw (e, y)
          (λ h.
            let same : x ≡ p = cc h in
            (x, refl, subst (λ q. IsEarlier q x) same (IsEarlier-refl x)))
    | inr n ↦ rw (e, n) (updated id k f rows p later)
  ]
]

extended :
    (id : ℕ) (rows : List Order) (row p : Order)
    → first_order id (where_rows (has_id id) rows) ≡ ok p
    → first_order id (where_rows (has_id id) (rows ++ row ∷ [])) ≡ ok p
extended id [] row p = λ h. absurd (cc)
extended id (x ∷ rows) row p = elim (Bool-cases (x.id == id)) [
  | inl y ↦ rw y (λ h. h)
  | inr n ↦ rw n (extended id rows row p)
]

module _ (id : ℕ) (o : Order) where
  IsPast-same : (t u : Tables) → u.orders ≡ t.orders → IsPast id o t → IsPast id o u
  IsPast-same t u e h = record {
    now = h.now;
    stands = ap (λ rows. first_order id (where_rows (has_id id) rows)) e ∙ h.stands;
    earlier = h.earlier;
  }

  IsPast-updated :
      (k : Order → Bool) (f : Order → Order) (t : Tables)
      → ((q : Order) → IsEarlier q (f q))
      → IsPast id o t
      → IsPast id o (record t { orders = update_rows k f t.orders })
  IsPast-updated k f t later h =
      let u = updated id k f t.orders h.now later h.stands in
      record { now = u.0; stands = u.1; earlier = IsEarlier-trans o h.now u.0 h.earlier u.2 }

  start_saga-IsPast : (order : ℕ) → Preserves (IsPast id o) (start_saga order)
  unfolding start_saga
  start_saga-IsPast order = Preserves-call _ _ (λ t h.
      elim (Bool-cases (any_row (is_saga_of order) t.sagas)) [
        | inl e ↦ rw e h
        | inr e ↦ rw e (IsPast-same t _ refl h)
      ])

  transition_saga-IsPast :
      (order : ℕ) (to : State) → Preserves (IsPast id o) (transition_saga order to)
  unfolding transition_saga state_for_update update_state
  transition_saga-IsPast order to =
      Preserves-bind (state_for_update order) (move_saga order to) (Preserves-call _ _ (λ t h. h))
        (λ current.
          Preserves-if (can_transition current to) _ _
            (Preserves-if (same_state current to) _ _ (Preserves-done (ok tt))
              (Preserves-call _ _ (λ t h. IsPast-same t _ refl h)))
            (Preserves-done _))

  enqueue-IsPast : (m : Message OrderPayload) → Preserves (IsPast id o) (enqueue m)
  unfolding enqueue
  enqueue-IsPast m = Preserves-call _ _ (λ t h. IsPast-same t _ refl h)

  update_status-IsPast :
      (order : ℕ) (to : Status) (expected : ℕ)
      → Preserves (IsPast id o) (update_status order to expected)
  unfolding update_status
  update_status-IsPast order to expected = Preserves-call _ _ (λ t h.
      IsPast-updated (at_version order expected) (set_status to) t
        (λ q. record {
          same_id = refl;
          same_customer = refl;
          same_total = refl;
          same_currency = refl;
          not_newer = omega arith;
        })
        h)

  apply_transition-IsPast :
      (p : Order) (step : Order → Result Order) (kind : EventType)
      → Preserves (IsPast id o) (apply_transition p step kind)
  unfolding apply_transition
  apply_transition-IsPast p step kind =
      Preserves-bind (done (step p)) _ (Preserves-done (step p)) (λ q.
        Preserves-bind (update_status q.id q.status p.version) _
          (update_status-IsPast q.id q.status p.version) (λ _. enqueue-IsPast _))

  pub pending_body-IsPast : (p : Order) → Preserves (IsPast id o) (pending_body p)
  unfolding pending_body
  pending_body-IsPast p = Preserves-bind (start_saga p.id) _ (start_saga-IsPast p.id) (λ _.
      Preserves-bind (transition_saga p.id stock_reserved) _
        (transition_saga-IsPast p.id stock_reserved)
        (λ _.
          Preserves-bind (apply_transition p mark_pending order_ready_for_payment) _
            (apply_transition-IsPast p mark_pending order_ready_for_payment)
            (λ _. transition_saga-IsPast p.id awaiting_payment)))

  pub IsPast-IsKept : IsKept (IsPast id o)
  unfolding confirm_body compensate_body
  IsPast-IsKept = record {
    by_mark = λ event_id t h. IsPast-same t _ refl h;
    by_note = λ order t h. IsPast-same t _ refl h;
    by_transition = transition_saga-IsPast;
    by_confirm = λ p.
        Preserves-bind (transition_saga p.id paid) _ (transition_saga-IsPast p.id paid) (λ _.
          Preserves-bind (apply_transition p confirm order_confirmed) _
            (apply_transition-IsPast p confirm order_confirmed)
            (λ _. transition_saga-IsPast p.id completed));
    by_compensate = λ p step.
        Preserves-bind (apply_transition p step order_cancelled) _
          (apply_transition-IsPast p step order_cancelled)
          (λ _. transition_saga-IsPast p.id compensated);
  }

  items-IsPast :
      (order : ℕ) (items : List OrderItem) → Preserves (IsPast id o) (insert_items order items)
  unfolding insert_items insert_item
  items-IsPast order [] = Preserves-done (ok tt)
  items-IsPast order (i ∷ items) =
      Preserves-bind (insert_item order i) _
        (Preserves-call _ _ (λ t h.
          IsPast-updated (has_id order) (with_item i) t
            (λ q. record {
              same_id = refl;
              same_customer = refl;
              same_total = refl;
              same_currency = refl;
              not_newer = omega arith;
            })
            h))
        (λ _. items-IsPast order items)

  pub save_writes-IsPast : (p : Order) → Preserves (IsPast id o) (save_writes p)
  unfolding save_writes insert_order
  save_writes-IsPast p =
      Preserves-bind (insert_order p) _
        (Preserves-call _ _ (λ t h. record {
          now = h.now;
          stands = extended id t.orders (record p { items = [] }) h.now h.stands;
          earlier = h.earlier;
        }))
        (λ _.
          Preserves-bind (insert_items p.id p.items) _ (items-IsPast p.id p.items)
            (λ _. enqueue-IsPast (created_message p)))
