-- ===== src/Order/Agreement.antt =====
-- The status of an order against its saga: what each statement of service/order.go does to both.
pub mod Bodies
pub mod Consumer
pub mod Placing
use eventflow_commerce.Common.{
  ℕ, ◌≡◌, ◌≢◌, refl, sym, ap, ◌∙◌, subst, inl, inr, Bool, Bool-cases, true, false, List, [], ◌∷◌,
  ◌==◌, ==_refl, where_rows, update_rows, any_row, if◌then◌else◌, arith,
}
use eventflow_commerce.Errors.{Result, ok, err, conflict}
use eventflow_commerce.Database.{run, done, pure, ◌>>=◌}
use eventflow_commerce.Database.Atomic.{bind-Split}
use eventflow_commerce.Messaging.Outbox.{EventType, Message}
use eventflow_commerce.Order.Domain.{
  Status, pending, pending_payment, payment_failed, confirmed, cancelled, Order, move,
}
use eventflow_commerce.Order.Saga.{
  State, awaiting_payment, completed, compensating, compensated, can_transition, same_state,
  same_state_eq,
}
use eventflow_commerce.Order.Rows.{
  Tables, OrderPayload, has_id, at_version, set_status, set_state, is_saga_of, first_order,
  update_status, enqueue, transition_saga, state_for_update, move_saga, update_state,
}
use eventflow_commerce.Order.Service.{apply_transition}
use eventflow_commerce.Order.Unreleased.{state_of, moved_state}
use eventflow_commerce.Order.Progress.{other_state}

-- The states that the saga of an order may have between transactions, by the status of the order.
pub agrees : Status → Result State → Bool
agrees pending (err e) = true
agrees pending_payment (ok awaiting_payment) = true
agrees pending_payment (ok compensating) = true
agrees confirmed (ok completed) = true
agrees payment_failed (ok compensated) = true
agrees cancelled (ok compensated) = true
agrees _ _ = false

abbrev pub row_of : ℕ → Tables → Result Order
row_of id t = first_order id (where_rows (has_id id) t.orders)

-- The order of this id, if there is one, agrees with its saga: a pending order has none, one that
-- waits for its payment has a saga that awaits it or compensates, a confirmed order has a completed
-- saga, a failed or cancelled order a compensated one, and no order has another status.
pub record Agrees (id : ℕ) (t : Tables) : Type 0 where
  pub matches : (o : Order) → row_of id t ≡ ok o → agrees o.status (state_of id t) ≡ true

pub Agrees-same :
    (id : ℕ) (t u : Tables)
    → row_of id u ≡ row_of id t
    → state_of id u ≡ state_of id t
    → Agrees id t
    → Agrees id u
Agrees-same id t u p q h = record {
  matches = λ o e.
      subst (λ (s : Result State). agrees o.status s ≡ true) (sym q) (h.matches o (sym p ∙ e));
}

-- What a transition of the saga of an order has done.
pub record Stepped (order : ℕ) (to : State) (t u : Tables) : Type 0 where
  pub from : State
  pub was : state_of order t ≡ ok from
  pub may : can_transition from to ≡ true
  pub now : state_of order u ≡ ok to
  pub same_orders : u.orders ≡ t.orders
  pub others : (id : ℕ) → id ≢ order → state_of id u ≡ state_of id t

moved_if :
    (can same : Bool) (order : ℕ) (to from : State) (t u : Tables)
    → can_transition from to ≡ can
    → same_state from to ≡ same
    → state_of order t ≡ ok from
    → run (if can then (if same then pure tt else update_state order to) else done (err conflict)) t
      ≡ (ok tt, u)
    → Stepped order to t u
unfolding run update_state
moved_if true true order to from t u can same was e =
    subst (Stepped order to t) (ap (λ (o : Result (Unit {0}) × Tables). o.1) e) (record {
      from = from;
      was = was;
      may = can;
      now = was ∙ ap ok (same_state_eq from to same);
      same_orders = refl;
      others = λ id h. refl;
    })
moved_if true false order to from t u can same was e =
    subst (Stepped order to t) (ap (λ (o : Result (Unit {0}) × Tables). o.1) e) (record {
      from = from;
      was = was;
      may = can;
      now = moved_state order from to t.sagas was;
      same_orders = refl;
      others = λ id h. other_state id order to t.sagas h;
    })
moved_if false same order to from t u can _ was e = absurd (cc)

moved_from :
    (r : Result State) (order : ℕ) (to : State) (t u : Tables)
    → state_of order t ≡ r
    → run (done r >>= move_saga order to) t ≡ (ok tt, u)
    → Stepped order to t u
unfolding run
moved_from (ok from) order to t u was e =
    moved_if (can_transition from to) (same_state from to) order to from t u refl refl was e
moved_from (err x) order to t u was e = absurd (cc)

pub transition_saga-Stepped :
    (order : ℕ) (to : State) (t u : Tables)
    → run (transition_saga order to) t ≡ (ok tt, u)
    → Stepped order to t u
unfolding transition_saga state_for_update run
transition_saga-Stepped order to t u e = moved_from (state_of order t) order to t u refl e

-- What a transition of an order has done.
pub record Applied (o : Order) (to : Status) (t u : Tables) : Type 0 where
  pub same_sagas : u.sagas ≡ t.sagas
  pub own : row_of o.id t ≡ ok o → row_of o.id u ≡ ok (set_status to o)
  pub others : (id : ℕ) → id ≢ o.id → row_of id u ≡ row_of id t

abbrev with_status : Order → Status → List Order → Result Order
with_status o to rows =
    first_order o.id
      (where_rows (has_id o.id) (update_rows (at_version o.id o.version) (set_status to) rows))

updated_first :
    (o : Order) (to : Status) (rows : List Order)
    → with_status o to (o ∷ rows) ≡ ok (set_status to o)
updated_first o to rows = rw (==_refl o.id, ==_refl o.version, ==_refl o.id) refl

head_of :
    (o x : Order) (rows : List Order)
    → (x.id == o.id) ≡ true
    → first_order o.id (where_rows (has_id o.id) (x ∷ rows)) ≡ ok o
    → x ≡ o
head_of o x rows e = rw e (λ h. cc h)

updated_own :
    (o : Order) (to : Status) (rows : List Order)
    → first_order o.id (where_rows (has_id o.id) rows) ≡ ok o
    → with_status o to rows ≡ ok (set_status to o)
updated_own o to [] = λ h. absurd (cc)
updated_own o to (x ∷ rows) = elim (Bool-cases (x.id == o.id)) [
  | inl e ↦ λ h.
      subst (λ y. with_status o to (y ∷ rows) ≡ ok (set_status to o)) (sym (head_of o x rows e h))
        (updated_first o to rows)
  | inr e ↦ rw (e, e) (updated_own o to rows)
]

updated_other :
    (id order version : ℕ) (to : Status) (rows : List Order)
    → id ≢ order
    → first_order id
        (where_rows (has_id id) (update_rows (at_version order version) (set_status to) rows))
      ≡ first_order id (where_rows (has_id id) rows)
updated_other id order version to [] h = refl
updated_other id order version to (x ∷ rows) h =
    ground (arith, updated_other id order version to rows h)

status_lem :
    (o : Order) (to : Status) (t u : Tables)
    → run (update_status o.id to o.version) t ≡ (ok tt, u)
    → Applied o to t u
unfolding run update_status
status_lem o to t u e =
    subst (Applied o to t) (ap (λ (r : Result (Unit {0}) × Tables). r.1) e) (record {
      same_sagas = refl;
      own = updated_own o to t.orders;
      others = λ id h. updated_other id o.id o.version to t.orders h;
    })

enqueued :
    (o : Order) (to : Status) (t u v : Tables) (m : Message OrderPayload)
    → Applied o to t u
    → run (enqueue m) u ≡ (ok tt, v)
    → Applied o to t v
unfolding run enqueue
enqueued o to t u v m h e =
    subst (Applied o to t) (ap (λ (r : Result (Unit {0}) × Tables). r.1) e)
      (record { same_sagas = h.same_sagas; own = h.own; others = h.others })

pub apply_transition-Applied :
    (from : Status → Bool) (to : Status) (o : Order) (kind : EventType) (t u : Tables)
    → run (apply_transition o (move from to) kind) t ≡ (ok tt, u)
    → Applied o to t u
unfolding apply_transition run
apply_transition-Applied from to o kind t u = elim (Bool-cases (from o.status)) [
  | inl e ↦ rw e (λ h.
      let s = bind-Split (update_status o.id to o.version) _ t tt u h in
      enqueued o to t s.middle u _ (status_lem o to t s.middle s.first) s.second)
  | inr e ↦ rw e (λ h. absurd (cc h))
]
