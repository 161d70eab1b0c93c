-- ===== src/Order/Agreement/Placing.antt =====
-- Orders are placed in agreement with their sagas, and stay so through every history of the service.
use Prim.Native.String.{String}
use eventflow_commerce.Common.{
  ℕ, ◌≡◌, refl, sym, ap, ◌∙◌, subst, ◌⊎◌, inl, inr, Bool-cases, true, false, Option, none, some,
  List, [], ◌∷◌, ◌++◌, ◌==◌, ==_iff, where_rows, any_row, update_rows, arith,
}
use eventflow_commerce.Common.Int.{ℤ, pos}
use eventflow_commerce.Errors.{Error, Result, ok, err, not_found, Result-cases}
use eventflow_commerce.Database.{World, run}
use eventflow_commerce.Database.Preserves.{
  Preserves, Preserves-done, Preserves-call, Preserves-bind,
}
use eventflow_commerce.Database.Atomic.{bind-Split}
use eventflow_commerce.Messaging.Outbox.{EventType, Message}
use eventflow_commerce.Order.Domain.{Status, pending, Order, OrderItem, built, new_order, price_all}
use eventflow_commerce.Order.Saga.{State}
use eventflow_commerce.Order.Rows.{
  Tables, SagaRow, OrderPayload, has_id, first_order, first_state, is_saga_of, enqueue,
}
use eventflow_commerce.Order.Orders.{
  insert_order, insert_item, insert_items, save_writes, with_item, created_message,
}
use eventflow_commerce.Order.Service.{Remote, handle_payment}
use eventflow_commerce.Order.Unreleased.{state_of}
use eventflow_commerce.Order.Handler.{
  Raw, absent, unreadable, read, CreateOrderRequest, Response, parse_items, customer_id_from_header,
  requested_order, create,
}
use eventflow_commerce.Order.Handler.Marking.{IsMarked}
use eventflow_commerce.Order.Handler.Create.{IsSaved, Creation, create-Creation}
use eventflow_commerce.Order.Along.{first_order_id}
use eventflow_commerce.Order.Agreement.{Agrees-same, agrees, row_of}
use eventflow_commerce.Order.Agreement.Bodies.{pending_body-Agrees}
use eventflow_commerce.Order.Agreement.Consumer.{IsSettled, handle_payment-IsSettled}

appended :
    (id : ℕ) (rows : List Order) (row p : Order)
    → first_order id (where_rows (has_id id) (rows ++ row ∷ [])) ≡ ok p
    → (first_order id (where_rows (has_id id) rows) ≡ ok p) ⊎ ((row.id ≡ id) × (row ≡ p))
appended id [] row p = elim (Bool-cases (row.id == id)) [
  | inl e ↦ rw e (λ h. inr ((==_iff row.id id).0 e, cc h))
  | inr e ↦ rw e (λ h. absurd (cc h))
]
appended id (x ∷ rows) row p = elim (Bool-cases (x.id == id)) [
  | inl e ↦ rw e (λ h. inl h)
  | inr e ↦ rw e (appended id rows row p)
]

item_added :
    (id order : ℕ) (i : OrderItem) (rows : List Order) (p : Order)
    → first_order id (where_rows (has_id id) (update_rows (has_id order) (with_item i) rows)) ≡ ok p
    → (q : Order) × (first_order id (where_rows (has_id id) rows) ≡ ok q) × (q.status ≡ p.status)
item_added id order i [] p = λ h. absurd (cc h)
item_added id order i (x ∷ rows) p = elim (Bool-cases (x.id == order)) [
  | inl e ↦ elim (Bool-cases (x.id == id)) [
    | inl f ↦
        rw (e, f)
          (λ h. let same : with_item i x ≡ p = cc h in (x, refl, ap (λ (q : Order). q.status) same))
    | inr f ↦ rw (e, f) (item_added id order i rows p)
  ]
  | inr e ↦ elim (Bool-cases (x.id == id)) [
    | inl f ↦
        rw (e, f) (λ h. let same : x ≡ p = cc h in (x, refl, ap (λ (q : Order). q.status) same))
    | inr f ↦ rw (e, f) (item_added id order i rows p)
  ]
]

item-IsSettled : (order : ℕ) (i : OrderItem) → Preserves IsSettled (insert_item order i)
unfolding insert_item
item-IsSettled order i = Preserves-call _ _ (λ t h. record {
  each = λ id. record {
    matches = λ p e.
        let q = item_added id order i t.orders p e in
        subst (λ s. agrees s (state_of id t) ≡ true) q.2 ((h.each id).matches q.0 q.1);
  };
})

items-IsSettled :
    (order : ℕ) (items : List OrderItem) → Preserves IsSettled (insert_items order items)
unfolding insert_items
items-IsSettled order [] = Preserves-done (ok tt)
items-IsSettled order (i ∷ items) =
    Preserves-bind (insert_item order i) _ (item-IsSettled order i)
      (λ _. items-IsSettled order items)

enqueue-IsSettled : (m : Message OrderPayload) → Preserves IsSettled (enqueue m)
unfolding enqueue
enqueue-IsSettled m =
    Preserves-call _ _ (λ t h. record { each = λ id. Agrees-same id t _ refl refl (h.each id) })

-- No saga has this order.
abbrev pub IsUnused : ℕ → Tables → Type 0
IsUnused id t = any_row (is_saga_of id) t.sagas ≡ false

no_state :
    (id : ℕ) (rows : List SagaRow)
    → any_row (is_saga_of id) rows ≡ false
    → (e : Error) × (first_state (where_rows (is_saga_of id) rows) ≡ err e)
no_state id [] = λ h. (not_found "order saga", refl)
no_state id (s ∷ rows) = elim (Bool-cases (s.saga_order == id)) [
  | inl e ↦ rw e (λ h. absurd (cc h))
  | inr e ↦ rw e (no_state id rows)
]

pending_fits :
    (s : Status) (r : Result State) (e : Error) → s ≡ pending → r ≡ err e → agrees s r ≡ true
unfolding agrees
pending_fits s r e p q = rw (p, q) refl

insert-IsSettled :
    (o : Order) (t u : Tables)
    → o.status ≡ pending
    → IsUnused o.id t
    → run (insert_order o) t ≡ (ok tt, u)
    → IsSettled t
    → IsSettled u
unfolding insert_order run
insert-IsSettled o t u st un e h =
    subst IsSettled (ap (λ (r : Result (Unit {0}) × Tables). r.1) e) (record {
      each = λ id. record {
        matches = λ p stands. elim (appended id t.orders (record o { items = [] }) p stands) [
          | inl old ↦ (h.each id).matches p old
          | inr new ↦
              let n = no_state o.id t.sagas un in
              pending_fits p.status (state_of id t) n.0
                (sym (ap (λ (q : Order). q.status) new.1) ∙ st)
                (ap (λ i. state_of i t) (sym new.0) ∙ n.1)
        ];
      };
    })

saved-IsSettled :
    (o : Order) (t u : Tables)
    → o.status ≡ pending
    → IsUnused o.id t
    → IsSaved o t u
    → IsSettled t
    → IsSettled u
unfolding save_writes
saved-IsSettled o t u st un e h =
    let x = bind-Split (insert_order o) _ t tt u e in
    (Preserves-bind (insert_items o.id o.items) (λ _. enqueue (created_message o))
        (items-IsSettled o.id o.items) (λ _. enqueue-IsSettled (created_message o))).keep
      x.middle u tt x.second (insert-IsSettled o t x.middle st un x.first h)

marked-IsSettled : (id : ℕ) (t u : Tables) → IsMarked id t u → IsSettled t → IsSettled u
marked-IsSettled order t u (p, row, ran) h =
    let stands : row_of p.id t ≡ ok p =
      subst (λ i. row_of i t ≡ ok p) (sym (first_order_id order t.orders p row)) row in
    record { each = λ id. pending_body-Agrees id p t u stands ran (h.each id) }

module _ (replied : Remote → ℕ → Result (Unit {0})) where
  Creation-IsSettled :
      {w : World Tables Remote} {asked : Result Order} {r : Response × World Tables Remote}
      → Creation replied w asked r
      → ((o : Order) → asked ≡ ok o → (o.status ≡ pending) × IsUnused o.id w.committed)
      → IsSettled w.committed
      → IsSettled r.1.committed
  Creation-IsSettled (Creation.rejected e v s c) new h = subst IsSettled (sym s) h
  Creation-IsSettled (Creation.unreserved e o v r s c) new h = subst IsSettled (sym s) h
  Creation-IsSettled (Creation.given_back e o v g (inl s) c) new h = subst IsSettled (sym s) h
  Creation-IsSettled {w} (Creation.given_back e o v g (inr s) c) new h =
      saved-IsSettled o w.committed v.committed (new o refl).0 (new o refl).1 s h
  Creation-IsSettled {w} (Creation.left_pending e o t v g s (inl m) c) new h =
      subst IsSettled (sym m) (saved-IsSettled o w.committed t (new o refl).0 (new o refl).1 s h)
  Creation-IsSettled {w} (Creation.left_pending e o t v g s (inr m) c) new h =
      marked-IsSettled o.id t v.committed m
        (saved-IsSettled o w.committed t (new o refl).0 (new o refl).1 s h)
  Creation-IsSettled {w} (Creation.placed o t v r s m c) new h =
      marked-IsSettled o.id t v.committed m
        (saved-IsSettled o w.committed t (new o refl).0 (new o refl).1 s h)

built_new :
    (id customer : ℕ) (cur : String) (r : Result (List OrderItem × ℤ)) (o : Order)
    → built id customer cur r ≡ ok o
    → (o.id ≡ id) × (o.status ≡ pending)
built_new id customer cur (ok (items, total)) o h = ground arith
built_new id customer cur (err e) o h = absurd (cc h)

new_order_new :
    (id customer : ℕ) (fresh : ℕ → ℕ) (items : List OrderItem) (cur : String) (o : Order)
    → new_order id fresh customer items cur ≡ ok o
    → (o.id ≡ id) × (o.status ≡ pending)
unfolding new_order
new_order_new id customer fresh items cur o h =
    built_new id customer cur (price_all fresh 0 (pos 0) items) o (ground arith)

requested_new :
    (id : ℕ) (fresh : ℕ → ℕ) (user : Raw ℕ) (body : Option CreateOrderRequest) (o : Order)
    → requested_order id fresh user body ≡ ok o
    → (o.id ≡ id) × (o.status ≡ pending)
unfolding requested_order customer_id_from_header
requested_new id fresh absent body o = λ h. absurd (cc h)
requested_new id fresh unreadable body o = λ h. absurd (cc h)
requested_new id fresh (read customer) none o = λ h. absurd (cc h)
requested_new id fresh (read customer) (some req) o =
    elim (Result-cases (parse_items req.requested_items)) [
      | inl (items, f) ↦ rw (requested_order, f) (new_order_new id customer fresh items _ o)
      | inr (x, f) ↦ rw (requested_order, f) (λ h. absurd (cc h))
    ]

-- The committed tables that requests and payment events lead to, from none, one after another: each
-- finds the server, the other services and the calls made so far in any state, and a request gets
-- an identifier that no saga has.
pub data History : Tables → Type 0 where
  nothing_yet : History (record { orders = []; sagas = []; outbox = []; processed = [] })
  requested :
      (replied : Remote → ℕ → Result (Unit {0})) (fresh : ℕ) (fresh_item : ℕ → ℕ) (user : Raw ℕ)
      (body : Option CreateOrderRequest) (w : World Tables Remote)
      → History w.committed
      → IsUnused fresh w.committed
      → History (create replied fresh fresh_item user body w).1.committed
  notified :
      (replied : Remote → ℕ → Result (Unit {0})) (kind : EventType) (event_id : ℕ)
      (order : Option ℕ) (w : World Tables Remote)
      → History w.committed
      → History (handle_payment replied kind event_id order w).1.committed

create-IsSettled :
    (replied : Remote → ℕ → Result (Unit {0})) (fresh : ℕ) (fresh_item : ℕ → ℕ) (user : Raw ℕ)
    (body : Option CreateOrderRequest) (w : World Tables Remote)
    → IsUnused fresh w.committed
    → IsSettled w.committed
    → IsSettled (create replied fresh fresh_item user body w).1.committed
create-IsSettled replied fresh fresh_item user body w un h =
    Creation-IsSettled replied (create-Creation replied w fresh fresh_item user body)
      (λ o e.
        let n = requested_new fresh fresh_item user body o e in
        (n.1, subst (λ i. IsUnused i w.committed) (sym n.0) un))
      h

-- Whatever requests to place orders and payment events the service has handled, whichever calls
-- failed or lost their replies, every committed order agrees with its saga: a pending order has no
-- saga, one that waits for its payment has a saga that awaits it or compensates, a confirmed order
-- has a completed saga, a failed one a compensated saga, and no order is processing, shipped or
-- delivered; if every fresh identifier is one that no saga has.
pub History-IsSettled : {t : Tables} → History t → IsSettled t
History-IsSettled nothing_yet = record { each = λ id. record { matches = λ o e. absurd (cc e) } }
History-IsSettled (requested replied fresh fresh_item user body w past un) =
    create-IsSettled replied fresh fresh_item user body w un (History-IsSettled past)
History-IsSettled (notified replied kind event_id order w past) =
    handle_payment-IsSettled replied kind event_id order w (History-IsSettled past)
