-- ===== src/Inventory/LateEvents.antt =====
-- Events of an order that arrive after its reservations were released or sold.
use eventflow_commerce.Common.{
  ℕ, ◌≡◌, refl, sym, ◌∙◌, ap, subst, Bool, true, false, ◌⊎◌, inl, inr, some, if◌then◌else◌,
}
use eventflow_commerce.Errors.{Result, ok}
use eventflow_commerce.Database.{run, World, pure}
use eventflow_commerce.Database.Atomic.{
  Split, bind-Split, in_tx-ok, in_tx-keeps, run-bind, continue,
}
use eventflow_commerce.Messaging.Outbox.{EventType, order_cancelled, order_confirmed}
use eventflow_commerce.Messaging.Processed.{was_processed, mark_processed}
use eventflow_commerce.Inventory.Rows.{Tables, mark_event}
use eventflow_commerce.Inventory.Repository.{commit_in_tx, release_body}
use eventflow_commerce.Inventory.Service.{
  OrderEvent, commit_reaction, handle_order_event, handle_body, handle_parsed, handle,
}
use eventflow_commerce.Inventory.Settlement.{
  IsSettled, release_body-IsSettled, release_body_settled, commit_in_tx-IsSettled,
  commit_in_tx_settled,
}

-- The event types that end the reservations of an order.
abbrev pub IsSettling : EventType → Type 0
IsSettling kind = (kind ≡ order_cancelled) ⊎ (kind ≡ order_confirmed)

handle_order_event-IsSettled :
    (kind : EventType) (order : ℕ) (t u : Tables)
    → IsSettling kind
    → run (handle_order_event kind order) t ≡ (ok tt, u)
    → IsSettled order u
unfolding handle_order_event run
handle_order_event-IsSettled kind order t u (inl k) e =
    let cancelled : run (handle_order_event order_cancelled order) t ≡ (ok tt, u) =
      subst (λ x. run (handle_order_event x order) t ≡ (ok tt, u)) k e in
    release_body-IsSettled order t u (unfold release_body in cancelled)
handle_order_event-IsSettled kind order t u (inr k) e =
    let confirmed : run (handle_order_event order_confirmed order) t ≡ (ok tt, u) =
      subst (λ x. run (handle_order_event x order) t ≡ (ok tt, u)) k e in
    let a : Split (commit_in_tx order) (λ _. pure tt) t tt u =
      bind-Split _ _ t tt u (unfold commit_reaction in confirmed) in
    subst (IsSettled order) (ap (λ (o : Result (Unit {0}) × Tables). o.1) a.second)
      (commit_in_tx-IsSettled order t a.middle a.between a.first)

handle_order_event_settled :
    (kind : EventType) (order : ℕ) (t : Tables)
    → IsSettled order t
    → run (handle_order_event kind order) t ≡ (ok tt, t)
unfolding handle_order_event release_body
handle_order_event_settled order_cancelled order t h = release_body_settled order t h
handle_order_event_settled order_confirmed order t h =
    rw (run-bind, commit_in_tx_settled order t h, continue) (unfold run in refl)
handle_order_event_settled _ order t h = unfold run in refl

-- Nothing about the stock has changed, nor is anything announced.
pub record SameStock (t u : Tables) : Type 0 where
  pub same_inventory : u.inventory ≡ t.inventory
  pub same_reservations : u.reservations ≡ t.reservations
  pub same_movements : u.movements ≡ t.movements
  pub same_outbox : u.outbox ≡ t.outbox

mark_event-SameStock :
    (event_id : ℕ) (t u : Tables) (fresh : Bool)
    → run (mark_event event_id) t ≡ (ok fresh, u)
    → SameStock t u
unfolding mark_event run
mark_event-SameStock event_id t u fresh e =
    subst (SameStock t) (ap (λ (o : Result Bool × Tables). o.1) e) (record {
      same_inventory = refl;
      same_reservations = refl;
      same_movements = refl;
      same_outbox = refl;
    })

handled-SameStock :
    (fresh : Bool) (kind : EventType) (order : ℕ) (t u v : Tables)
    → SameStock t u
    → IsSettled order u
    → run (if fresh then handle_order_event kind order else pure tt) u ≡ (ok tt, v)
    → SameStock t v
unfolding run
handled-SameStock true kind order t u v s h e =
    subst (SameStock t)
      (ap (λ (o : Result (Unit {0}) × Tables). o.1)
        (sym (handle_order_event_settled kind order u h) ∙ e))
      s
handled-SameStock false kind order t u v s h e =
    subst (SameStock t) (ap (λ (o : Result (Unit {0}) × Tables). o.1) e) s

late_body-SameStock :
    (e : OrderEvent) (order : ℕ) (t v : Tables)
    → IsSettled order t
    → run (handle_body e order) t ≡ (ok tt, v)
    → SameStock t v
unfolding handle_body
late_body-SameStock e order t v h r =
    let a : Split (mark_event e.event_id)
        (λ fresh. if fresh then handle_order_event e.event_type order else pure tt) t tt v =
      bind-Split _ _ t tt v r in
    let s = mark_event-SameStock e.event_id t a.middle a.between a.first in
    handled-SameStock a.between e.event_type order t a.middle v s (rw s.same_reservations h)
      a.second

mark_event_new :
    (event_id : ℕ) (t : Tables)
    → was_processed event_id t.processed ≡ false
    → run (mark_event event_id) t
      ≡ (ok true, record t { processed = mark_processed event_id t.processed })
unfolding mark_event run
mark_event_new event_id t new = ap (λ (b : Bool). (ok (if b then false else true), t')) new
  where
    t' : Tables
    t' = record t { processed = mark_processed event_id t.processed }

handle_body-IsSettled :
    (e : OrderEvent) (order : ℕ) (t u : Tables)
    → IsSettling e.event_type
    → was_processed e.event_id t.processed ≡ false
    → run (handle_body e order) t ≡ (ok tt, u)
    → IsSettled order u
unfolding handle_body
handle_body-IsSettled e order t u k new r =
    handle_order_event-IsSettled e.event_type order
      (record t { processed = mark_processed e.event_id t.processed }) u k
      (sym (rw (run-bind, mark_event_new e.event_id t new, continue)) ∙ r)

-- An order whose reservations were released or sold by one event is not settled again: a later
-- cancellation or confirmation of the order, whatever the database answers, changes no counter,
-- no reservation and no movement, and announces nothing.
pub settled_once :
    (order : ℕ) (e late : OrderEvent) (w v : World Tables (Unit {0}))
    → e.order ≡ some order
    → late.order ≡ some order
    → IsSettling e.event_type
    → was_processed e.event_id w.committed.processed ≡ false
    → (handle e w).0 ≡ ok tt
    → v.committed ≡ (handle e w).1.committed
    → SameStock v.committed (handle late v).1.committed
unfolding handle
settled_once order e late w v eo lo k new h same =
    let parsed : (handle_parsed (some order) e w).0 ≡ ok tt =
      subst (λ o. (handle_parsed o e w).0 ≡ ok tt) eo h in
    let same' : v.committed ≡ (handle_parsed (some order) e w).1.committed =
      subst (λ o. v.committed ≡ (handle_parsed o e w).1.committed) eo same in
    let settled : IsSettled order v.committed = subst (IsSettled order) (sym same') (
      handle_body-IsSettled e order w.committed _ k new
        (in_tx-ok (handle_body e order) w tt parsed)) in
    subst (λ o. SameStock v.committed (handle_parsed o late v).1.committed) (sym lo)
      (in_tx-keeps (SameStock v.committed) (handle_body late order) v
        (λ a s r. late_body-SameStock late order v.committed s settled r)
        (record {
          same_inventory = refl;
          same_reservations = refl;
          same_movements = refl;
          same_outbox = refl;
        }))
