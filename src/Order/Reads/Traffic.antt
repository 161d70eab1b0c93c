-- ===== src/Order/Reads/Traffic.antt =====
-- Every history of the order service with its cache.
use eventflow_commerce.Common.{
  ℕ, ◌≡◌, refl, sym, ap, ◌∙◌, subst, inl, inr, Bool, Bool-cases, false, not, Option, none, some, [],
  ◌==◌, ==_iff, All, All-where_rows, All-map,
}
use eventflow_commerce.Errors.{Result, ok, err}
use eventflow_commerce.Database.{World}
use eventflow_commerce.Messaging.Outbox.{EventType}
use eventflow_commerce.Database.Actions
use eventflow_commerce.Database.Actions.{lift}
use eventflow_commerce.Order.Domain.{Order}
use eventflow_commerce.Order.Rows.{Tables}
use eventflow_commerce.Order.Service.{Remote, get_by_id, handle_payment}
use eventflow_commerce.Order.Handler.{
  Raw, absent, unreadable, read, CreateOrderRequest, Response, found, respond, write_error,
  customer_id_from_header, if_owner, create, get,
}
use eventflow_commerce.Order.Handler.Marking.{IsMarked}
use eventflow_commerce.Order.Handler.Create.{IsSaved, Creation, create-Creation}
use eventflow_commerce.Order.Along.{first_order_id}
use eventflow_commerce.Order.Along.Events.{handle_payment-keeps}
use eventflow_commerce.Order.Reads.{
  Reader, is_under, read_order, answer_owner, show_order, drop_entry,
}
use eventflow_commerce.Order.Reads.Past.{
  IsPast, pending_body-IsPast, save_writes-IsPast, IsPast-IsKept,
}
use eventflow_commerce.Order.Reads.Filed.{AreFiled, IsPastResult, read_order-AreFiled}

module _ (id : ℕ) (o : Order) where
  saved-IsPast : (p : Order) (t u : Tables) → IsSaved p t u → IsPast id o t → IsPast id o u
  saved-IsPast p t u e h = (save_writes-IsPast id o p).keep t u tt e h

  marked-IsPast : (order : ℕ) (t u : Tables) → IsMarked order t u → IsPast id o t → IsPast id o u
  marked-IsPast order t u (p, row, ran) h = (pending_body-IsPast id o p).keep t u tt ran h

  module _ (replied : Remote → ℕ → Result (Unit {0})) where
    Creation-IsPast :
        {w : World Tables Remote} {wanted : Result Order} {r : Response × World Tables Remote}
        → Creation replied w wanted r
        → IsPast id o w.committed
        → IsPast id o r.1.committed
    Creation-IsPast (Creation.rejected e v s c) h = subst (IsPast id o) (sym s) h
    Creation-IsPast (Creation.unreserved e p v r s c) h = subst (IsPast id o) (sym s) h
    Creation-IsPast (Creation.given_back e p v g (inl s) c) h = subst (IsPast id o) (sym s) h
    Creation-IsPast {w} (Creation.given_back e p v g (inr s) c) h =
        saved-IsPast p w.committed v.committed s h
    Creation-IsPast {w} (Creation.left_pending e p t v g s (inl m) c) h =
        subst (IsPast id o) (sym m) (saved-IsPast p w.committed t s h)
    Creation-IsPast {w} (Creation.left_pending e p t v g s (inr m) c) h =
        marked-IsPast p.id t v.committed m (saved-IsPast p w.committed t s h)
    Creation-IsPast {w} (Creation.placed p t v r s m c) h =
        marked-IsPast p.id t v.committed m (saved-IsPast p w.committed t s h)

-- The states of the service and its cache: at first nothing is cached; then the handlers and the
-- consumers of both topics have run, in any order and with any failures.
pub data Traffic (replied : Remote → ℕ → Result (Unit {0})) : Reader → Type 0 where
  nothing_cached : (s : Reader) → s.entries ≡ [] → Traffic replied s
  requested :
      (id : ℕ) (fresh : ℕ → ℕ) (user : Raw ℕ) (body : Option CreateOrderRequest) (s : Reader)
      → Traffic replied s
      → Traffic replied (record s { server = (create replied id fresh user body s.server).1 })
  notified :
      (kind : EventType) (event_id : ℕ) (order : Option ℕ) (s : Reader)
      → Traffic replied s
      → Traffic replied
          (record s { server = (handle_payment replied kind event_id order s.server).1 })
  looked_up :
      (has_cache : Bool) (user : Raw ℕ) (path : Option ℕ) (s : Reader)
      → Traffic replied s
      → Traffic replied (show_order has_cache user path s).1
  invalidated :
      (order : Option ℕ) (s : Reader) → Traffic replied s → Traffic replied (drop_entry order s).1

answered-AreFiled :
    (id customer : ℕ) (r : Result Order × Reader)
    → AreFiled r.1
    → AreFiled (answer_owner customer r).1
answered-AreFiled id customer (ok o, s) h = elim (Bool-cases (o.customer_id == customer)) [
  | inl y ↦ rw y h
  | inr n ↦ rw n h
]
answered-AreFiled id customer (err e, s) h = h

shown-AreFiled :
    (has_cache : Bool) (user : Raw ℕ) (path : Option ℕ) (s : Reader)
    → AreFiled s
    → AreFiled (show_order has_cache user path s).1
unfolding show_order customer_id_from_header
shown-AreFiled has_cache absent path s h = h
shown-AreFiled has_cache unreadable path s h = h
shown-AreFiled has_cache (read customer) none s h = h
shown-AreFiled has_cache (read customer) (some id) s h =
    answered-AreFiled id customer (read_order has_cache id s)
      (read_order-AreFiled has_cache id s h).0

dropped-AreFiled : (order : Option ℕ) (s : Reader) → AreFiled s → AreFiled (drop_entry order s).1
unfolding drop_entry
dropped-AreFiled none s h = h
dropped-AreFiled (some id) s h = elim (Bool-cases (s.cache_answers s.cache_calls)) [
  | inl y ↦ rw y (
      All-where_rows (λ e. IsPast e.0 e.1 s.server.committed) (λ e. not (is_under id e)) s.entries
        h)
  | inr n ↦ rw n h
]

module _ (replied : Remote → ℕ → Result (Unit {0})) where
  Traffic-AreFiled : {s : Reader} → Traffic replied s → AreFiled s
  Traffic-AreFiled (Traffic.nothing_cached s e) =
      subst (λ es. All (λ e. IsPast e.0 e.1 s.server.committed) es) (sym e) tt
  Traffic-AreFiled (Traffic.requested id fresh user body s h) =
      All-map s.entries
        (λ e p.
          Creation-IsPast e.0 e.1 replied (create-Creation replied s.server id fresh user body) p)
        (Traffic-AreFiled h)
  Traffic-AreFiled (Traffic.notified kind event_id order s h) =
      All-map s.entries
        (λ e p.
          handle_payment-keeps (IsPast e.0 e.1) (IsPast-IsKept e.0 e.1) replied kind event_id order
            s.server p)
        (Traffic-AreFiled h)
  Traffic-AreFiled (Traffic.looked_up has_cache user path s h) =
      shown-AreFiled has_cache user path s (Traffic-AreFiled h)
  Traffic-AreFiled (Traffic.invalidated order s h) = dropped-AreFiled order s (Traffic-AreFiled h)

past_id : (id : ℕ) (o : Order) (t : Tables) → IsPast id o t → id ≡ o.id
past_id id o t h = sym (first_order_id id t.orders h.now h.stands) ∙ h.earlier.same_id

-- The order is shown to its customer, from the path of its id, and the tables have a later version.
abbrev pub IsShown : Raw ℕ → Option ℕ → Order → Tables → Type 0
IsShown user path o t = (user ≡ read o.customer_id) × (path ≡ some o.id) × IsPast o.id o t

IsPast-IsShown :
    (id : ℕ) (p o : Order) (t : Tables)
    → IsPast id p t
    → found p ≡ found o
    → IsShown (read p.customer_id) (some id) o t
IsPast-IsShown id p o t h e =
    let same : p ≡ o = cc e in
    subst (λ q. IsShown (read p.customer_id) (some id) q t) same
      (refl, ap some (past_id id p t h), subst (λ i. IsPast i p t) (past_id id p t h) h)

answered-IsShown :
    (id customer : ℕ) (r : Result Order × Reader) (o : Order)
    → IsPastResult id r.0 r.1.server.committed
    → (answer_owner customer r).0 ≡ found o
    → IsShown (read customer) (some id) o (answer_owner customer r).1.server.committed
unfolding write_error
answered-IsShown id customer (ok p, s) o h = elim (Bool-cases (p.customer_id == customer)) [
  | inl y ↦ rw y (λ e.
      subst (λ c. IsShown (read c) (some id) o s.server.committed)
        ((==_iff p.customer_id customer).0 y) (IsPast-IsShown id p o s.server.committed h e))
  | inr n ↦ rw n (λ e. absurd (cc e))
]
answered-IsShown id customer (err x, s) o h = λ e. absurd (cc e)

-- Whatever requests, payment events and events of orders the service has handled, and whichever
-- calls of the database and the cache failed: an order that Get then shows, from the cache or not, is
-- of the customer that the header names and has the id of the path, and the committed tables have
-- it with the same customer and the same amount, at the shown version or a later one.
pub show_order-IsShown :
    (replied : Remote → ℕ → Result (Unit {0})) (has_cache : Bool) (user : Raw ℕ) (path : Option ℕ)
    (s : Reader) (o : Order)
    → Traffic replied s
    → (show_order has_cache user path s).0 ≡ found o
    → IsShown user path o (show_order has_cache user path s).1.server.committed
unfolding show_order customer_id_from_header write_error
show_order-IsShown replied has_cache absent path s o t e = absurd (cc e)
show_order-IsShown replied has_cache unreadable path s o t e = absurd (cc e)
show_order-IsShown replied has_cache (read customer) none s o t e = absurd (cc e)
show_order-IsShown replied has_cache (read customer) (some id) s o t e =
    answered-IsShown id customer (read_order has_cache id s) o
      (read_order-AreFiled has_cache id s (Traffic-AreFiled replied t)).1 e

answered_row :
    (customer : ℕ) (r : Result Order × World Tables Remote) (s : Reader)
    → (answer_owner customer (r.0, record s { server = r.1 })).0
      ≡ (respond found (Actions.resume (λ o. lift (if_owner customer o)) r)).0
answered_row customer (ok o, w) s = elim (Bool-cases (o.customer_id == customer)) [
  | inl y ↦ rw y refl
  | inr n ↦ rw n refl
]
answered_row customer (err e, w) s = refl

-- Without a cache, Get over the reader is Get over the repository.
show_order_uncached :
    (user : Raw ℕ) (path : Option ℕ) (s : Reader)
    → (show_order false user path s).0 ≡ (get user path s.server).0
unfolding show_order get customer_id_from_header read_order
show_order_uncached absent path s = refl
show_order_uncached unreadable path s = refl
show_order_uncached (read customer) none s = refl
show_order_uncached (read customer) (some id) s = answered_row customer (get_by_id id s.server) s
