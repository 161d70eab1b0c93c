-- ===== src/Order/Terminal.antt =====
-- A payment event for an order that has its outcome.
use eventflow_commerce.Common.{
  ℕ, ◌+◌, ◌≡◌, refl, sym, ap, ◌∙◌, ◌⊎◌, inl, inr, Bool, Bool-cases, true, some, List, where_rows,
}
use eventflow_commerce.Errors.{Result, ok, err}
use eventflow_commerce.Database.{World, select, begin, commit, exec, finish, tick}
use eventflow_commerce.Database.Atomic.{Reply-cases}
use eventflow_commerce.Database.Actions
use eventflow_commerce.Database.Session.{above, beside, in_session}
use eventflow_commerce.Messaging.Outbox.{EventType, payment_processed, payment_failed}
use eventflow_commerce.Order.Domain.{Status, confirmed, cancelled, Order, OrderItem}
use eventflow_commerce.Order.Rows.{Tables, has_id, first_order, mark_event}
use eventflow_commerce.Order.Service.{
  Remote, Step, is_terminal, get_by_id, confirm_payment, fail_payment, marked, react, handle_marked,
  handle_payment,
}

-- The orders, the sagas and the outbox are as before.
abbrev pub Kept : Tables → Tables → Type 0
Kept t u = (u.orders ≡ t.orders) × ((u.sagas ≡ t.sagas) × (u.outbox ≡ t.outbox))

record Stays (t : Tables) (calls : List Remote) (v : World Tables Remote) : Type 0 where
  pub rows : Kept t v.committed
  pub seen : Kept t v.view
  pub quiet : v.calls ≡ calls

abbrev abstract_found : ℕ → Tables → Result Order
abstract_found id t = first_order id (where_rows (has_id id) t.orders)

module _ (t : Tables) (calls : List Remote) where
  abbrev Staying : {A : Type 0} → Result A × World Tables Remote → Type 0
  Staying o = Stays t calls o.1

  Stays-resume :
      {A B : Type 0} (f : A → Step B) (o : Result A × World Tables Remote)
      → Staying o
      → ((a : A) (v : World Tables Remote) → o ≡ (ok a, v) → Stays t calls v → Staying (f a v))
      → Staying (Actions.resume f o)
  Stays-resume f (ok a, v) h next = next a v refl h
  Stays-resume f (err e, v) h next = h

  Stays-select :
      {A : Type 0} (f : Tables → Result A) (v : World Tables Remote)
      → Stays t calls v
      → Staying (select f v)
  unfolding select
  Stays-select f v h = elim (Reply-cases (v.replies v.clock)) [
    | inl e ↦ rw (select, e) (record { rows = h.rows; seen = h.seen; quiet = h.quiet })
    | inr (inl e) ↦ rw (select, e) (record { rows = h.rows; seen = h.seen; quiet = h.quiet })
    | inr (inr e) ↦ rw (select, e) (record { rows = h.rows; seen = h.seen; quiet = h.quiet })
  ]

  Stays-mark :
      (event_id : ℕ) (v : World Tables Remote)
      → Stays t calls v
      → Staying (exec (mark_event event_id) v)
  unfolding exec mark_event
  Stays-mark event_id v h = elim (Reply-cases (v.replies v.clock)) [
    | inl e ↦ rw (exec, e) (record { rows = h.rows; seen = h.seen; quiet = h.quiet })
    | inr (inl e) ↦ rw (exec, e) (record { rows = h.rows; seen = h.seen; quiet = h.quiet })
    | inr (inr e) ↦ rw (exec, e) (record { rows = h.rows; seen = h.seen; quiet = h.quiet })
  ]

  Stays-finish : {A : Type 0} (o : Result A × World Tables Remote) → Staying o → Staying (finish o)
  unfolding commit
  Stays-finish (ok a, v) h = elim (Reply-cases (v.replies v.clock)) [
    | inl e ↦ rw (commit, e) (record { rows = h.seen; seen = h.seen; quiet = h.quiet })
    | inr (inl e) ↦ rw (commit, e) (record { rows = h.rows; seen = h.rows; quiet = h.quiet })
    | inr (inr e) ↦ rw (commit, e) (record { rows = h.seen; seen = h.seen; quiet = h.quiet })
  ]
  Stays-finish (err e, v) h = record { rows = h.rows; seen = h.rows; quiet = h.quiet }

  Stays-session :
      {A : Type 0} (m : Step A) (w : World Tables Remote)
      → Kept t w.committed
      → w.calls ≡ calls
      → ((v : World Tables Remote) → v.committed ≡ w.committed → Stays t calls v → Staying (m v))
      → Staying (in_session m w)
  unfolding in_session begin
  Stays-session m w kept quiet inner = elim (Reply-cases (w.replies w.clock)) [
    | inl e ↦
        rw (begin, e)
          (Stays-finish (m (record (tick w) { view = w.committed })) (
            inner (record (tick w) { view = w.committed }) refl
              (record { rows = kept; seen = kept; quiet = quiet })))
    | inr (inl e) ↦ rw (begin, e) (record { rows = kept; seen = kept; quiet = quiet })
    | inr (inr e) ↦ rw (begin, e) (record { rows = kept; seen = kept; quiet = quiet })
  ]

  Stays-get : (id : ℕ) (v : World Tables Remote) → Stays t calls v → Staying (get_by_id id v)
  unfolding get_by_id
  Stays-get id v h =
      Stays-resume {A = Order} _ (select (λ u. abstract_found id u) v)
        (Stays-select (λ u. abstract_found id u) v h)
        (λ o x _ k.
          Stays-resume {A = List OrderItem} (λ items. Actions.return (record o { items = items }))
            (select (λ u. ok o.items) x) (Stays-select (λ u. ok o.items) x k) (λ items y _ l. l))

  Stays-above :
      {A : Type 0} (writes : Tables → Tables) (o : Result A × World Tables Remote)
      → ((u : Tables) → Kept t u → Kept t (writes u))
      → Staying o
      → Staying (above writes o)
  Stays-above writes (r, v) keeps h = record {
    rows = h.rows;
    seen = keeps v.committed h.rows;
    quiet = h.quiet;
  }

abbrev status_or : Status → Result Order → Status
status_or s (ok o) = o.status
status_or s (err e) = s

ok_status : (a b : Order) → ok a ≡ ok b → b.status ≡ a.status
ok_status a b h = sym (ap (status_or a.status) h)

-- What `GetByID` returns has the status of the committed row.
get_status :
    (id : ℕ) (v : World Tables Remote) (o row : Order)
    → abstract_found id v.committed ≡ ok row
    → (get_by_id id v).0 ≡ ok o
    → o.status ≡ row.status
unfolding get_by_id select
get_status id v o row stood = elim (Reply-cases (v.replies v.clock)) [
  | inl e ↦ elim (Reply-cases (v.replies (v.clock + 1))) [
    | inl f ↦ rw (select, e, stood, select, f) (λ got. ok_status row o got)
    | inr (inl f) ↦ rw (select, e, stood, select, f) (λ got. absurd (cc))
    | inr (inr f) ↦ rw (select, e, stood, select, f) (λ got. absurd (cc))
  ]
  | inr (inl e) ↦ rw (select, e) (λ got. absurd (cc))
  | inr (inr e) ↦ rw (select, e) (λ got. absurd (cc))
]

module _ (replied : Remote → ℕ → Result (Unit {0})) (w : World Tables Remote) (order : ℕ)
    (row : Order) (stood : abstract_found order w.committed ≡ ok row)
    (terminal : is_terminal row.status ≡ true) where
  abbrev Same : {A : Type 0} → Result A × World Tables Remote → Type 0
  Same o = Stays w.committed w.calls o.1

  read_terminal :
      (event_id : ℕ) (v x : World Tables Remote) (o : Order)
      → Stays w.committed w.calls v
      → beside (marked event_id) (get_by_id order) v ≡ (ok o, x)
      → is_terminal o.status ≡ true
  read_terminal event_id v x o h e =
      let there : abstract_found order v.committed ≡ ok row =
        ap (λ rows. first_order order (where_rows (has_id order) rows)) h.rows.0 ∙ stood in
      ap is_terminal
        (get_status order v o row there (ap (λ (p : Result Order × World Tables Remote). p.0) e))
      ∙ terminal

  Same-read :
      (event_id : ℕ) (v : World Tables Remote)
      → Stays w.committed w.calls v
      → Same (beside (marked event_id) (get_by_id order) v)
  Same-read event_id v h =
      Stays-above w.committed w.calls (marked event_id) (get_by_id order v) (λ u k. k)
        (Stays-get w.committed w.calls order v h)

  react-Same :
      (kind : EventType) (event_id : ℕ) (v : World Tables Remote)
      → (kind ≡ payment_processed) ⊎ (kind ≡ payment_failed)
      → Stays w.committed w.calls v
      → Same (react replied kind event_id order v)
  unfolding react confirm_payment fail_payment
  react-Same kind event_id v (inl k) h = rw k (
      Stays-resume w.committed w.calls {A = Order} _ (beside (marked event_id) (get_by_id order) v)
        (Same-read event_id v h) (λ o x e l. rw (read_terminal event_id v x o h e) l))
  react-Same kind event_id v (inr k) h = rw k (
      Stays-resume w.committed w.calls {A = Order} _ (beside (marked event_id) (get_by_id order) v)
        (Same-read event_id v h) (λ o x e l. rw (read_terminal event_id v x o h e) l))

  handle_marked-Same :
      (kind : EventType) (event_id : ℕ) (v : World Tables Remote)
      → (kind ≡ payment_processed) ⊎ (kind ≡ payment_failed)
      → Stays w.committed w.calls v
      → Same (handle_marked replied kind event_id order v)
  unfolding handle_marked
  handle_marked-Same kind event_id v k h =
      Stays-resume w.committed w.calls {A = Bool} _ (exec (mark_event event_id) v)
        (Stays-mark w.committed w.calls event_id v h)
        (λ fresh x _ l. elim (Bool-cases fresh) [
          | inl e ↦ rw e (react-Same kind event_id x k l)
          | inr e ↦ rw e l
        ])

  handled_terminal :
      (kind : EventType) (event_id : ℕ)
      → Kept w.committed (handle_payment replied kind event_id (some order) w).1.committed
        × ((handle_payment replied kind event_id (some order) w).1.calls ≡ w.calls)
  unfolding handle_payment
  handled_terminal payment_processed event_id =
      let s =
        Stays-session w.committed w.calls (handle_marked replied payment_processed event_id order) w
          (refl, (refl, refl)) refl
          (λ v _ h. handle_marked-Same payment_processed event_id v (inl refl) h) in
      (s.rows, s.quiet)
  handled_terminal payment_failed event_id =
      let s =
        Stays-session w.committed w.calls (handle_marked replied payment_failed event_id order) w
          (refl, (refl, refl)) refl
          (λ v _ h. handle_marked-Same payment_failed event_id v (inr refl) h) in
      (s.rows, s.quiet)
  handled_terminal _ event_id = ((refl, (refl, refl)), refl)

-- The statuses that a payment result drives an order to.
abbrev pub IsOutcome : Status → Type 0
IsOutcome s = (s ≡ confirmed) ⊎ ((s ≡ Status.payment_failed) ⊎ (s ≡ cancelled))

terminal-IsOutcome : (s : Status) → IsOutcome s → is_terminal s ≡ true
unfolding is_terminal
terminal-IsOutcome s (inl e) = rw e refl
terminal-IsOutcome s (inr (inl e)) = rw e refl
terminal-IsOutcome s (inr (inr e)) = rw e refl

-- A payment event for an order that is confirmed, failed or cancelled changes no committed order,
-- no saga and no outbox row, and calls neither the inventory nor the payment service, whichever
-- calls of the database fail.
pub handle_payment_terminal :
    (replied : Remote → ℕ → Result (Unit {0})) (w : World Tables Remote) (order : ℕ) (row : Order)
    (kind : EventType) (event_id : ℕ)
    → first_order order (where_rows (has_id order) w.committed.orders) ≡ ok row
    → IsOutcome row.status
    → Kept w.committed (handle_payment replied kind event_id (some order) w).1.committed
      × ((handle_payment replied kind event_id (some order) w).1.calls ≡ w.calls)
handle_payment_terminal replied w order row kind event_id stood outcome =
    handled_terminal replied w order row stood (terminal-IsOutcome row.status outcome) kind event_id
