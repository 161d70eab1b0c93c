-- ===== src/Order/Along.antt =====
-- Calls of the order service that keep a property of its tables, on the committed rows and on those
-- that the open transaction sees.
pub mod Events
use eventflow_commerce.Common.{
  ℕ, ◌≡◌, refl, sym, ap, ◌∙◌, subst, inl, inr, Bool-cases, List, [], ◌∷◌, ◌==◌, ==_iff, where_rows,
}
use eventflow_commerce.Errors.{Result, ok, err}
use eventflow_commerce.Database.{Prog, run, World, select, begin, commit, exec, finish, tick}
use eventflow_commerce.Database.Atomic.{Reply-cases, exec-Ran}
use eventflow_commerce.Database.Preserves.{Preserves}
use eventflow_commerce.Database.Actions
use eventflow_commerce.Database.Session.{above, execute, in_session}
use eventflow_commerce.Order.Domain.{Order}
use eventflow_commerce.Order.Rows.{Tables, has_id, first_order, with_error}
use eventflow_commerce.Order.Service.{Remote, Step, get_by_id, marked}

items_rows :
    (r : Result Order) (v : World Tables Remote)
    → (Actions.resume
        (λ o.
          Actions.◌>>=◌
            (select (λ t. ok o.items))
            (λ items. Actions.return (record o { items = items })))
        (r, v)).1.committed
      ≡ v.committed
unfolding select
items_rows (ok o) v = elim (Reply-cases (v.replies v.clock)) [
  | inl e ↦ rw (select, e) refl
  | inr (inl e) ↦ rw (select, e) refl
  | inr (inr e) ↦ rw (select, e) refl
]
items_rows (err e) v = refl

-- `GetByID` changes no committed row.
pub get_rows : (id : ℕ) (v : World Tables Remote) → (get_by_id id v).1.committed ≡ v.committed
unfolding get_by_id select
get_rows id v = elim (Reply-cases (v.replies v.clock)) [
  | inl e ↦
      rw (select, e)
        (items_rows (first_order id (where_rows (has_id id) v.committed.orders)) (tick v))
  | inr (inl e) ↦ rw (select, e) refl
  | inr (inr e) ↦ rw (select, e) refl
]

items_first :
    (r : Result Order) (v : World Tables Remote) (p : Order)
    → (Actions.resume
        (λ o.
          Actions.◌>>=◌
            (select (λ t. ok o.items))
            (λ items. Actions.return (record o { items = items })))
        (r, v)).0
      ≡ ok p
    → r ≡ ok p
unfolding select
items_first (ok o) v p = elim (Reply-cases (v.replies v.clock)) [
  | inl e ↦ rw (select, e) (λ h. h)
  | inr (inl e) ↦ rw (select, e) (λ h. absurd (cc))
  | inr (inr e) ↦ rw (select, e) (λ h. absurd (cc))
]
items_first (err e) v p = λ h. absurd (cc)

-- `GetByID` returns the committed order.
pub get_first :
    (id : ℕ) (v : World Tables Remote) (p : Order)
    → (get_by_id id v).0 ≡ ok p
    → first_order id (where_rows (has_id id) v.committed.orders) ≡ ok p
unfolding get_by_id select
get_first id v p = elim (Reply-cases (v.replies v.clock)) [
  | inl e ↦
      rw (select, e)
        (items_first (first_order id (where_rows (has_id id) v.committed.orders)) (tick v) p)
  | inr (inl e) ↦ rw (select, e) (λ h. absurd (cc))
  | inr (inr e) ↦ rw (select, e) (λ h. absurd (cc))
]

pub first_order_id :
    (id : ℕ) (rows : List Order) (p : Order)
    → first_order id (where_rows (has_id id) rows) ≡ ok p
    → p.id ≡ id
first_order_id id [] p = λ h. absurd (cc)
first_order_id id (r ∷ rows) p = elim (Bool-cases (r.id == id)) [
  | inl y ↦
      rw y
        (λ h. let same : r ≡ p = cc h in sym (ap (λ (q : Order). q.id) same) ∙ (==_iff r.id id).0 y)
  | inr n ↦ rw n (first_order_id id rows p)
]

-- What a call leaves: the committed rows, and without an error also those it has written.
pub record Along (P : Tables → Type 0) {A : Type 0} (o : Result A × World Tables Remote)
    : Type 0 where
  pub rows : P o.1.committed
  pub seen : (a : A) → o.0 ≡ ok a → P o.1.view

-- Once a property holds along the first call, a weaker one does along both.
pub Along-into :
    (Q P : Tables → Type 0)
    → ((t : Tables) → Q t → P t)
    → {A B : Type 0} (f : A → Step B) (o : Result A × World Tables Remote) → Along Q o
    → ((a : A) (v : World Tables Remote) → Q v.committed → Q v.view → Along P (f a v))
    → Along P (Actions.resume f o)
Along-into Q P weaker f (ok a, v) h next = next a v h.rows (h.seen a refl)
Along-into Q P weaker f (err e, v) h next = record {
  rows = weaker v.committed h.rows;
  seen = λ a e. absurd (cc);
}

module _ (P : Tables → Type 0) where
  pub Along-resume :
      {A B : Type 0} (f : A → Step B) (o : Result A × World Tables Remote)
      → Along P o
      → ((a : A) (v : World Tables Remote) → P v.committed → P v.view → Along P (f a v))
      → Along P (Actions.resume f o)
  Along-resume f o h next = Along-into P P (λ t k. k) f o h next

  pub Along-run :
      {A : Type 0} (p : Prog Tables A) (v : World Tables Remote)
      → ((a : A) (u : Tables) → run p v.view ≡ (ok a, u) → P u)
      → P v.committed
      → Along P (exec p v)
  Along-run p v k rows =
      let r = exec-Ran p v in
      record {
        rows = subst P (sym r.same_rows) rows;
        seen = λ a e. k a (exec p v).1.view (r.as_run a e);
      }

  pub Along-exec :
      {A : Type 0} (p : Prog Tables A) (v : World Tables Remote)
      → Preserves P p
      → P v.committed
      → P v.view
      → Along P (exec p v)
  Along-exec p v k rows seen = Along-run p v (λ a u e. k.keep v.view u a e seen) rows

  pub Along-above :
      {A : Type 0} (event_id : ℕ) (o : Result A × World Tables Remote)
      → ((t : Tables) → P t → P (marked event_id t))
      → P o.1.committed
      → Along P (above (marked event_id) o)
  Along-above event_id (r, v) k h = record { rows = h; seen = λ a e. k v.committed h }

  Along-finish :
      {A : Type 0} (o : Result A × World Tables Remote) → Along P o → P (finish o).1.committed
  unfolding commit
  Along-finish (ok a, v) h = elim (Reply-cases (v.replies v.clock)) [
    | inl e ↦ rw (commit, e) (h.seen a refl)
    | inr (inl e) ↦ rw (commit, e) h.rows
    | inr (inr e) ↦ rw (commit, e) (h.seen a refl)
  ]
  Along-finish (err e, v) h = h.rows

  pub session-keeps :
      {A : Type 0} (m : Step A) (w : World Tables Remote)
      → P w.committed
      → ((v : World Tables Remote) → P v.committed → P v.view → Along P (m v))
      → P (in_session m w).1.committed
  unfolding in_session begin
  session-keeps m w h inner = elim (Reply-cases (w.replies w.clock)) [
    | inl e ↦
        rw (begin, e)
          (Along-finish (m (record (tick w) { view = w.committed }))
            (inner (record (tick w) { view = w.committed }) h h))
    | inr (inl e) ↦ rw (begin, e) h
    | inr (inr e) ↦ rw (begin, e) h
  ]

  pub execute-keeps :
      (other : ℕ) (v : World Tables Remote)
      → ((t : Tables) → P t → P (with_error other t))
      → P v.committed
      → P (execute (with_error other) v).1.committed
  unfolding execute
  execute-keeps other v k h = elim (Reply-cases (v.replies v.clock)) [
    | inl e ↦ rw (execute, e) (k v.committed h)
    | inr (inl e) ↦ rw (execute, e) h
    | inr (inr e) ↦ rw (execute, e) (k v.committed h)
  ]
