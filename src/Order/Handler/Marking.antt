-- ===== src/Order/Handler/Marking.antt =====
-- How the transaction of `MarkPendingPaymentAfterCreate` ends.
use eventflow_commerce.Common.{ℕ, ◌≡◌, refl, ◌∙◌, ◌⊎◌, inl, inr, List, where_rows}
use eventflow_commerce.Errors.{Error, Result, ok, err}
use eventflow_commerce.Database.{
  World, run, exec, select, begin, commit, finish, close, tick, rollback,
}
use eventflow_commerce.Database.Atomic.{Reply-cases, Ran, exec-Ran}
use eventflow_commerce.Database.Actions
use eventflow_commerce.Database.Session.{above, in_session}
use eventflow_commerce.Order.Domain.{Order}
use eventflow_commerce.Order.Rows.{Tables, has_id, first_order}
use eventflow_commerce.Order.Along.{get_rows, get_first}
use eventflow_commerce.Order.Service.{
  Remote, get_by_id, pending_body, mark_pending_payment, mark_pending_after_create,
}

abbrev IsRow : ℕ → Tables → Order → Type 0
IsRow id t p = first_order id (where_rows (has_id id) t.orders) ≡ ok p

-- The rows after the writes of `MarkPendingPayment` for the row of this order.
abbrev pub IsMarked : ℕ → Tables → Tables → Type 0
IsMarked id before after =
    (p : Order) × IsRow id before p × (run (pending_body p) before ≡ (ok tt, after))

items_calls :
    (r : Result Order) (v : World Tables Remote)
    → (Actions.resume
        (λ o.
          Actions.◌>>=◌
            (select (λ t. ok o.items))
            (λ items. Actions.return (record o { items = items })))
        (r, v)).1.calls
      ≡ v.calls
unfolding select
items_calls (ok o) v = elim (Reply-cases (v.replies v.clock)) [
  | inl e ↦ rw (select, e) refl
  | inr (inl e) ↦ rw (select, e) refl
  | inr (inr e) ↦ rw (select, e) refl
]
items_calls (err e) v = refl

get_calls : (id : ℕ) (v : World Tables Remote) → (get_by_id id v).1.calls ≡ v.calls
unfolding get_by_id select
get_calls id v = elim (Reply-cases (v.replies v.clock)) [
  | inl e ↦
      rw (select, e)
        (items_calls (first_order id (where_rows (has_id id) v.committed.orders)) (tick v))
  | inr (inl e) ↦ rw (select, e) refl
  | inr (inr e) ↦ rw (select, e) refl
]

-- Where `MarkPendingPayment` has come before its transaction is committed.
data Written (id : ℕ) (before : Tables) (calls : List Remote)
    : Result (Unit {0}) × World Tables Remote → Type 0 where
  stopped :
      (e : Error) (x : World Tables Remote)
      → x.committed ≡ before
      → x.calls ≡ calls
      → Written id before calls (err e, x)
  wrote :
      (x : World Tables Remote)
      → x.committed ≡ before
      → x.calls ≡ calls
      → IsMarked id before x.view
      → Written id before calls (ok tt, x)

exec-Written :
    (id : ℕ) (p : Order) (before : Tables) (v : World Tables Remote)
    (o : Result (Unit {0}) × World Tables Remote)
    → IsRow id before p
    → v.committed ≡ before
    → v.view ≡ before
    → Ran (pending_body p) v o
    → Written id before v.calls o
exec-Written id p before v (err e, x) i c s r = Written.stopped e x (r.same_rows ∙ c) r.same_calls
exec-Written id p before v (ok a, x) i c s r =
    Written.wrote x (r.same_rows ∙ c) r.same_calls (p, i, rw⁻¹ s (r.as_run tt refl))

marking-Written :
    (id : ℕ) (o : Result Order × World Tables Remote) (before : Tables) (calls : List Remote)
    → o.1.committed ≡ before
    → o.1.calls ≡ calls
    → ((p : Order) → o.0 ≡ ok p → IsRow id before p)
    → Written id before calls (Actions.resume (λ p. exec (pending_body p)) (above (λ t. t) o))
marking-Written id (err e, v) before calls r c i = Written.stopped e _ r c
marking-Written id (ok p, v) before calls r c i = rw⁻¹ c (
    exec-Written id p before (above {A = Order} (λ t. t) (ok p, v)).1 _ (i p refl) r r
      (exec-Ran (pending_body p) (above {A = Order} (λ t. t) (ok p, v)).1))

-- How `MarkPendingPaymentAfterCreate` ends: its writes are committed, or nothing is; a caller that
-- has an error does not know which.
pub data Marking (id : ℕ) (before : Tables) (calls : List Remote)
    : Result (Unit {0}) × World Tables Remote → Type 0 where
  marked :
      (x : World Tables Remote)
      → IsMarked id before x.committed
      → x.calls ≡ calls
      → Marking id before calls (ok tt, x)
  undone :
      (e : Error) (x : World Tables Remote)
      → (x.committed ≡ before) ⊎ IsMarked id before x.committed
      → x.calls ≡ calls
      → Marking id before calls (err e, x)

finish-Marking :
    (id : ℕ) (before : Tables) (calls : List Remote) (o : Result (Unit {0}) × World Tables Remote)
    → Written id before calls o
    → Marking id before calls (finish o)
unfolding commit
finish-Marking id before calls _ (Written.stopped e x r c) = Marking.undone e (rollback x) (inl r) c
finish-Marking id before calls _ (Written.wrote x r c m) = elim (Reply-cases (x.replies x.clock)) [
  | inl e ↦ rw (e, commit, close) (Marking.marked _ m c)
  | inr (inl e) ↦ rw (e, commit, close) (Marking.undone _ _ (inl r) c)
  | inr (inr e) ↦ rw (e, commit, close) (Marking.undone _ _ (inr m) c)
]

pub mark_pending-Marking :
    (id : ℕ) (w : World Tables Remote)
    → Marking id w.committed w.calls (mark_pending_after_create id w)
unfolding mark_pending_after_create mark_pending_payment in_session begin
mark_pending-Marking id w =
    let v : World Tables Remote = record (tick w) { view = w.committed } in
    elim (Reply-cases (w.replies w.clock)) [
      | inl e ↦
          rw (begin, e)
            (finish-Marking id w.committed w.calls _ (
              marking-Written id (get_by_id id v) w.committed w.calls (get_rows id v)
                (get_calls id v) (get_first id v)))
      | inr (inl e) ↦ rw (begin, e) (Marking.undone _ _ (inl refl) refl)
      | inr (inr e) ↦ rw (begin, e) (Marking.undone _ _ (inl refl) refl)
    ]
