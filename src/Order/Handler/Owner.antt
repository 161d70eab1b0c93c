-- ===== src/Order/Handler/Owner.antt =====
-- Who may read an order.
use eventflow_commerce.Common.{
  ℕ, ◌≡◌, sym, ap, ◌∙◌, Bool-cases, inl, inr, Option, none, some, ◌==◌, ==_iff,
}
use eventflow_commerce.Errors.{Result, ok, err}
use eventflow_commerce.Database.{World}
use eventflow_commerce.Database.Actions.{resume, lift}
use eventflow_commerce.Order.Domain.{Order}
use eventflow_commerce.Order.Rows.{Tables}
use eventflow_commerce.Order.Service.{Remote, get_by_id}
use eventflow_commerce.Order.Handler.{
  Raw, absent, unreadable, read, found, respond, write_error, if_owner, get,
  customer_id_from_header,
}

owned_lem :
    (customer : ℕ) (p o : Order) (w : World Tables Remote)
    → (respond found (if_owner customer p, w)).0 ≡ found o
    → customer ≡ o.customer_id
unfolding write_error
owned_lem customer p o w = elim (Bool-cases (p.customer_id == customer)) [
  | inl e ↦ rw e (λ h.
      let same : p ≡ o = cc h in
      sym ((==_iff p.customer_id customer).0 e) ∙ ap (λ (q : Order). q.customer_id) same)
  | inr e ↦ rw e (λ h. absurd (cc h))
]

shown_lem :
    (customer : ℕ) (r : Result Order × World Tables Remote) (o : Order)
    → (respond found (resume (λ o. lift (if_owner customer o)) r)).0 ≡ found o
    → customer ≡ o.customer_id
unfolding write_error
shown_lem customer (err e, w) o h = absurd (cc h)
shown_lem customer (ok p, w) o h = owned_lem customer p o w h

-- Get shows an order only to the customer that the header names, and it is that customer's order.
pub get_owner :
    (user : Raw ℕ) (path : Option ℕ) (w : World Tables Remote) (o : Order)
    → (get user path w).0 ≡ found o
    → user ≡ read o.customer_id
unfolding get customer_id_from_header write_error
get_owner absent path w o h = absurd (cc h)
get_owner unreadable path w o h = absurd (cc h)
get_owner (read customer) none w o h = absurd (cc h)
get_owner (read customer) (some id) w o h = ap read (shown_lem customer (get_by_id id w) o h)
