-- ===== src/Order/Handler/Create.antt =====
-- What `Create` has done, whichever calls fail: its calls of the inventory service and the rows that
-- are committed.
use eventflow_commerce.Common.{ℕ, ◌≡◌, refl, ◌∙◌, ◌⊎◌, inl, inr, Option, List, [], ◌∷◌, ◌++◌}
use mathlib.Core.List.{append_assoc}
use eventflow_commerce.Errors.{Error, Result, ok, err, Result-cases}
use eventflow_commerce.Database.{World, run, in_tx}
use eventflow_commerce.Database.Atomic.{in_tx-Outcome, Outcome}
use eventflow_commerce.Database.Preserves.{in_tx_calls}
use eventflow_commerce.Database.Actions
use eventflow_commerce.Order.Domain.{Order, pending_payment}
use eventflow_commerce.Order.Rows.{Tables}
use eventflow_commerce.Order.Orders.{save_writes, save_order}
use eventflow_commerce.Order.Service.{
  Remote, reserve_stock, release_stock, Step, mark_pending_after_create, call_remote,
}
use eventflow_commerce.Order.Handler.{
  Raw, CreateOrderRequest, Response, created, write_error, respond, lines_of, give_back,
  save_or_release, place_order, requested_order, create,
}
use eventflow_commerce.Order.Handler.Marking.{IsMarked, Marking, mark_pending-Marking}

-- The rows after the writes of `Save`.
abbrev pub IsSaved : Order → Tables → Tables → Type 0
IsSaved o before after = run (save_writes o) before ≡ (ok tt, after)

-- How `Create` ends, for what it found before and the order that the request asks for: every row
-- and every call that it leaves.
pub data Creation (replied : Remote → ℕ → Result (Unit {0})) (w : World Tables Remote)
    : Result Order → Response × World Tables Remote → Type 0 where
  -- The request is refused, and nothing was called.
  rejected :
      (e : Error) (v : World Tables Remote)
      → v.committed ≡ w.committed
      → v.calls ≡ w.calls
      → Creation replied w (err e) (write_error e, v)
  -- The stock is not reserved.
  unreserved :
      (e : Error) (o : Order) (v : World Tables Remote)
      → replied (reserve_stock o.id (lines_of o.items)) w.clock ≡ err e
      → v.committed ≡ w.committed
      → v.calls ≡ w.calls ++ reserve_stock o.id (lines_of o.items) ∷ []
      → Creation replied w (ok o) (write_error e, v)
  -- The stock was reserved, and its release is asked for, since Save returned an error.
  given_back :
      (e : Error) (o : Order) (v : World Tables Remote)
      → replied (reserve_stock o.id (lines_of o.items)) w.clock ≡ ok tt
      → (v.committed ≡ w.committed) ⊎ IsSaved o w.committed v.committed
      → v.calls ≡ w.calls ++ reserve_stock o.id (lines_of o.items) ∷ release_stock o.id ∷ []
      → Creation replied w (ok o) (write_error e, v)
  -- The order is saved and its stock stays reserved, but an error is returned.
  left_pending :
      (e : Error) (o : Order) (s : Tables) (v : World Tables Remote)
      → replied (reserve_stock o.id (lines_of o.items)) w.clock ≡ ok tt
      → IsSaved o w.committed s
      → (v.committed ≡ s) ⊎ IsMarked o.id s v.committed
      → v.calls ≡ w.calls ++ reserve_stock o.id (lines_of o.items) ∷ []
      → Creation replied w (ok o) (write_error e, v)
  -- The order waits for its payment, and its stock is reserved.
  placed :
      (o : Order) (s : Tables) (v : World Tables Remote)
      → replied (reserve_stock o.id (lines_of o.items)) w.clock ≡ ok tt
      → IsSaved o w.committed s
      → IsMarked o.id s v.committed
      → v.calls ≡ w.calls ++ reserve_stock o.id (lines_of o.items) ∷ []
      → Creation replied w (ok o) (created o.id pending_payment, v)

module _ (replied : Remote → ℕ → Result (Unit {0})) (w : World Tables Remote) where
  abbrev answer : Result ℕ × World Tables Remote → Response × World Tables Remote
  answer o = respond (λ id. created id pending_payment) o

  abbrev reserve_of : Order → Remote
  reserve_of o = reserve_stock o.id (lines_of o.items)

  abbrev mark_and_return : Order → Step ℕ
  mark_and_return o = Actions.◌>>=◌ (mark_pending_after_create o.id) (λ _. Actions.return o.id)

  marked-Creation :
      (o : Order) (s : Tables) (calls : List Remote) (m : Result (Unit {0}) × World Tables Remote)
      → replied (reserve_of o) w.clock ≡ ok tt
      → calls ≡ w.calls ++ reserve_of o ∷ []
      → IsSaved o w.committed s
      → Marking o.id s calls m
      → Creation replied w (ok o) (answer (Actions.resume (λ _. Actions.return o.id) m))
  marked-Creation o s calls _ r c h (Marking.marked x m d) = Creation.placed o s x r h m (d ∙ c)
  marked-Creation o s calls _ r c h (Marking.undone e x m d) =
      Creation.left_pending e o s x r h m (d ∙ c)

  saved-Creation :
      (o : Order) (v : World Tables Remote) (p : Result (Unit {0}) × World Tables Remote)
      → replied (reserve_of o) w.clock ≡ ok tt
      → v.committed ≡ w.committed
      → v.calls ≡ w.calls ++ reserve_of o ∷ []
      → p.1.calls ≡ v.calls
      → Outcome (save_writes o) v.committed p
      → Creation replied w
          (ok o)
          (answer (Actions.resume (λ _. mark_and_return o) (give_back replied o.id p)))
  unfolding call_remote
  saved-Creation o v (ok a, x) r s c k (Outcome.unchanged e h t) = absurd (cc)
  saved-Creation o v (ok a, x) r s c k (Outcome.applied b h t) =
      marked-Creation o x.committed x.calls (mark_pending_after_create o.id x) r (k ∙ c) (rw⁻¹ s h)
        (mark_pending-Marking o.id x)
  saved-Creation o v (err e, x) r s c k (Outcome.unchanged f h t) =
      Creation.given_back e o _ r (inl (t ∙ s))
        (rw (k, c) (append_assoc w.calls (reserve_of o ∷ []) (release_stock o.id ∷ [])))
  saved-Creation o v (err e, x) r s c k (Outcome.applied b h t) =
      Creation.given_back e o _ r (inr (rw⁻¹ s h))
        (rw (k, c) (append_assoc w.calls (reserve_of o ∷ []) (release_stock o.id ∷ [])))

  place-Creation : (o : Order) → Creation replied w (ok o) (answer (place_order replied o w))
  unfolding place_order save_or_release call_remote save_order
  place-Creation o =
      let v : World Tables Remote = Actions.log_call (reserve_of o) w in
      elim (Result-cases (replied (reserve_of o) w.clock)) [
        | inl (a, e) ↦ rw e (
            saved-Creation o v (in_tx (save_writes o) v) e refl refl (in_tx_calls (save_writes o) v)
              (in_tx-Outcome (save_writes o) v))
        | inr (x, e) ↦ rw e (Creation.unreserved x o v e refl refl)
      ]

  pub create-Creation :
      (fresh : ℕ) (fresh_item : ℕ → ℕ) (user : Raw ℕ) (body : Option CreateOrderRequest)
      → Creation replied w
          (requested_order fresh fresh_item user body)
          (create replied fresh fresh_item user body w)
  unfolding create
  create-Creation fresh fresh_item user body =
      elim (Result-cases (requested_order fresh fresh_item user body)) [
        | inl (o, e) ↦ rw e (place-Creation o)
        | inr (x, e) ↦ rw e (Creation.rejected x w refl refl)
      ]
