-- ===== src/Payment/Service/Charging.antt =====
-- When `ProcessPayment` calls the gateway.
use eventflow_commerce.Common.{
  String, ℕ, ◌+◌, ◌≡◌, ◌≢◌, refl, inl, inr, Bool, true, false, List, [], ◌∷◌, ◌++◌, ◌==◌, Option,
  some, arith,
}
use eventflow_commerce.Common.Int.{ℤ}
use eventflow_commerce.Errors.{Result, ok, err, driver, begin_transaction}
use eventflow_commerce.Database.{World, answers, fails, select, tick, rollback}
use eventflow_commerce.Database.Atomic.{Reply-cases, in_tx-unbegun}
use eventflow_commerce.Database.Actions
use eventflow_commerce.Payment.Aggregate.{
  Event, Payment, initiate, process, apply, payment_processed,
}
use eventflow_commerce.Payment.Codec.{UuidText}
use eventflow_commerce.Payment.Store.Tables.{
  SnapshotRow, Tables, find_aggregate, latest_snapshot, events_after, is_nil,
}
use eventflow_commerce.Payment.Store.Repository.{
  base_version, rebuilt, found, load, load_if, save_body, save, find_by_order_id,
}
use eventflow_commerce.Payment.Service.{
  verdict, charge, charge_of, charge_and_save, approved, Charge, PaymentRequest, on_existing,
  process_payment,
}

-- Calls that neither reach the gateway nor change the committed tables.
abbrev Quiet : {A : Type 0} → World Tables Charge → Result A × World Tables Charge → Type 0
Quiet w o = (o.1.committed ≡ w.committed) × (o.1.calls ≡ w.calls)

Quiet-select : {A : Type 0} (f : Tables → Result A) (w : World Tables Charge) → Quiet w (select f w)
unfolding select
Quiet-select f w = elim (Reply-cases (w.replies w.clock)) [
  | inl e ↦ rw (select, e) (refl, refl)
  | inr (inl e) ↦ rw (select, e) (refl, refl)
  | inr (inr e) ↦ rw (select, e) (refl, refl)
]

Quiet-lift :
    {A B : Type 0} (f : A → Result B) (w v : World Tables Charge) (r : Result A)
    → Quiet w (r, v)
    → Quiet w (Actions.resume (λ a. Actions.lift (f a)) (r, v))
Quiet-lift f w v (ok a) h = h
Quiet-lift f w v (err e) h = h

module _ (u : UuidText) where
  Quiet-events :
      (id : ℕ) (s : Option SnapshotRow) (v : World Tables Charge)
      → Quiet v (
          Actions.◌>>=◌
            (select (events_after u id (base_version s)))
            (λ history. Actions.lift (found (rebuilt s history)))
            v)
  Quiet-events id s v =
      Quiet-lift {A = List Event} (λ history. found (rebuilt s history)) v
        (select (events_after u id (base_version s)) v).1
        (select (events_after u id (base_version s)) v).0
        (Quiet-select (events_after u id (base_version s)) v)

  Quiet-load : (id : ℕ) (w : World Tables Charge) → Quiet w (load u id w)
  unfolding load select
  Quiet-load id w = elim (Reply-cases (w.replies w.clock)) [
    | inl e ↦ rw (select, e) (Quiet-events id (latest_snapshot id w.committed) (tick w))
    | inr (inl e) ↦ rw (select, e) (refl, refl)
    | inr (inr e) ↦ rw (select, e) (refl, refl)
  ]

  module _ (max_amount : ℤ) (admits : ℕ → Bool) (fresh : ℕ) (r : PaymentRequest) where
    known-Quiet :
        (w : World Tables Charge) (o : Result Payment × World Tables Charge)
        → Quiet w o
        → Quiet w (
            Actions.resume
              (on_existing u max_amount admits fresh r)
              (Actions.resume (λ p. Actions.return (some p)) o))
    known-Quiet w (ok p, v) h = h
    known-Quiet w (err e, v) h = h

    load_if-Quiet :
        (w v : World Tables Charge) (id : ℕ)
        → id ≢ 0
        → Quiet w (load u id v)
        → Quiet w (Actions.resume (on_existing u max_amount admits fresh r) (load_if u id v))
    load_if-Quiet w v id known h =
        let e : (id == 0) ≡ false = ground arith in rw e (known-Quiet w (load u id v) h)

    -- For an order that has a payment, `ProcessPayment` never calls the gateway and changes no
    -- committed row, whatever the server answers, and also when it returns an error.
    pub process_payment_known :
        (w : World Tables Charge)
        → find_aggregate u r.request_order w.committed ≢ 0
        → ((process_payment u max_amount admits fresh r w).1.calls ≡ w.calls)
          × ((process_payment u max_amount admits fresh r w).1.committed ≡ w.committed)
    unfolding process_payment find_by_order_id select
    process_payment_known w known = elim (Reply-cases (w.replies w.clock)) [
      | inl e ↦
          let id : ℕ = find_aggregate u r.request_order w.committed in
          let (rows, calls) = load_if-Quiet w (tick w) id known (Quiet-load id (tick w)) in
          rw (select, e) (calls, rows)
      | inr (inl e) ↦ rw (select, e) (refl, refl)
      | inr (inr e) ↦ rw (select, e) (refl, refl)
    ]

    is_nil-append : (xs : List Event) (e : Event) → is_nil (xs ++ e ∷ []) ≡ false
    is_nil-append [] e = refl
    is_nil-append (x ∷ xs) e = refl

    process-pending :
        (transaction : String) (p q : Payment)
        → process transaction p ≡ ok q
        → is_nil q.pending_events ≡ false
    unfolding process apply
    process-pending transaction p q h =
        ground (arith, is_nil-append p.pending_events (payment_processed p.id transaction))

    save_unbegun :
        (p : Payment) (w : World Tables Charge)
        → is_nil p.pending_events ≡ false
        → w.replies w.clock ≡ fails
        → save u p w ≡ (err (driver begin_transaction), rollback (tick w))
    unfolding save
    save_unbegun p w some_pending failing =
        rw (some_pending, in_tx-unbegun (save_body u p) w failing) refl

    -- When the gateway has approved a charge for an order without a payment and the server then
    -- refuses the transaction of `Save`, `ProcessPayment` returns that error, the charge stays made
    -- and no committed row records it; so the order still has no payment when the message comes
    -- again.
    pub charge_unrecorded :
        (p q : Payment) (transaction : String) (w : World Tables Charge)
        → find_aggregate u r.request_order w.committed ≡ 0
        → initiate fresh r.request_order r.request_customer r.request_amount r.request_currency
          ≡ ok p
        → verdict u max_amount (charge_of p) ≡ approved transaction
        → process transaction p ≡ ok q
        → w.replies w.clock ≡ answers
        → admits (w.clock + 1) ≡ true
        → w.replies (w.clock + 1) ≡ fails
        → ((process_payment u max_amount admits fresh r w).0 ≡ err (driver begin_transaction))
          × (((process_payment u max_amount admits fresh r w).1.calls ≡ w.calls ++ charge_of p ∷ [])
              × (find_aggregate u r.request_order
                    (process_payment u max_amount admits fresh r w).1.committed
                  ≡ 0))
    unfolding process_payment find_by_order_id select charge_and_save charge
    charge_unrecorded p q transaction w none_yet initiated_p approval processed answering admitted
          failing =
        rw (select, answering, none_yet, initiated_p, admitted, approval, processed)
          (rw
            (save_unbegun q (Actions.log_call (charge_of p) (tick w))
              (process-pending transaction p q processed) failing)
            (refl, (refl, none_yet)))
