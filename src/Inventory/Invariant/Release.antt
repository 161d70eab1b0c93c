-- ===== src/Inventory/Invariant/Release.antt =====
-- `Release` and `CommitInTx` keep the invariant.
use eventflow_commerce.Common.{
  ℕ, ◌≡◌, refl, true, false, List, [], ◌∷◌, ◌==◌, update_rows, all_rows, All, All-map,
  if◌then◌else◌, arith, ap, subst, ◌∙◌, sym,
}
use eventflow_commerce.Common.Int.{ℤ, pos, pos_part, neg_part, ◌+ℤ◌, ◌-ℤ◌, int_laws}
use eventflow_commerce.Errors.{Result, ok}
use eventflow_commerce.Database.{Prog, run, World, ◌>>=◌, ◌>>◌, pure}
use eventflow_commerce.Database.Atomic.{Split, bind-Split}
use eventflow_commerce.Database.Preserves.{Preserves, Preserves-bind, in_tx-Preserves}
use eventflow_commerce.Inventory.Domain.{
  Stock, Reservation, ReserveItem, ReservationStatus, is_reserved, released, committed,
}
use eventflow_commerce.Inventory.Rows.{
  Tables, Movement, row_allowed, adjusted, of_product, update_counters, insert_movement,
  reserved_items, mark_reservations, held_items, holds_order, with_status,
}
use eventflow_commerce.Inventory.Repository.{
  return_items, sell_items, release_in_tx, commit_in_tx, release_body, release_order,
}
use eventflow_commerce.Messaging.Outbox.{inventory_released}
use eventflow_commerce.Inventory.Invariant.Reserve.{announce-IsConsistent}
use eventflow_commerce.Inventory.Invariant.{
  held, IsNonneg, HasOneRow, IsConsistent, all_rows-IsNonneg, HasOneRow-adjusted,
}

-- The quantity of a product in a list of items.
abbrev pub total : ℕ → List ReserveItem → ℤ
total p [] = pos 0
total p (i ∷ items) =
    if i.item_product == p then i.item_quantity +ℤ total p items else total p items

-- The reserved counters, as a function of the product.
abbrev HasCounters : (ℕ → ℤ) → List Stock → Type 0
HasCounters f rows = All (λ s. s.quantity_reserved ≡ f s.product_id) rows

abbrev without : (ℕ → ℤ) → List ReserveItem → ℕ → ℤ
without f items p = f p -ℤ total p items

abbrev without_one : (ℕ → ℤ) → ReserveItem → ℕ → ℤ
without_one f i p = f p -ℤ (if i.item_product == p then i.item_quantity else pos 0)

without_regroup :
    (f : ℕ → ℤ) (i : ReserveItem) (items : List ReserveItem) (p : ℕ)
    → without (without_one f i) items p ≡ without f (i ∷ items) p
without_regroup f i items p = grind int_laws

adjusted-HasCounters :
    (f : ℕ → ℤ) (i : ReserveItem) (da : ℤ) (rows : List Stock)
    → HasCounters f rows
    → HasCounters
        (without_one f i)
        (adjusted (of_product i.item_product) da (pos 0 -ℤ i.item_quantity) rows)
adjusted-HasCounters f i da [] h = tt
adjusted-HasCounters f i da (s ∷ rows) h = (grind int_laws, adjusted-HasCounters f i da rows h.1)

-- What the loop over the items has done when it returns no error.
record Dropped (items : List ReserveItem) (t u : Tables) : Type 0 where
  same_holds : u.reservations ≡ t.reservations
  counters : (f : ℕ → ℤ) → HasCounters f t.inventory → HasCounters (without f items) u.inventory
  nonneg : All IsNonneg t.inventory → All IsNonneg u.inventory
  one_row : HasOneRow t.inventory → HasOneRow u.inventory

Dropped-nil : (t : Tables) → Dropped [] t t
Dropped-nil t = record {
  same_holds = refl;
  counters = λ f h. All-map t.inventory (λ s e. omega (int_laws, ap pos_part e, ap neg_part e)) h;
  nonneg = λ h. h;
  one_row = λ h. h;
}

-- One round, and then the rest of the loop.
Dropped-cons :
    (i : ReserveItem) (items : List ReserveItem) (da : ℤ) (t m v u : Tables) (n : ℕ)
    → run
        (update_counters (of_product i.item_product) i.item_quantity da (pos 0 -ℤ i.item_quantity))
        t
      ≡ (ok n, m)
    → v.inventory ≡ m.inventory
    → v.reservations ≡ m.reservations
    → Dropped items v u
    → Dropped (i ∷ items) t u
unfolding update_counters run
Dropped-cons i items da t m v u n e ei er d =
    let a : (m.inventory
          ≡ adjusted (of_product i.item_product) da (pos 0 -ℤ i.item_quantity) t.inventory)
        × (m.reservations ≡ t.reservations)
        × (all_rows row_allowed m.inventory ≡ true) =
      ground arith in
    record {
      same_holds = d.same_holds ∙ er ∙ a.1;
      counters = λ f h.
          All-map u.inventory (λ s e. e ∙ without_regroup f i items s.product_id)
            (d.counters (without_one f i)
              (rw (ei, a.0) (adjusted-HasCounters f i da t.inventory h)));
      nonneg = λ h. d.nonneg (rw ei (all_rows-IsNonneg m.inventory a.2));
      one_row = λ h. d.one_row (rw (ei, a.0) (HasOneRow-adjusted _ _ _ t.inventory h));
    }

-- The statement that follows an update writes no counter and no reservation.
insert_movement-tables :
    (m : Movement) (t u : Tables) (a : Unit {0})
    → run (insert_movement m) t ≡ (ok a, u)
    → (u.inventory ≡ t.inventory) × (u.reservations ≡ t.reservations)
unfolding insert_movement run
insert_movement-tables m t u a e = ground arith

round-Dropped :
    (i : ReserveItem) (items : List ReserveItem) (da : ℤ) (m : Movement)
    (rest : Prog Tables (Unit {0})) (t u : Tables)
    → run
        (update_counters (of_product i.item_product) i.item_quantity da (pos 0 -ℤ i.item_quantity)
          >> (insert_movement m >> rest))
        t
      ≡ (ok tt, u)
    → ((v : Tables) → run rest v ≡ (ok tt, u) → Dropped items v u)
    → Dropped (i ∷ items) t u
round-Dropped i items da m rest t u e loop =
    let a : Split _ _ t tt u = bind-Split _ _ t tt u e in
    let b : Split _ _ a.middle tt u =
      bind-Split (insert_movement m) (λ _. rest) a.middle tt u a.second in
    let c = insert_movement-tables m a.middle b.middle b.between b.first in
    Dropped-cons i items da t a.middle b.middle u a.between a.first c.0 c.1 (loop b.middle b.second)

return_items-Dropped :
    (order : ℕ) (items : List ReserveItem) (t u : Tables)
    → run (return_items order items) t ≡ (ok tt, u)
    → Dropped items t u
unfolding return_items run
return_items-Dropped order [] t u e =
    subst (Dropped [] t) (ap (λ (o : Result (Unit {0}) × Tables). o.1) e) (Dropped-nil t)
return_items-Dropped order (i ∷ items) t u e =
    round-Dropped i items _ _ (return_items order items) t u e
      (λ v. return_items-Dropped order items v u)

sell_items-Dropped :
    (order : ℕ) (items : List ReserveItem) (t u : Tables)
    → run (sell_items order items) t ≡ (ok tt, u)
    → Dropped items t u
unfolding sell_items run
sell_items-Dropped order [] t u e =
    subst (Dropped [] t) (ap (λ (o : Result (Unit {0}) × Tables). o.1) e) (Dropped-nil t)
sell_items-Dropped order (i ∷ items) t u e =
    round-Dropped i items _ _ (sell_items order items) t u e
      (λ v. sell_items-Dropped order items v u)

-- Marking the reservations of an order as no longer held takes their items out of what is held.
held-mark :
    (p order : ℕ) (to : ReservationStatus) (rows : List Reservation)
    → is_reserved to ≡ false
    → held p (update_rows (holds_order order) (with_status to) rows)
      ≡ held p rows -ℤ total p (held_items order rows)
held-mark p order to [] h = omega int_laws
held-mark p order to (r ∷ rows) h = grind (int_laws, held-mark p order to rows h)

marked-IsConsistent :
    (order : ℕ) (to : ReservationStatus) (t m u : Tables) (a : Unit {0})
    → is_reserved to ≡ false
    → Dropped (held_items order t.reservations) t m
    → run (mark_reservations order to) m ≡ (ok a, u)
    → IsConsistent t
    → IsConsistent u
unfolding mark_reservations run
marked-IsConsistent order to t m u a h d e c =
    let b : (u.inventory ≡ m.inventory)
        × (u.reservations ≡ update_rows (holds_order order) (with_status to) t.reservations) =
      ground (arith, d.same_holds) in
    record {
      counted =
          rw (b.0, b.1)
            (All-map m.inventory (λ s k. k ∙ sym (held-mark s.product_id order to t.reservations h))
              (d.counters (λ p. held p t.reservations) c.counted));
      nonneg = rw b.0 (d.nonneg c.nonneg);
      one_row = rw b.0 (d.one_row c.one_row);
    }

-- The body of `release` and of `CommitInTx`, by its loop and the status that it gives.
module _ (order : ℕ) (to : ReservationStatus) (loop : List ReserveItem → Prog Tables (Unit {0}))
    (left : is_reserved to ≡ false)
    (drops : (items : List ReserveItem) (t u : Tables)
      → run (loop items) t ≡ (ok tt, u)
      → Dropped items t u) where
  abbrev settling : Prog Tables (List ReserveItem)
  settling = do items ← reserved_items order; loop items; mark_reservations order to; pure items

  settling-keep :
      (t u : Tables) (got : List ReserveItem)
      → run settling t ≡ (ok got, u)
      → IsConsistent t
      → IsConsistent u
  unfolding reserved_items run
  settling-keep t u got e c =
      let items = held_items order t.reservations in
      let a : Split (loop items) (λ _. mark_reservations order to >> pure items) t got u =
        bind-Split _ _ t got u e in
      let b : Split (mark_reservations order to) (λ _. pure items) a.middle got u =
        bind-Split _ _ a.middle got u a.second in
      subst IsConsistent (ap (λ (o : Result (List ReserveItem) × Tables). o.1) b.second) (
        marked-IsConsistent order to t a.middle b.middle b.between left
          (drops items t a.middle a.first) b.first c)

release_in_tx-IsConsistent : (order : ℕ) → Preserves IsConsistent (release_in_tx order)
unfolding release_in_tx
release_in_tx-IsConsistent order = record {
  keep = settling-keep order released (return_items order) refl (return_items-Dropped order);
}

pub commit_in_tx-IsConsistent : (order : ℕ) → Preserves IsConsistent (commit_in_tx order)
unfolding commit_in_tx
commit_in_tx-IsConsistent order = record {
  keep = settling-keep order committed (sell_items order) refl (sell_items-Dropped order);
}

pub release_body-IsConsistent : (order : ℕ) → Preserves IsConsistent (release_body order)
unfolding release_body
release_body-IsConsistent order =
    Preserves-bind (release_in_tx order) _ (release_in_tx-IsConsistent order)
      (announce-IsConsistent inventory_released order)

-- Whichever calls of the database fail, `Release` leaves committed tables in which every reserved
-- counter is the sum of the reservations held, no counter is negative and each product has one
-- row, if they were so before.
pub release_order-IsConsistent :
    (order : ℕ) (w : World Tables (Unit {0}))
    → IsConsistent w.committed
    → IsConsistent (release_order order w).1.committed
unfolding release_order
release_order-IsConsistent order w =
    in_tx-Preserves (release_body order) w (release_body-IsConsistent order)
