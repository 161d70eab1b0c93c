-- ===== src/Order/Totals.antt =====
-- The totals of a new order.
use Prim.Native.Nat.{◌*◌, ◌^◌}
use eventflow_commerce.Common.{
  ℕ, ◌+◌, ◌<◌, ◌≡◌, refl, ap, ◌∙◌, subst, false, List, [], ◌∷◌, length, arith, String,
}
use eventflow_commerce.Common.Int.{
  ℤ, pos, negsuc, pos_part, ◌+ℤ◌, ◌*ℤ◌, leb_ℤ, ltb_ℤ, wrap64, wrap64_id,
}
use eventflow_commerce.Errors.{Result, ok, err}
use eventflow_commerce.Order.Domain.{
  add_item, pending, OrderItem, Order, priced, price_all, price_rest, built, new_order,
}

-- What an item costs, without any bound.
abbrev pub cost : OrderItem → ℕ
cost i = pos_part i.unit_price_cents * pos_part i.item_quantity

abbrev pub cost_of : List OrderItem → ℕ
cost_of [] = 0
cost_of (i ∷ items) = cost i + cost_of items

mul_pos : (a b : ℕ) → pos a *ℤ pos b ≡ pos (a * b)
unfolding ◌*ℤ◌
mul_pos a b = ground arith

add_pos : (a b : ℕ) → pos a +ℤ pos b ≡ pos (a + b)
unfolding ◌+ℤ◌
add_pos a b = ground arith

wrap_pos : (n : ℕ) → n < 2 ^ 63 → wrap64 (pos n) ≡ pos n
wrap_pos n h = wrap64_id (pos n) (h, omega arith)

product_exact :
    (a b : ℤ)
    → ltb_ℤ a (pos 0) ≡ false
    → leb_ℤ b (pos 0) ≡ false
    → pos_part a * pos_part b < 2 ^ 63
    → wrap64 (a *ℤ b) ≡ pos (pos_part a * pos_part b)
product_exact (pos a) (pos b) ha hb h = rw (mul_pos a b) (wrap_pos (a * b) h)
product_exact (pos a) (negsuc b) ha hb h = absurd (ground arith)
product_exact (negsuc a) b ha hb h = absurd (ground arith)

abbrev total_or : ℤ → Result OrderItem → ℤ
total_or z (ok j) = j.total_price_cents
total_or z (err e) = z

priced_lem :
    (fresh : ℕ) (i j : OrderItem)
    → priced fresh i ≡ ok j
    → cost i < 2 ^ 63
    → j.total_price_cents ≡ pos (cost i)
unfolding priced
priced_lem fresh i j h bound = ground (arith, product_exact i.unit_price_cents i.item_quantity)

added :
    (j : OrderItem) (r : Result (List OrderItem × ℤ)) (done : List OrderItem) (sum : ℤ)
    → add_item j r ≡ ok (done, sum)
    → (xs : List OrderItem) × ((r ≡ ok (xs, sum)) × (length done ≡ length xs + 1))
added j (ok (xs, s)) done sum h = (xs, (ground arith, ground arith))
added j (err e) done sum h = absurd (cc)

priced_rest :
    (rest : ℤ → Result (List OrderItem × ℤ)) (n : ℕ) (r : Result OrderItem) (done : List OrderItem)
    (sum : ℤ)
    → price_rest rest (pos n) r ≡ ok (done, sum)
    → (j : OrderItem) × ((r ≡ ok j)
        × (add_item j (rest (wrap64 (pos n +ℤ j.total_price_cents))) ≡ ok (done, sum)))
priced_rest rest n (ok j) done sum h = (j, (refl, h))
priced_rest rest n (err e) done sum h = absurd (cc)

module _ (fresh : ℕ → ℕ) where
  price_all_lem :
      (place n : ℕ) (items done : List OrderItem) (sum : ℤ)
      → price_all fresh place (pos n) items ≡ ok (done, sum)
      → n + cost_of items < 2 ^ 63
      → (sum ≡ pos (n + cost_of items)) × (length done ≡ length items)
  unfolding price_all
  price_all_lem place n [] done sum h bound = ground arith
  price_all_lem place n (i ∷ items) done sum h bound =
      let (j, (e, k)) =
        priced_rest (λ t. price_all fresh (place + 1) t items) n (priced (fresh place) i) done sum
          h in
      let price : j.total_price_cents ≡ pos (cost i) =
        priced_lem (fresh place) i j e (omega arith) in
      let running : wrap64 (pos n +ℤ j.total_price_cents) ≡ pos (n + cost i) =
        ap (λ c. wrap64 (pos n +ℤ c)) price
        ∙ ap wrap64 (add_pos n (cost i))
        ∙ wrap_pos (n + cost i) (omega arith) in
      let (xs, (r, len)) =
        added j (price_all fresh (place + 1) (wrap64 (pos n +ℤ j.total_price_cents)) items) done sum
          k in
      let (total, same) =
        price_all_lem (place + 1) (n + cost i) items xs sum
          (subst (λ t. price_all fresh (place + 1) t items ≡ ok (xs, sum)) running r)
          (omega arith) in
      (total ∙ ap pos (omega arith), omega arith)

  built_lem :
      (id customer : ℕ) (cur : String) (items : List OrderItem) (r : Result (List OrderItem × ℤ))
      (o : Order)
      → price_all fresh 0 (pos 0) items ≡ r
      → built id customer cur r ≡ ok o
      → cost_of items < 2 ^ 63
      → (o.total_amount_cents ≡ pos (cost_of items))
        × ((length o.items ≡ length items) × (o.status ≡ pending))
  built_lem id customer cur items (ok (xs, total)) o e h bound =
      let (t, l) = price_all_lem 0 0 items xs total e (omega arith) in ground arith
  built_lem id customer cur items (err x) o e h bound = absurd (cc)

  -- When the items cost less than 2 ^ 63 together, an order that `NewOrder` returns is pending, has
  -- as many items, and its total is what the items cost, with nothing lost to wrap-around.
  pub new_order_lem :
      (id customer : ℕ) (items : List OrderItem) (cur : String) (o : Order)
      → new_order id fresh customer items cur ≡ ok o
      → cost_of items < 2 ^ 63
      → (o.total_amount_cents ≡ pos (cost_of items))
        × ((length o.items ≡ length items) × (o.status ≡ pending))
  unfolding new_order
  new_order_lem id customer items cur o h bound =
      built_lem id customer cur items (price_all fresh 0 (pos 0) items) o refl (ground arith) bound
