-- ===== src/Tests/Orders.antt =====
-- Concrete runs of the order service.
use eventflow_commerce.Order.Service.{is_terminal}
use eventflow_commerce.Common.Int.{◌*ℤ◌}
use eventflow_commerce.Common.Int.{◌+ℤ◌}
use eventflow_commerce.Common.Int.{wrap64}
use eventflow_commerce.Order.Domain.{priced}
use eventflow_commerce.Order.Domain.{price_all}
use eventflow_commerce.Common.{ℕ, ◌≡◌, ◌+◌, inl, refl, false, some, [], ◌∷◌, length, arith}
use eventflow_commerce.Common.Int.{pos}
use eventflow_commerce.Errors.{Result, ok, err, remote}
use eventflow_commerce.Database.{World}
use eventflow_commerce.Messaging.Outbox.{payment_processed, payment_failed}
use eventflow_commerce.Order.Domain.{
  pending, pending_payment, confirmed, OrderItem, Order, new_order,
}
use eventflow_commerce.Order.Saga.{State, completed, awaiting_payment, compensating}
use eventflow_commerce.Order.Rows.{Tables}
use eventflow_commerce.Order.Service.{Remote, handle_payment}
use eventflow_commerce.Order.Terminal.{Kept, handle_payment_terminal}
use eventflow_commerce.Order.Unreleased.{
  state_of, answering, SameButSaga, handle_payment_unreleased,
}
use eventflow_commerce.Order.Progress.{IsAhead}
use eventflow_commerce.Order.Forward.{handle_payment-IsAhead}
use eventflow_commerce.Order.Totals.{cost_of, new_order_lem}

abbrev lamp : OrderItem
lamp = record {
  item_id = 0;
  product_id = 7;
  product_name = "lamp";
  product_sku = "";
  item_quantity = pos 2;
  unit_price_cents = pos 999;
  total_price_cents = pos 0;
}

abbrev bought : Order
bought = record {
  id = 1;
  customer_id = 3;
  status = pending;
  total_amount_cents = pos 1998;
  currency = "USD";
  items = record lamp { item_id = 40; total_price_cents = pos 1998 } ∷ [];
  version = 1;
}

abbrev waiting : Order
waiting = record bought { status = pending_payment; version = 2 }

abbrev settled : Order
settled = record bought { status = confirmed; version = 3 }

abbrev desk : Order → State → Tables
desk o s = record {
  orders = o ∷ [];
  sagas = record { saga_order = 1; state = s; last_error = false } ∷ [];
  outbox = [];
  processed = [];
}

abbrev refuses : Remote → ℕ → Result (Unit {0})
refuses r n = err remote

abbrev office : Order → State → World Tables Remote
office o s = answering (desk o s) (desk o s) [] 0

bought_ok : new_order 1 (λ n. n + 40) 3 (lamp ∷ []) "USD" ≡ ok bought
unfolding new_order price_all priced wrap64 ◌+ℤ◌ ◌*ℤ◌
bought_ok = refl

lamp_cost : cost_of (lamp ∷ []) ≡ 1998
lamp_cost = refl

new_order_lem_example :
    (bought.total_amount_cents ≡ pos (cost_of (lamp ∷ [])))
    × ((length bought.items ≡ length (lamp ∷ [])) × (bought.status ≡ pending))
new_order_lem_example =
    new_order_lem (λ n. n + 40) 1 3 (lamp ∷ []) "USD" bought bought_ok (omega (arith, lamp_cost))

handle_payment_terminal_example :
    Kept
      (desk settled completed)
      (handle_payment refuses payment_failed 5 (some 1) (office settled completed)).1.committed
    × ((handle_payment refuses payment_failed 5 (some 1) (office settled completed)).1.calls ≡ [])
handle_payment_terminal_example =
    handle_payment_terminal refuses (office settled completed) 1 settled payment_failed 5 refl
      (inl refl)

handle_payment_unreleased_example :
    ((handle_payment refuses payment_failed 5 (some 1) (office waiting awaiting_payment)).0
      ≡ err remote)
    × ((state_of 1
            (handle_payment refuses payment_failed 5
              (some 1)
              (office waiting awaiting_payment)).1.committed
          ≡ ok compensating)
        × SameButSaga
            (desk waiting awaiting_payment)
            (handle_payment refuses payment_failed 5
              (some 1)
              (office waiting awaiting_payment)).1.committed)
unfolding is_terminal
handle_payment_unreleased_example =
    handle_payment_unreleased refuses 1 remote waiting (λ n. refl) refl 5
      (desk waiting awaiting_payment) (desk waiting awaiting_payment) [] 0 refl refl refl

handle_payment-IsAhead_example :
    IsAhead 1 awaiting_payment
      (handle_payment refuses payment_processed 5
        (some 1)
        (office waiting awaiting_payment)).1.committed
handle_payment-IsAhead_example =
    handle_payment-IsAhead refuses payment_processed 5 (some 1) 1 awaiting_payment
      (office waiting awaiting_payment) refl
