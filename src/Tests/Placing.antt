-- ===== src/Tests/Placing.antt =====
-- Concrete requests to the order service.
use eventflow_commerce.Common.{true}
use eventflow_commerce.Order.Reads.{Reader, show_order, read_order, get_entry, set_entry}
use eventflow_commerce.Order.Reads.Traffic.{Traffic, IsShown, show_order-IsShown}
use eventflow_commerce.Order.Rows.{update_status}
use eventflow_commerce.Order.Domain.{mark_pending}
use eventflow_commerce.Order.Service.{apply_transition}
use eventflow_commerce.Order.Rows.{update_state}
use eventflow_commerce.Order.Saga.{can_transition}
use eventflow_commerce.Order.Rows.{state_for_update}
use eventflow_commerce.Order.Rows.{transition_saga}
use eventflow_commerce.Order.Rows.{start_saga}
use eventflow_commerce.Order.Service.{pending_body}
use eventflow_commerce.Order.Service.{mark_pending_payment}
use eventflow_commerce.Database.Session.{in_session}
use eventflow_commerce.Order.Service.{mark_pending_after_create}
use eventflow_commerce.Order.Rows.{enqueue}
use eventflow_commerce.Order.Orders.{insert_item}
use eventflow_commerce.Order.Orders.{insert_items}
use eventflow_commerce.Common.Int.{◌*ℤ◌}
use eventflow_commerce.Database.{select}
use eventflow_commerce.Order.Service.{get_by_id}
use eventflow_commerce.Common.Int.{◌+ℤ◌}
use eventflow_commerce.Common.Int.{wrap64}
use eventflow_commerce.Order.Orders.{insert_order}
use eventflow_commerce.Order.Orders.{save_writes}
use eventflow_commerce.Database.{in_tx}
use eventflow_commerce.Order.Orders.{save_order}
use eventflow_commerce.Order.Handler.{save_or_release}
use eventflow_commerce.Order.Service.{call_remote}
use eventflow_commerce.Order.Handler.{place_order}
use eventflow_commerce.Order.Domain.{priced}
use eventflow_commerce.Order.Domain.{price_all}
use eventflow_commerce.Order.Domain.{new_order}
use eventflow_commerce.Order.Handler.{parse_items}
use eventflow_commerce.Order.Handler.{customer_id_from_header}
use eventflow_commerce.Order.Handler.{requested_order}
use eventflow_commerce.Common.{ℕ, ◌≡◌, ◌+◌, refl, Option, some, [], ◌∷◌}
use eventflow_commerce.Common.Int.{pos}
use eventflow_commerce.Errors.{Result, ok}
use eventflow_commerce.Database.{World, answers}
use eventflow_commerce.Order.Domain.{Order, pending_payment}
use eventflow_commerce.Order.Rows.{Tables}
use eventflow_commerce.Order.Service.{Remote}
use eventflow_commerce.Order.Handler.{read, CreateOrderRequest, created, found, create, get}
use eventflow_commerce.Messaging.Outbox.{payment_processed}
use eventflow_commerce.Order.Service.{handle_payment}
use eventflow_commerce.Order.Agreement.Consumer.{IsSettled}
use eventflow_commerce.Order.Agreement.Placing.{nothing_yet, requested, notified, History-IsSettled}

abbrev pub counter : World Tables Remote
counter = record {
  committed = record { orders = []; sagas = []; outbox = []; processed = [] };
  view = record { orders = []; sagas = []; outbox = []; processed = [] };
  calls = [];
  clock = 0;
  replies = λ n. answers;
}

abbrev pub agrees : Remote → ℕ → Result (Unit {0})
agrees r n = ok tt

abbrev pub wanted : Option CreateOrderRequest
wanted = some (record {
  requested_items =
      record {
        requested_product = some 7;
        requested_name = "lamp";
        requested_sku = "";
        requested_quantity = pos 2;
        requested_price = pos 999;
      }
      ∷ [];
  requested_currency = "";
})

create_run : (create agrees 1 (λ n. n + 40) (read 3) wanted counter).0 ≡ created 1 pending_payment
unfolding create requested_order customer_id_from_header parse_items new_order price_all priced
    place_order call_remote save_or_release save_order in_tx save_writes insert_order wrap64 ◌+ℤ◌
    ◌*ℤ◌ insert_items insert_item enqueue mark_pending_after_create in_session mark_pending_payment
    get_by_id select pending_body start_saga transition_saga state_for_update can_transition
    update_state apply_transition mark_pending update_status
create_run = refl

-- The order that was placed.
abbrev pub shelf : World Tables Remote
shelf = (create agrees 1 (λ n. n + 40) (read 3) wanted counter).1

abbrev pub placed_order : Order
placed_order = record {
  id = 1;
  customer_id = 3;
  status = pending_payment;
  total_amount_cents = pos 1998;
  currency = "USD";
  items =
      record {
        item_id = 40;
        product_id = 7;
        product_name = "lamp";
        product_sku = "";
        item_quantity = pos 2;
        unit_price_cents = pos 999;
        total_price_cents = pos 1998;
      }
      ∷ [];
  version = 2;
}

get_run : (get (read 3) (some 1) shelf).0 ≡ found placed_order
unfolding get customer_id_from_header get_by_id select create requested_order parse_items new_order
    price_all priced place_order call_remote save_or_release save_order in_tx save_writes
    insert_order wrap64 ◌+ℤ◌ ◌*ℤ◌ insert_items insert_item enqueue mark_pending_after_create
    in_session mark_pending_payment pending_body start_saga transition_saga state_for_update
    can_transition update_state apply_transition mark_pending update_status
get_run = refl

-- The order is placed, and then the payment service reports its payment.
abbrev paid_world : World Tables Remote
paid_world = (handle_payment agrees payment_processed 9 (some 1) shelf).1

History-IsSettled_example : IsSettled paid_world.committed
History-IsSettled_example = History-IsSettled (
    notified agrees payment_processed 9 (some 1) shelf
      (requested agrees 1 (λ n. n + 40) (read 3) wanted counter nothing_yet refl))

-- The order is read, which fills the cache, then it is paid, and then it is read again.
abbrev empty_cache : Reader
empty_cache = record {
  server = shelf;
  entries = [];
  cache_calls = 0;
  cache_answers = λ n. true;
  kept = λ n id. true;
}

abbrev filled : Reader
filled = (show_order true (read 3) (some 1) empty_cache).1

abbrev pub paid_reader : Reader
paid_reader = record filled {
  server = (handle_payment agrees payment_processed 9 (some 1) filled.server).1;
}

-- The history of these steps.
pub paid-Traffic : Traffic agrees paid_reader
paid-Traffic =
    Traffic.notified payment_processed 9 (some 1) filled (
      Traffic.looked_up true (read 3) (some 1) empty_cache
        (Traffic.nothing_cached empty_cache refl))

pub shown_run : (show_order true (read 3) (some 1) paid_reader).0 ≡ found placed_order
unfolding show_order read_order get_entry set_entry customer_id_from_header get_by_id select create
    requested_order parse_items new_order price_all priced place_order call_remote save_or_release
    save_order in_tx save_writes insert_order wrap64 ◌+ℤ◌ ◌*ℤ◌ insert_items insert_item enqueue
    mark_pending_after_create in_session mark_pending_payment pending_body start_saga
    transition_saga state_for_update can_transition update_state apply_transition mark_pending
    update_status
shown_run = refl

show_order-IsShown_example :
    IsShown
      (read 3)
      (some 1)
      placed_order
      (show_order true (read 3) (some 1) paid_reader).1.server.committed
show_order-IsShown_example =
    show_order-IsShown agrees true (read 3) (some 1) paid_reader placed_order paid-Traffic shown_run
