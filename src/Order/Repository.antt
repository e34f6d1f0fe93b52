-- ===== src/Order/Repository.antt =====
-- internal/order/repository.go
use cartnova_go_microservice.Prelude.{
  ℕ, ℤ, String, Bool, ltb, not, ◌||◌, Option, none, some, List, [], ◌∷◌, ◌==◌, map, if◌then◌else◌,
}
use cartnova_go_microservice.Go.{GoError, sentinel, pg_error, Result, ok, err, Float64, Floats}
use cartnova_go_microservice.World.{Run, return, fail, perform, query, ◌>>=◌, next_serial, now}
use cartnova_go_microservice.World.Transaction.{transaction}
use cartnova_go_microservice.Order.Model.{Order, OrderItem}
use cartnova_go_microservice.Order.Tables.{
  OrderRow, Tables, has_order, insert_order, insert_item, find_row, select_items, select_by_user,
  set_status,
}

abbrev pub err_not_found : GoError
err_not_found = sentinel "order not found"

-- A statement of the open transaction.
abbrev statement : {A : Type 0} → Result A → Run Tables A
statement r = query λ _. r

-- The row of a new order.
abbrev pub new_row : ℤ → ℕ → ℤ → Float64 → OrderRow
new_row id time user_id total = record {
  id = id;
  user_id = user_id;
  total_amount = total;
  status = "CREATED";
  created_at = time;
  updated_at = time;
}

abbrev pub numbered : ℤ → OrderItem → OrderItem
numbered id item = record item { id = id }

-- The columns of a row, with these items.
abbrev pub order_of : OrderRow → List OrderItem → Order
order_of row items = record {
  id = row.id;
  user_id = row.user_id;
  total_amount = row.total_amount;
  status = row.status;
  items = items;
  created_at = row.created_at;
  updated_at = row.updated_at;
}

module _ (floats : Floats) where
  -- The loop over `order.Items`: each insert returns the id of its row.
  unfoldable pub create_items : ℤ → List OrderItem → Tables → Run Tables (List OrderItem × Tables)
  create_items order_id [] tx = return ([], tx)
  create_items order_id (item ∷ rest) tx = do
    id ← next_serial
    tx' ← statement (insert_item floats order_id (numbered id item) tx)
    (items, tx'') ← create_items order_id rest tx'
    return (numbered id item ∷ items, tx'')

  unfoldable pub create_body : ℤ → List OrderItem → Float64 → Tables → Run Tables (Order × Tables)
  create_body user_id items total tx = do
    id ← next_serial
    time ← now
    tx' ← statement (insert_order floats (new_row id time user_id total) tx)
    (stored, tx'') ← create_items id items tx'
    return (order_of (new_row id time user_id total) stored, tx'')

  unfoldable pub create : ℤ → List OrderItem → Float64 → Run Tables Order
  create user_id items total = transaction (create_body user_id items total)

unfoldable pub found_row : ℤ → Option OrderRow → Run Tables Order
unfolding fail ◌>>=◌ query return select_items
found_row id none = fail err_not_found
found_row id (some row) = do
  items ← query λ t. ok (select_items id t.order_items)
  return (order_of row items)

unfoldable pub find_by_id : ℤ → Run Tables Order
unfolding ◌>>=◌ query found_row find_row
find_by_id id = do row ← query λ t. ok (find_row id t.orders); found_row id row

-- The items of these orders are not read.
unfoldable pub find_by_user_id : ℤ → Run Tables (List Order)
unfolding query select_by_user
find_by_user_id user_id =
    query λ t. ok (map (λ row. order_of row []) (select_by_user user_id t.orders))

unfoldable pub affected : Bool → Run Tables (Unit {0})
unfolding fail return
affected found = if found then return tt else fail err_not_found

-- The id is the primary key, so a row is affected exactly if there is one with the id.
unfoldable pub update_status : ℤ → String → Run Tables (Unit {0})
unfolding ◌>>=◌ perform affected now has_order set_status
update_status id status = do
  time ← now
  found ←
      perform
        λ t. (ok (has_order id t.orders), record t { orders = set_status id status time t.orders })
  affected found

-- INSERT INTO processed_events(event_id) ON CONFLICT DO NOTHING, into a VARCHAR(100), which is checked
-- before the conflict is looked for.
unfoldable pub mark_event_processed : String → Run Tables Bool
unfolding perform
mark_event_processed event_id = perform λ t.
    if ltb 100 (Prim.Native.String.count event_id) then (err (pg_error "22001"), t) else (
      ok (not (t.processed_events event_id)),
      record t { processed_events = λ other. (event_id == other) || t.processed_events other },
    )
