-- ===== src/Inventory/Repository.antt =====
-- internal/inventory/repository.go
use cartnova_go_microservice.Prelude.{
  ℤ, String, Bool, Option, none, some, List, [], ◌∷◌, ltb_ℤ, if◌then◌else◌,
}
use cartnova_go_microservice.Go.{GoError, sentinel, Result, ok, err}
use cartnova_go_microservice.World.{Run, return, fail, perform, query, ◌>>=◌, ◌>>◌}
use cartnova_go_microservice.World.Transaction.{transaction}
use cartnova_go_microservice.Inventory.Model.{Inventory, ReservationItem, Tables}
use cartnova_go_microservice.Inventory.Tables.{
  exists_reserved, select_available, update_inventory, insert_reservation, upsert_inventory,
  select_inventory, insert_processed,
}

abbrev pub err_not_found : GoError
err_not_found = sentinel "inventory not found"

abbrev pub err_insufficient_stock : GoError
err_insufficient_stock = sentinel "insufficient stock"

-- A statement outside a transaction: its own rows are written at once or not at all.
abbrev pub single : {A : Type 0} → (Tables → Result (A × Tables)) → Tables → Result A × Tables
single statement t = elim (statement t) [ ok (a, t') ↦ (ok a, t') | err e ↦ (err e, t) ]

unfoldable pub create_or_update : ℤ → ℤ → Run Tables Inventory
unfolding perform upsert_inventory
create_or_update product_id quantity = perform (single (upsert_inventory product_id quantity))

-- A statement of the open transaction.
abbrev statement : {A : Type 0} → Result A → Run Tables A
statement r = query λ _. r

-- `Scan(&available)`, and the test of the stock
unfoldable pub check_available : ℤ → Option ℤ → Run Tables Unit
unfolding fail return
check_available quantity none = fail err_not_found
check_available quantity (some available) =
    if ltb_ℤ available quantity then fail err_insufficient_stock else return tt

-- The body of the loop.
unfoldable pub reserve_item : ℤ → ReservationItem → Tables → Run Tables Tables
unfolding ◌>>=◌ query check_available exists_reserved select_available update_inventory
    insert_reservation
reserve_item order_id item tx = do
  already_reserved ← statement (ok (exists_reserved order_id item.product_id tx.reservations))
  if already_reserved then return tx else do
    available ← statement (ok (select_available item.product_id tx))
    check_available item.quantity available
    tx' ← statement (update_inventory item.quantity item.product_id tx)
    statement (insert_reservation order_id item.product_id item.quantity tx')

unfoldable pub reserve_items : ℤ → List ReservationItem → Tables → Run Tables Tables
unfolding reserve_item
reserve_items order_id [] tx = return tx
reserve_items order_id (item ∷ rest) tx = do
  tx' ← reserve_item order_id item tx
  reserve_items order_id rest tx'

abbrev pub reserve_body : ℤ → List ReservationItem → Tables → Run Tables (Unit {0} × Tables)
reserve_body order_id items tx = do tx' ← reserve_items order_id items tx; return (tt, tx')

unfoldable pub reserve_order : ℤ → List ReservationItem → Run Tables (Unit {0})
unfolding transaction reserve_items
reserve_order order_id items = transaction (reserve_body order_id items)

or_not_found : {A : Type 0} → Option A → Run Tables A
unfolding fail return
or_not_found none = fail err_not_found
or_not_found (some a) = return a

unfoldable pub get : ℤ → Run Tables Inventory
unfolding ◌>>=◌ query or_not_found select_inventory
get product_id = do row ← query λ t. ok (select_inventory product_id t); or_not_found row

unfoldable pub mark_event_processed : String → Run Tables Bool
unfolding perform insert_processed
mark_event_processed event_id = perform (single (insert_processed event_id))
