-- ===== src/Inventory/Plan.antt =====
-- What the transaction of `ReserveOrder` does to the tables when no call fails: the specification
-- that the repository is compared with.
pub mod Moves
pub mod Stock
pub mod Ledger
pub mod Replay
use cartnova_go_microservice.Prelude.{ℤ, Option, none, some, List, [], ◌∷◌, ltb_ℤ, if◌then◌else◌}
use cartnova_go_microservice.Go.{Result, ok, err, ◌>>=◌, ◌>>◌}
use cartnova_go_microservice.Inventory.Model.{ReservationItem, Tables}
use cartnova_go_microservice.Inventory.Tables.{
  exists_reserved, select_available, update_inventory, insert_reservation,
}
use cartnova_go_microservice.Inventory.Repository.{err_not_found, err_insufficient_stock}

abbrev pub has_stock : ℤ → Option ℤ → Result (Unit {0})
has_stock quantity none = err err_not_found
has_stock quantity (some available) =
    if ltb_ℤ available quantity then err err_insufficient_stock else ok tt

-- Stock moves from available to reserved, and the reservation is recorded.
unfoldable pub plan_line : ℤ → ReservationItem → Tables → Result Tables
plan_line order_id item t = do
  has_stock item.quantity (select_available item.product_id t)
  t' ← update_inventory item.quantity item.product_id t
  insert_reservation order_id item.product_id item.quantity t'

unfoldable pub plan_item : ℤ → ReservationItem → Tables → Result Tables
plan_item order_id item t =
    if exists_reserved order_id item.product_id t.reservations
    then ok t
    else plan_line order_id item t

unfoldable pub plan_items : ℤ → List ReservationItem → Tables → Result Tables
plan_items order_id [] t = ok t
plan_items order_id (item ∷ rest) t = do t' ← plan_item order_id item t; plan_items order_id rest t'
