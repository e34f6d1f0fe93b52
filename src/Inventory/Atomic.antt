-- ===== src/Inventory/Atomic.antt =====
-- `ReserveOrder` against `plan_items`: all of the order is reserved or nothing is.
use cartnova_go_microservice.Prelude.{
  ℤ, Option, none, some, List, [], ◌∷◌, ◌≡◌, ltb_ℤ, if◌then◌else◌,
}
use cartnova_go_microservice.Go
use cartnova_go_microservice.Go.{Result, ok, err}
use cartnova_go_microservice.World.{World}
use cartnova_go_microservice.World.Computes.{
  Computes, IsClear, Computes-return, Computes-fail, Computes-query, Computes-if, Computes-bind,
}
use cartnova_go_microservice.World.Transaction.{
  IsAtomic, SameBroker, pair, outcome, transaction-IsAtomic, transaction-outcome,
  transaction-SameBroker,
}
use cartnova_go_microservice.Inventory.Model.{ReservationItem, Tables}
use cartnova_go_microservice.Inventory.Tables.{update_inventory, insert_reservation}
use cartnova_go_microservice.Inventory.Repository.{
  check_available, reserve_item, reserve_items, reserve_body, reserve_order,
}
use cartnova_go_microservice.Inventory.Plan.{has_stock, plan_line, plan_item, plan_items}

check_available-Computes :
    (quantity : ℤ) (available : Option ℤ)
    → Computes (check_available quantity available) (has_stock quantity available)
unfolding check_available
check_available-Computes quantity none = Computes-fail _
check_available-Computes quantity (some available) =
    Computes-if (ltb_ℤ available quantity) (Computes-fail _) (Computes-return tt)

reserve_item-Computes :
    (order_id : ℤ) (item : ReservationItem) (tx : Tables)
    → Computes (reserve_item order_id item tx) (plan_item order_id item tx)
unfolding reserve_item plan_item plan_line
reserve_item-Computes order_id item tx =
    Computes-bind _ (λ b. if b then ok tx else plan_line order_id item tx)
      (λ already. Computes-if already (Computes-return tx) (
        Computes-bind _
          (λ available. Go.◌>>=◌ (has_stock item.quantity available) λ _.
            Go.◌>>=◌ (update_inventory item.quantity item.product_id tx)
              λ t. insert_reservation order_id item.product_id item.quantity t)
          (λ available.
            Computes-bind _ _ (λ _. Computes-bind _ _ (λ t. Computes-query _) (Computes-query _))
              (check_available-Computes item.quantity available))
          (Computes-query _)))
      (Computes-query _)

reserve_items-Computes :
    (order_id : ℤ) (items : List ReservationItem) (tx : Tables)
    → Computes (reserve_items order_id items tx) (plan_items order_id items tx)
unfolding reserve_items plan_items
reserve_items-Computes order_id [] tx = Computes-return tx
reserve_items-Computes order_id (item ∷ rest) tx =
    Computes-bind _ _ (reserve_items-Computes order_id rest)
      (reserve_item-Computes order_id item tx)

abbrev pub planned_order : ℤ → List ReservationItem → Tables → Result (Unit {0} × Tables)
planned_order order_id items t = Go.◌>>=◌ (plan_items order_id items t) λ t'. ok (tt, t')

reserve_body-Computes :
    (order_id : ℤ) (items : List ReservationItem) (tx : Tables)
    → Computes (reserve_body order_id items tx) (planned_order order_id items tx)
reserve_body-Computes order_id items tx =
    Computes-bind _ _ (λ t. Computes-return (tt, t)) (reserve_items-Computes order_id items tx)

module _ (order_id : ℤ) (items : List ReservationItem) (w : World Tables) where
  -- Whatever calls fail, `ReserveOrder` either returns an error and leaves the tables alone, or puts
  -- in place exactly the tables of the plan; an error beside those is an unacknowledged commit.
  pub reserve_order-IsAtomic :
      IsAtomic w.state
        (planned_order order_id items w.state)
        (reserve_order order_id items w).0
        (reserve_order order_id items w).1.state
  unfolding reserve_order
  reserve_order-IsAtomic =
      transaction-IsAtomic _ (planned_order order_id items) (reserve_body-Computes order_id items) w

  pub reserve_order-SameBroker : SameBroker w (reserve_order order_id items w).1
  unfolding reserve_order
  reserve_order-SameBroker =
      transaction-SameBroker _ (planned_order order_id items) (reserve_body-Computes order_id items)
        w

  -- When no call fails, the result and the tables are those of the plan.
  pub reserve_order-outcome :
      IsClear w
      → pair (reserve_order order_id items w)
        ≡ outcome w.state (planned_order order_id items w.state)
  unfolding reserve_order
  reserve_order-outcome =
      transaction-outcome _ (planned_order order_id items) (reserve_body-Computes order_id items) w
