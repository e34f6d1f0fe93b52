-- ===== src/Inventory/Reserve.antt =====
-- What `ReserveOrder` guarantees whatever calls fail, and what it leaves out.
use cartnova_go_microservice.Prelude.{
  ℤ, ◌≡◌, refl, sym, ap, ◌∙◌, subst, inl, inr, List, [], ◌∷◌, arith,
}
use cartnova_go_microservice.Go
use cartnova_go_microservice.Go.{GoError, Result, ok, err}
use cartnova_go_microservice.World.{World}
use cartnova_go_microservice.World.Computes.{IsClear}
use cartnova_go_microservice.World.Transaction.{pair, outcome}
use cartnova_go_microservice.Inventory.Model.{ReservationItem, Tables}
use cartnova_go_microservice.Inventory.Repository.{reserve_order}
use cartnova_go_microservice.Inventory.Plan.{plan_item, plan_items}
use cartnova_go_microservice.Inventory.Plan.Moves.{Moves, plan_items-keeps}
use cartnova_go_microservice.Inventory.Plan.Stock.{total, total-Moves}
use cartnova_go_microservice.Inventory.Plan.Replay.{
  plan_item-IsHeld, plan_item_held, plan_items_again,
}
use cartnova_go_microservice.Inventory.Atomic.{
  reserve_order-IsAtomic, reserve_order-SameBroker, reserve_order-outcome,
}

planned_inv :
    (r : Result Tables) (t : Tables)
    → Go.◌>>=◌ {B = Unit {0} × Tables} r (λ t'. ok (tt, t')) ≡ ok (tt, t)
    → r ≡ ok t
planned_inv (ok t') t e = ground arith
planned_inv (err x) t e = absurd (cc)

module _ (order_id : ℤ) (items : List ReservationItem) (w : World Tables) where
  abbrev after : Tables
  after = (reserve_order order_id items w).1.state

  -- What every move keeps, the transaction keeps.
  pub reserve_order-keeps :
      (P : Tables → Type 0)
      → ((item : ReservationItem) (t t' : Tables) → Moves order_id item t t' → P t → P t')
      → P w.state
      → P after
  reserve_order-keeps P step h = elim (reserve_order-IsAtomic order_id items w) [
    | inl (same, failed) ↦ subst P (sym same) h
    | inr (_, planned, result) ↦
        plan_items-keeps {P = P} step items w.state after
          (planned_inv (plan_items order_id items w.state) after planned) h
  ]

  -- Reserving an order makes and loses no unit of any product.
  pub reserve_order-total : (p : ℤ) → total after p ≡ total w.state p
  reserve_order-total p =
      reserve_order-keeps (λ t. total t p ≡ total w.state p)
        (λ item t t' m h. total-Moves item t t' m p ∙ h) refl

  planned_of_ok :
      IsClear w
      → (reserve_order order_id items w).0 ≡ ok tt
      → plan_items order_id items w.state ≡ ok after
  planned_of_ok clear e =
      read (plan_items order_id items w.state) (reserve_order-outcome order_id items w clear)
    where
      read :
          (r : Result Tables)
          → pair (reserve_order order_id items w) ≡ outcome w.state (Go.◌>>=◌ r λ t. ok (tt, t))
          → r ≡ ok after
      read (ok t) k = ap ok (sym (ap (λ q. q.1) k))
      read (err x) k =
          absurd
            (let f : ◌≡◌ {A = Result (Unit {0})} (ok tt) (err x) = sym e ∙ ap (λ q. q.0) k in cc)

  -- When no call fails, an order that was reserved can be reserved again, and nothing changes.
  pub reserve_order_again :
      IsClear w
      → (reserve_order order_id items w).0 ≡ ok tt
      → pair (reserve_order order_id items (reserve_order order_id items w).1) ≡ (ok tt, after)
  reserve_order_again clear e =
      reserve_order-outcome order_id items (reserve_order order_id items w).1
        (λ k. rw ((reserve_order-SameBroker order_id items w).outside) (clear k))
      ∙ rw (plan_items_again order_id items w.state after (planned_of_ok clear e)) refl

-- A second line for the product of the line before it is not reserved.
plan_second :
    (order_id : ℤ) (first second : ReservationItem) (t : Tables)
    → second.product_id ≡ first.product_id
    → plan_items order_id (first ∷ second ∷ []) t ≡ plan_items order_id (first ∷ []) t
unfolding plan_items
plan_second order_id first second t e = read (plan_item order_id first t) refl
  where
    read :
        (r : Result Tables)
        → plan_item order_id first t ≡ r
        → Go.◌>>=◌ r (λ t'. Go.◌>>=◌ (plan_item order_id second t') ok) ≡ Go.◌>>=◌ r ok
    read (ok t') k =
        rw (plan_item_held order_id second t' (rw e (plan_item-IsHeld order_id first t t' k))) refl
    read (err x) k = refl

-- When no call fails, an order of two lines for one product has the result and leaves the tables of
-- the order of its first line alone, whatever the quantity of the second line.
pub second_line_ignored :
    (order_id : ℤ) (first second : ReservationItem) (w : World Tables)
    → IsClear w
    → second.product_id ≡ first.product_id
    → pair (reserve_order order_id (first ∷ second ∷ []) w)
      ≡ pair (reserve_order order_id (first ∷ []) w)
second_line_ignored order_id first second w clear e =
    reserve_order-outcome order_id (first ∷ second ∷ []) w clear
    ∙ ap (λ r. outcome w.state (Go.◌>>=◌ r λ t. ok (tt, t)))
        (plan_second order_id first second w.state e)
    ∙ sym (reserve_order-outcome order_id (first ∷ []) w clear)
