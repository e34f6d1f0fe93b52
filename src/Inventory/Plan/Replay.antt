-- ===== src/Inventory/Plan/Replay.antt =====
-- A reservation that is recorded is not made again.
use cartnova_go_microservice.Prelude.{
  ℤ, ◌≡◌, refl, true, Bool-cases, List, [], ◌∷◌, inl, inr, arith, ==ℤ_refl, subst,
}
use cartnova_go_microservice.Go.{Result, ok, err, ◌>>=◌}
use cartnova_go_microservice.Inventory.Model.{ReservationItem, Tables}
use cartnova_go_microservice.Inventory.Tables.{exists_reserved}
use cartnova_go_microservice.Inventory.Plan.{plan_item, plan_items}
use cartnova_go_microservice.Inventory.Plan.Moves.{Moves, plan_line-Moves, plan_items-keeps}

abbrev pub IsHeld : ℤ → ℤ → Tables → Type 0
IsHeld order_id product_id t = exists_reserved order_id product_id t.reservations ≡ true

IsHeld-Moves :
    (order_id product_id : ℤ) (item : ReservationItem) (t t' : Tables)
    → Moves order_id item t t'
    → IsHeld order_id product_id t
    → IsHeld order_id product_id t'
unfolding exists_reserved
IsHeld-Moves order_id product_id item t t' m h = rw (m.recorded) (ground arith)

IsHeld-made :
    (order_id : ℤ) (item : ReservationItem) (t t' : Tables)
    → Moves order_id item t t'
    → IsHeld order_id item.product_id t'
unfolding exists_reserved
IsHeld-made order_id item t t' m =
    rw (m.recorded) (ground (arith, ==ℤ_refl order_id, ==ℤ_refl item.product_id))

-- After a line has succeeded its product is held for the order.
pub plan_item-IsHeld :
    (order_id : ℤ) (item : ReservationItem) (t t' : Tables)
    → plan_item order_id item t ≡ ok t'
    → IsHeld order_id item.product_id t'
unfolding plan_item
plan_item-IsHeld order_id item t t' e =
    elim (Bool-cases (exists_reserved order_id item.product_id t.reservations)) [
      | inl old ↦
          (let same : t ≡ t' = ground arith in subst (IsHeld order_id item.product_id) same old)
      | inr new ↦ IsHeld-made order_id item t t' (plan_line-Moves order_id item t t' (ground arith))
    ]

pub plan_item_held :
    (order_id : ℤ) (item : ReservationItem) (t : Tables)
    → IsHeld order_id item.product_id t
    → plan_item order_id item t ≡ ok t
unfolding plan_item
plan_item_held order_id item t h = ground arith

pub plan_items-IsHeld :
    (order_id product_id : ℤ) (items : List ReservationItem) (t t' : Tables)
    → plan_items order_id items t ≡ ok t'
    → IsHeld order_id product_id t
    → IsHeld order_id product_id t'
plan_items-IsHeld order_id product_id = plan_items-keeps (IsHeld-Moves order_id product_id)

bind_ok :
    (r : Result Tables) (f : Tables → Result Tables) (t' : Tables)
    → (r >>= f) ≡ ok t'
    → (t : Tables) × (r ≡ ok t) × (f t ≡ ok t')
bind_ok (ok t) f t' e = (t, refl, e)
bind_ok (err x) f t' e = absurd (cc)

-- A plan whose tables are in place plans nothing more.
pub plan_items_again :
    (order_id : ℤ) (items : List ReservationItem) (t t' : Tables)
    → plan_items order_id items t ≡ ok t'
    → plan_items order_id items t' ≡ ok t'
unfolding plan_items
plan_items_again order_id [] t t' e = refl
plan_items_again order_id (item ∷ rest) t t' e =
    let (u, here, later) = bind_ok (plan_item order_id item t) (plan_items order_id rest) t' e in
    let held =
      plan_items-IsHeld order_id item.product_id rest u t' later
        (plan_item-IsHeld order_id item t u here) in
    rw (plan_item_held order_id item t' held) (plan_items_again order_id rest u t' later)
