-- ===== src/Inventory/Plan/Moves.antt =====
-- What one line of a plan does, read off its success.
use cartnova_go_microservice.Prelude.{
  ℤ, ◌≡◌, refl, inl, inr, true, false, some, Option-cases, List, [], ◌∷◌, ◌≤ℤ◌, ◌+ℤ◌, ◌-ℤ◌, int4,
  neg_part, is_nonpos, arith, Bool-cases, subst,
}
use cartnova_go_microservice.Go.{Result, ok, err, ◌>>=◌}
use cartnova_go_microservice.Inventory.Model.{ReservationItem, Stock, Reservation, Tables}
use cartnova_go_microservice.Inventory.Tables.{
  set_stock, exists_reserved, exists_key, select_available, update_inventory, insert_reservation,
}
use cartnova_go_microservice.Inventory.Plan.{plan_line, plan_item, plan_items}

abbrev pub reservation_of : ℤ → ReservationItem → Reservation
reservation_of order_id item = record {
  order_id = order_id;
  product_id = item.product_id;
  quantity = item.quantity;
  status = "RESERVED";
}

abbrev pub moved_stock : ReservationItem → Stock → Stock
moved_stock item row = record {
  available = row.available -ℤ item.quantity;
  reserved = row.reserved +ℤ item.quantity;
}

-- Stock of the item's product moves, and one reservation is added.
pub record Moves (order_id : ℤ) (item : ReservationItem) (t t' : Tables) : Type 0 where
  pub row : Stock
  pub found : t.inventory item.product_id ≡ some row
  pub enough : item.quantity ≤ℤ row.available
  pub positive : is_nonpos item.quantity ≡ false
  pub available_fits : int4 (row.available -ℤ item.quantity) ≡ true
  pub reserved_fits : int4 (row.reserved +ℤ item.quantity) ≡ true
  pub available_nonneg : neg_part (row.available -ℤ item.quantity) ≡ 0
  pub reserved_nonneg : neg_part (row.reserved +ℤ item.quantity) ≡ 0
  pub fresh : exists_key order_id item.product_id t.reservations ≡ false
  pub moved : t'.inventory ≡ set_stock item.product_id (moved_stock item row) t.inventory
  pub recorded : t'.reservations ≡ reservation_of order_id item ∷ t.reservations
  pub processed : t'.processed_events ≡ t.processed_events

plan_line-some :
    (order_id : ℤ) (item : ReservationItem) (t t' : Tables) (row : Stock)
    → t.inventory item.product_id ≡ some row
    → plan_line order_id item t ≡ ok t'
    → Moves order_id item t t'
unfolding plan_line select_available update_inventory insert_reservation
plan_line-some order_id item t t' row f e = record {
  row = row;
  found = f;
  enough = ground arith;
  positive = ground arith;
  available_fits = ground arith;
  reserved_fits = ground arith;
  available_nonneg = ground arith;
  reserved_nonneg = ground arith;
  fresh = ground arith;
  moved = ground arith;
  recorded = ground arith;
  processed = ground arith;
}

pub plan_line-Moves :
    (order_id : ℤ) (item : ReservationItem) (t t' : Tables)
    → plan_line order_id item t ≡ ok t'
    → Moves order_id item t t'
plan_line-Moves order_id item t t' e = elim (Option-cases (t.inventory item.product_id)) [
  | inl missing ↦ absurd (unfold plan_line select_available in ground arith)
  | inr (row, f) ↦ plan_line-some order_id item t t' row f e
]

-- A plan that succeeds is a chain of moves: what each move keeps, the plan keeps.
module _ {order_id : ℤ} {P : Tables → Type 0}
    (step : (item : ReservationItem) (t t' : Tables) → Moves order_id item t t' → P t → P t') where
  pub plan_item-keeps :
      (item : ReservationItem) (t t' : Tables) → plan_item order_id item t ≡ ok t' → P t → P t'
  unfolding plan_item
  plan_item-keeps item t t' e h =
      elim (Bool-cases (exists_reserved order_id item.product_id t.reservations)) [
        | inl old ↦ subst P (ground arith) h
        | inr new ↦ step item t t' (plan_line-Moves order_id item t t' (ground arith)) h
      ]

  plan_rest-keeps :
      (r : Result Tables) (rest : List ReservationItem) (t' : Tables)
      → ((t : Tables) → plan_items order_id rest t ≡ ok t' → P t → P t')
      → ((t : Tables) → r ≡ ok t → P t)
      → (r >>= λ t. plan_items order_id rest t) ≡ ok t'
      → P t'
  plan_rest-keeps (ok t) rest t' later here e = later t e (here t refl)
  plan_rest-keeps (err x) rest t' later here e = absurd (cc)

  pub plan_items-keeps :
      (items : List ReservationItem) (t t' : Tables)
      → plan_items order_id items t ≡ ok t'
      → P t
      → P t'
  unfolding plan_items
  plan_items-keeps [] t t' e h = subst P (cc) h
  plan_items-keeps (item ∷ rest) t t' e h =
      plan_rest-keeps (plan_item order_id item t) rest t' (λ u. plan_items-keeps rest u t')
        (λ u k. plan_item-keeps item t u k h) e
