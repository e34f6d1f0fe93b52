-- ===== src/Inventory/Tables.antt =====
-- The SQL statements of internal/inventory/repository.go on the tables of migrations/inventory: the
-- rows that each one reads or writes, and the constraints that can stop it.
use cartnova_go_microservice.Prelude.{
  ℤ, pos, String, Bool, true, false, not, ◌&&◌, ◌||◌, Option, none, some, List, [], ◌∷◌, ◌==◌,
  ◌==ℤ◌, ◌+ℤ◌, ◌-ℤ◌, int4, leb, ltb, neg_part, is_nonpos, if◌then◌else◌,
}
use cartnova_go_microservice.Go.{Result, ok, err, foreign, pg_error, ◌>>=◌}
use cartnova_go_microservice.Inventory.Model.{Inventory, Stock, Reservation, Tables}

-- A parameter that the driver encodes as INT.
unfoldable pub int4_parameter : ℤ → Result ℤ
int4_parameter n = if int4 n then ok n else err (foreign "value out of range for int4")

-- A value of an INT column with CHECK (column >= 0): numeric_value_out_of_range, check_violation.
unfoldable pub quantity_column : ℤ → Result ℤ
quantity_column n =
    if int4 n
    then (if leb (neg_part n) 0 then ok n else err (pg_error "23514"))
    else err (pg_error "22003")

abbrev pub set_stock : ℤ → Stock → (ℤ → Option Stock) → ℤ → Option Stock
set_stock p row inventory q = if p ==ℤ q then some row else inventory q

abbrev pub is_reserved : ℤ → ℤ → Reservation → Bool
is_reserved order_id product_id r =
    (r.order_id ==ℤ order_id) && (r.product_id ==ℤ product_id) && (r.status == "RESERVED")

-- SELECT EXISTS(SELECT 1 FROM reservations WHERE ... AND status = 'RESERVED')
unfoldable pub exists_reserved : ℤ → ℤ → List Reservation → Bool
exists_reserved order_id product_id [] = false
exists_reserved order_id product_id (r ∷ rs) =
    is_reserved order_id product_id r || exists_reserved order_id product_id rs

-- UNIQUE(order_id, product_id)
unfoldable pub exists_key : ℤ → ℤ → List Reservation → Bool
exists_key order_id product_id [] = false
exists_key order_id product_id (r ∷ rs) =
    ((r.order_id ==ℤ order_id) && (r.product_id ==ℤ product_id))
    || exists_key order_id product_id rs

-- SELECT available_quantity FROM inventory WHERE product_id = $1 FOR UPDATE
unfoldable pub select_available : ℤ → Tables → Option ℤ
select_available product_id t = elim (t.inventory product_id) [
  | none ↦ none
  | some row ↦ some row.available
]

-- UPDATE inventory SET available_quantity = available_quantity - $1, ...
move_row : ℤ → ℤ → Tables → Option Stock → Result Tables
unfolding quantity_column
move_row quantity product_id t none = ok t
move_row quantity product_id t (some row) = do
  available ← quantity_column (row.available -ℤ quantity)
  reserved ← quantity_column (row.reserved +ℤ quantity)
  ok (record t {
    inventory =
        set_stock product_id (record { available = available; reserved = reserved }) t.inventory;
  })

unfoldable pub update_inventory : ℤ → ℤ → Tables → Result Tables
unfolding move_row int4_parameter
update_inventory quantity product_id t = do
  q ← int4_parameter quantity
  move_row q product_id t (t.inventory product_id)

add_reservation : Bool → Bool → Reservation → Tables → Result Tables
add_reservation true taken row t = err (pg_error "23514")
add_reservation false true row t = err (pg_error "23505")
add_reservation false false row t = ok (record t { reservations = row ∷ t.reservations })

-- INSERT INTO reservations(...) VALUES(..., 'RESERVED'), with CHECK (quantity > 0)
unfoldable pub insert_reservation : ℤ → ℤ → ℤ → Tables → Result Tables
unfolding int4_parameter exists_key add_reservation
insert_reservation order_id product_id quantity t = do
  q ← int4_parameter quantity
  add_reservation (is_nonpos q) (exists_key order_id product_id t.reservations)
      (record { order_id = order_id; product_id = product_id; quantity = q; status = "RESERVED" }) t

-- INSERT INTO inventory(...) ON CONFLICT(product_id) DO UPDATE SET available_quantity = ...
-- RETURNING ...: the proposed row is checked before the conflict is looked for.
unfoldable pub put_row : ℤ → ℤ → ℤ → Tables → Inventory × Tables
put_row product_id available reserved t = (
  record { product_id = product_id; available_quantity = available; reserved_quantity = reserved },
  record t {
    inventory =
        set_stock product_id (record { available = available; reserved = reserved }) t.inventory;
  },
)

unfoldable pub upsert_row : ℤ → ℤ → Tables → Option Stock → Result (Inventory × Tables)
unfolding put_row quantity_column
upsert_row product_id quantity t none = ok (put_row product_id quantity (pos 0) t)
upsert_row product_id quantity t (some row) = do
  available ← quantity_column (row.available +ℤ quantity)
  ok (put_row product_id available row.reserved t)

unfoldable pub upsert_inventory : ℤ → ℤ → Tables → Result (Inventory × Tables)
unfolding upsert_row int4_parameter quantity_column
upsert_inventory product_id quantity t = do
  q ← int4_parameter quantity
  proposed ← quantity_column q
  upsert_row product_id proposed t (t.inventory product_id)

-- SELECT product_id, available_quantity, reserved_quantity FROM inventory WHERE product_id = $1
unfoldable pub select_inventory : ℤ → Tables → Option Inventory
select_inventory product_id t = elim (t.inventory product_id) [
  | none ↦ none
  | some row ↦ some (record {
    product_id = product_id;
    available_quantity = row.available;
    reserved_quantity = row.reserved;
  })
]

-- INSERT INTO processed_events(event_id) ON CONFLICT DO NOTHING: was a row written? The column is a
-- VARCHAR(100), which is checked before the conflict is looked for.
unfoldable pub insert_processed : String → Tables → Result (Bool × Tables)
insert_processed event_id t =
    if ltb 100 (Prim.Native.String.count event_id)
    then err (pg_error "22001")
    else ok (
      not (t.processed_events event_id),
      record t { processed_events = λ other. (event_id == other) || t.processed_events other },
    )
