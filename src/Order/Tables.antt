-- ===== src/Order/Tables.antt =====
-- The tables of migrations/order and the SQL statements of internal/order/repository.go on them.
use cartnova_go_microservice.Prelude.{
  ℕ, ℤ, String, Bool, false, not, ◌||◌, Option, none, some, List, [], ◌∷◌, ◌++◌, ◌==ℤ◌, int4, ltb_ℤ,
  is_nonpos, if◌then◌else◌,
}
use cartnova_go_microservice.Go.{Result, ok, err, foreign, pg_error, ◌>>=◌, Float64, Floats}
use cartnova_go_microservice.Order.Model.{OrderItem}

-- A row of `orders`, and a row of `order_items`.
pub record OrderRow : Type 0 where
  pub id : ℤ
  pub user_id : ℤ
  pub total_amount : Float64
  pub status : String
  pub created_at : ℕ
  pub updated_at : ℕ

pub record ItemRow : Type 0 where
  pub order_id : ℤ
  pub item : OrderItem

pub record Tables : Type 0 where
  pub orders : List OrderRow
  pub order_items : List ItemRow
  pub processed_events : String → Bool

-- PRIMARY KEY
unfoldable pub has_order : ℤ → List OrderRow → Bool
has_order id [] = false
has_order id (row ∷ rows) = (row.id ==ℤ id) || has_order id rows

unfoldable pub has_item : ℤ → List ItemRow → Bool
has_item id [] = false
has_item id (row ∷ rows) = (row.item.id ==ℤ id) || has_item id rows

module _ (floats : Floats) where
  -- A NUMERIC(12,2) column with CHECK (column >= 0).
  unfoldable pub amount_column : Option Float64 → Result Float64
  amount_column none = err (pg_error "22003")
  amount_column (some x) = if floats.is_negative x then err (pg_error "23514") else ok x

  -- INSERT INTO orders(user_id, total_amount, status) VALUES($1, $2, $3)
  unfoldable pub insert_order : OrderRow → Tables → Result Tables
  unfolding amount_column has_order
  insert_order row t = do
    total ← amount_column (floats.numeric row.total_amount)
    if has_order row.id t.orders
        then err (pg_error "23505")
        else ok (record t { orders = record row { total_amount = total } ∷ t.orders })

  -- INSERT INTO order_items(order_id, product_id, quantity, price), with CHECK (quantity > 0)
  unfoldable pub insert_item : ℤ → OrderItem → Tables → Result Tables
  unfolding amount_column has_item has_order
  insert_item order_id item t =
      if not (int4 item.quantity) then err (foreign "value out of range for int4") else do
        price ← amount_column (floats.numeric item.price)
        if is_nonpos item.quantity
            then err (pg_error "23514")
            else if has_item item.id t.order_items
            then err (pg_error "23505")
            else if not (has_order order_id t.orders)
            then err (pg_error "23503")
            else ok (record t {
              order_items =
                  t.order_items
                  ++ record { order_id = order_id; item = record item { price = price } } ∷ [];
            })

-- SELECT ... FROM orders WHERE id = $1
unfoldable pub find_row : ℤ → List OrderRow → Option OrderRow
find_row id [] = none
find_row id (row ∷ rows) = if row.id ==ℤ id then some row else find_row id rows

-- ORDER BY id
insert_sorted : OrderItem → List OrderItem → List OrderItem
insert_sorted item [] = item ∷ []
insert_sorted item (next ∷ rest) =
    if ltb_ℤ next.id item.id then next ∷ insert_sorted item rest else item ∷ next ∷ rest

-- SELECT ... FROM order_items WHERE order_id = $1 ORDER BY id
unfoldable pub select_items : ℤ → List ItemRow → List OrderItem
unfolding insert_sorted
select_items order_id [] = []
select_items order_id (row ∷ rows) =
    let rest = select_items order_id rows in
    if row.order_id ==ℤ order_id then insert_sorted row.item rest else rest

-- ORDER BY id DESC
unfoldable pub insert_descending : OrderRow → List OrderRow → List OrderRow
insert_descending row [] = row ∷ []
insert_descending row (next ∷ rest) =
    if ltb_ℤ row.id next.id then next ∷ insert_descending row rest else row ∷ next ∷ rest

-- SELECT ... FROM orders WHERE user_id = $1 ORDER BY id DESC
unfoldable pub select_by_user : ℤ → List OrderRow → List OrderRow
unfolding insert_descending
select_by_user user_id [] = []
select_by_user user_id (row ∷ rows) =
    let rest = select_by_user user_id rows in
    if row.user_id ==ℤ user_id then insert_descending row rest else rest

-- UPDATE orders SET status = $1, updated_at = NOW() WHERE id = $2
unfoldable pub set_status : ℤ → String → ℕ → List OrderRow → List OrderRow
set_status id status time [] = []
set_status id status time (row ∷ rows) =
    (if row.id ==ℤ id then record row { status = status; updated_at = time } else row)
    ∷ set_status id status time rows
