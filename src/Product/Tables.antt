-- ===== src/Product/Tables.antt =====
-- The SQL statements of internal/product/repository.go on the tables of migrations/product.
use Prim.Native.String
use cartnova_go_microservice.Prelude.{
  ℤ, String, ◌&&◌, ◌==◌, ◌<>◌, ltb_ℤ, Bool, true, false, not, ◌||◌, Option, none, some, List, [],
  ◌∷◌, ◌==ℤ◌, ltb, if◌then◌else◌,
}
use cartnova_go_microservice.Go.{pg_error, Result, ok, err, ◌>>=◌, Float64, Floats}
use cartnova_go_microservice.Reply.{order_by}
use cartnova_go_microservice.Product.Model.{Product, Store, find_product, has_category}

module _ (floats : Floats) where
  -- price NUMERIC(12,2) CHECK (price >= 0)
  price_column : Option Float64 → Result Float64
  price_column none = err (pg_error "22003")
  price_column (some x) = if floats.is_negative x then err (pg_error "23514") else ok x

  -- The values of a row, checked by the types and constraints of the columns. VARCHAR(n) holds n
  -- characters.
  unfoldable pub stored_row : Product → Store → Result Product
  unfolding price_column
  stored_row p s =
      if ltb 255 (Prim.Native.String.count p.name) || ltb 30 (Prim.Native.String.count p.status)
      then err (pg_error "22001")
      else do
        price ← price_column (floats.numeric p.price)
        if has_category p.category_id s.categories
            then ok (record p { price = price })
            else err (pg_error "23503")

unfoldable pub has_product : ℤ → List Product → Bool
has_product id rows = elim (find_product id rows) [ none ↦ false | some p ↦ true ]

-- INSERT INTO products(...) ... RETURNING ...
unfoldable pub insert_row : Result Product → Store → Result Product × Store
insert_row (err e) s = (err e, s)
insert_row (ok p) s =
    if has_product p.id s.products
    then (err (pg_error "23505"), s)
    else (ok p, record s { products = p ∷ s.products })

unfoldable pub replace_product : Product → List Product → List Product
replace_product p [] = []
replace_product p (q ∷ rest) =
    (if q.id ==ℤ p.id then record p { created_at = q.created_at } else q) ∷ replace_product p rest

-- UPDATE products SET ... WHERE id = $6: how many rows are affected? The constraints hold for the
-- rows that are written.
unfoldable pub update_row : Result Product → ℤ → Store → Result Bool × Store
update_row r id s =
    let found = has_product id s.products in
    if not found then (ok found, s) else elim r [
      | err e ↦ (err e, s)
      | ok p ↦ (ok found, record s { products = replace_product p s.products })
    ]

unfoldable pub delete_product : ℤ → List Product → List Product
delete_product id [] = []
delete_product id (q ∷ rest) =
    let less = delete_product id rest in if q.id ==ℤ id then less else q ∷ less

-- One row against the conditions of `FindAll`. `ilike` is the operator ILIKE of PostgreSQL: a text, and a
-- pattern.
unfoldable pub selects : (String → String → Bool) → Option ℤ → String → Product → Bool
selects ilike category_id search p =
    in_category category_id p.category_id
    && ((search == "")
        || ilike p.name ("%" <> search <> "%")
        || ilike p.description ("%" <> search <> "%"))
  where
    same : ℤ → Option ℤ → Bool
    same id none = false
    same id (some other) = other ==ℤ id

    in_category : Option ℤ → Option ℤ → Bool
    in_category none category = true
    in_category (some id) category = same id category

unfoldable pub filter_products : (Product → Bool) → List Product → List Product
filter_products test [] = []
filter_products test (p ∷ rest) =
    let more = filter_products test rest in if test p then p ∷ more else more

-- SELECT ... FROM products WHERE ... ORDER BY id DESC
unfoldable pub select_products :
    (String → String → Bool) → Option ℤ → String → List Product → List Product
select_products ilike category_id search rows =
    order_by (λ p q. ltb_ℤ q.id p.id) (filter_products (selects ilike category_id search) rows)
