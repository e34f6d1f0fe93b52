-- ===== src/Product/Repository.antt =====
-- internal/product/repository.go
use cartnova_go_microservice.Prelude.{
  ℤ, String, List, trim_space, Bool, Option, none, some, if◌then◌else◌,
}
use cartnova_go_microservice.Go.{GoError, sentinel, ok, Floats}
use cartnova_go_microservice.World.{
  Run, return, fail, perform, query, next_serial, now, ◌>>=◌, ◌>>◌,
}
use cartnova_go_microservice.Product.Model.{Product, Store, find_product}
use cartnova_go_microservice.Product.Tables.{
  select_products, stored_row, has_product, insert_row, update_row, delete_product,
}

abbrev pub err_not_found : GoError
err_not_found = sentinel "product not found"

unfoldable pub affected : Bool → Run Store (Unit {0})
affected found = if found then return tt else fail err_not_found

module _ (floats : Floats) where
  -- The product with the columns that the database fills in; the price stays that of the request.
  unfoldable pub create : Product → Run Store Product
  create p = do
    id ← next_serial
    time ← now
    let row : Product = record p {
      id = id;
      status = "ACTIVE";
      created_at = time;
      updated_at = time;
    }
    perform λ s. insert_row (stored_row floats row s) s
    return row

  unfoldable pub update : ℤ → Product → Run Store (Unit {0})
  update id p = do
    time ← now
    found ←
        perform λ s. update_row (stored_row floats (record p { id = id; updated_at = time }) s) id s
    affected found

unfoldable pub found_or : Option Product → Run Store Product
found_or none = fail err_not_found
found_or (some p) = return p

unfoldable pub find_by_id : ℤ → Run Store Product
find_by_id id = do row ← query λ s. ok (find_product id s.products); found_or row

-- `search` is not yet trimmed.
unfoldable pub find_all : (String → String → Bool) → Option ℤ → String → Run Store (List Product)
find_all ilike category_id search =
    query λ s. ok (select_products ilike category_id (trim_space search) s.products)

unfoldable pub delete : ℤ → Run Store (Unit {0})
delete id = do
  found ←
      perform
        λ s. (ok (has_product id s.products), record s { products = delete_product id s.products })
  affected found
