-- ===== src/Product/Categories.antt =====
-- internal/product/category.go. `collates` is the order of texts of the database: does the first stand
-- before the second?
use Prim.Native.String
use cartnova_go_microservice.Prelude.{
  ℤ, String, Bool, false, not, ◌||◌, ◌&&◌, Option, none, some, List, [], ◌∷◌, ◌==◌, ◌==ℤ◌, ltb,
  if◌then◌else◌,
}
use cartnova_go_microservice.Go.{GoError, sentinel, pg_error, Result, ok, err}
use cartnova_go_microservice.Reply.{order_by}
use cartnova_go_microservice.World.{
  Run, return, fail, perform, query, next_serial, now, ◌>>=◌, ◌>>◌,
}
use cartnova_go_microservice.Product.Model.{Product, Category, Store, is_category}

abbrev pub err_category_not_found : GoError
err_category_not_found = sentinel "category not found"

-- PRIMARY KEY, and UNIQUE of the column `name`, against the rows of other ids
unfoldable pub name_taken : ℤ → String → List Category → Bool
name_taken id name [] = false
name_taken id name (c ∷ rest) = (not (c.id ==ℤ id) && (c.name == name)) || name_taken id name rest

-- INSERT INTO categories(name) VALUES($1) RETURNING ...
unfoldable pub insert_category : Category → Store → Result (Unit {0}) × Store
insert_category c s =
    if ltb 120 (Prim.Native.String.count c.name)
    then (err (pg_error "22001"), s)
    else if is_category c.id s.categories || name_taken c.id c.name s.categories
    then (err (pg_error "23505"), s)
    else (ok tt, record s { categories = c ∷ s.categories })

unfoldable pub create_category : String → Run Store Category
create_category name = do
  id ← next_serial
  time ← now
  let row : Category = record { id = id; name = name; created_at = time }
  perform (insert_category row)
  return row

-- SELECT ... FROM categories ORDER BY name
unfoldable pub find_all_categories : (String → String → Bool) → Run Store (List Category)
find_all_categories collates = query λ s. ok (order_by (λ c d. collates c.name d.name) s.categories)

unfoldable pub find_category : ℤ → List Category → Option Category
find_category id [] = none
find_category id (c ∷ rest) = if c.id ==ℤ id then some c else find_category id rest

unfoldable pub category_or : Option Category → Run Store Category
category_or none = fail err_category_not_found
category_or (some c) = return c

unfoldable pub find_category_by_id : ℤ → Run Store Category
find_category_by_id id = do row ← query λ s. ok (find_category id s.categories); category_or row

unfoldable pub rename_category : ℤ → String → List Category → List Category
rename_category id name [] = []
rename_category id name (c ∷ rest) =
    (if c.id ==ℤ id then record c { name = name } else c) ∷ rename_category id name rest

-- UPDATE categories SET name = $1 WHERE id = $2 RETURNING ...
unfoldable pub update_category_row : ℤ → String → Store → Result (Option Category) × Store
update_category_row id name s =
    if not (is_category id s.categories)
    then (ok none, s)
    else if ltb 120 (Prim.Native.String.count name)
    then (err (pg_error "22001"), s)
    else if name_taken id name s.categories
    then (err (pg_error "23505"), s)
    else (
      ok (find_category id (rename_category id name s.categories)),
      record s { categories = rename_category id name s.categories },
    )

unfoldable pub update_category : ℤ → String → Run Store Category
update_category id name = do row ← perform (update_category_row id name); category_or row

unfoldable pub remove_category : ℤ → List Category → List Category
remove_category id [] = []
remove_category id (c ∷ rest) =
    let less = remove_category id rest in if c.id ==ℤ id then less else c ∷ less

-- ON DELETE SET NULL
unfoldable pub without : ℤ → Option ℤ → Option ℤ
without id none = none
without id (some other) = if other ==ℤ id then none else some other

unfoldable pub clear_category : ℤ → List Product → List Product
clear_category id [] = []
clear_category id (p ∷ rest) =
    record p { category_id = without id p.category_id } ∷ clear_category id rest

-- DELETE FROM categories WHERE id = $1
unfoldable pub delete_category_row : ℤ → Store → Result Bool × Store
delete_category_row id s = (
  ok (is_category id s.categories),
  record s {
    categories = remove_category id s.categories;
    products = clear_category id s.products;
  },
)

unfoldable pub category_affected : Bool → Run Store (Unit {0})
category_affected found = if found then return tt else fail err_category_not_found

unfoldable pub delete_category : ℤ → Run Store (Unit {0})
delete_category id = do found ← perform (delete_category_row id); category_affected found
