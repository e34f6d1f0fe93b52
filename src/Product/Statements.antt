-- ===== src/Product/Statements.antt =====
-- What every statement of the product service keeps of its tables.
use cartnova_go_microservice.Prelude.{ℤ, String, ◌≡◌, refl, false, List, [], ◌∷◌, ◌==◌, arith}
use cartnova_go_microservice.Go.{Result, ok, err, Floats}
use cartnova_go_microservice.Product.Model.{Product, Category, Store}
use cartnova_go_microservice.Product.Tables.{
  stored_row, insert_row, update_row, replace_product, delete_product,
}
use cartnova_go_microservice.Product.Categories.{
  rename_category, remove_category, clear_category, insert_category, update_category_row,
  delete_category_row,
}
use cartnova_go_microservice.Product.Catalogue.{
  AllNamed, AllTitled, Catalogue, stored_row-filed, AreProducts-replace, AreProducts-delete,
  AreProducts-clear, AreCategories-rename, AreCategories-remove, AllFiled-clear, AllFiled-rename,
  AllFiled-cons, AllFiled-replace, AllFiled-delete,
}

stored_row-name :
    (floats : Floats) (p q : Product) (s : Store) → stored_row floats p s ≡ ok q → q.name ≡ p.name
unfolding stored_row
stored_row-name floats p q s e = ground arith

AllNamed-replace :
    (p : Product) (rows : List Product)
    → (p.name == "") ≡ false
    → AllNamed rows
    → AllNamed (replace_product p rows)
unfolding replace_product
AllNamed-replace p [] n h = tt
AllNamed-replace p (q ∷ rest) n h = let ih = AllNamed-replace p rest n h.1 in ground arith

AllNamed-delete : (id : ℤ) (rows : List Product) → AllNamed rows → AllNamed (delete_product id rows)
unfolding delete_product
AllNamed-delete id [] h = tt
AllNamed-delete id (q ∷ rest) h = let ih = AllNamed-delete id rest h.1 in ground arith

AllNamed-clear : (id : ℤ) (rows : List Product) → AllNamed rows → AllNamed (clear_category id rows)
unfolding clear_category
AllNamed-clear id [] h = tt
AllNamed-clear id (q ∷ rest) h = (h.0, AllNamed-clear id rest h.1)

AllTitled-rename :
    (id : ℤ) (name : String) (rows : List Category)
    → (name == "") ≡ false
    → AllTitled rows
    → AllTitled (rename_category id name rows)
unfolding rename_category
AllTitled-rename id name [] n h = tt
AllTitled-rename id name (c ∷ rest) n h =
    let ih = AllTitled-rename id name rest n h.1 in ground arith

AllTitled-remove :
    (id : ℤ) (rows : List Category) → AllTitled rows → AllTitled (remove_category id rows)
unfolding remove_category
AllTitled-remove id [] h = tt
AllTitled-remove id (c ∷ rest) h = let ih = AllTitled-remove id rest h.1 in ground arith

pub insert_row-Catalogue :
    (floats : Floats) (p : Product) (s : Store)
    → (p.name == "") ≡ false
    → Catalogue s
    → Catalogue (insert_row (stored_row floats p s) s).1
unfolding insert_row
insert_row-Catalogue floats p s n h = inserted (stored_row floats p s) refl
  where
    inserted : (r : Result Product) → stored_row floats p s ≡ r → Catalogue (insert_row r s).1
    inserted (ok q) e =
        let f = stored_row-filed floats p q s e in
        let m : (q.name == "") ≡ false = rw (stored_row-name floats p q s e) n in ground arith
    inserted (err e) k = h

pub update_row-Catalogue :
    (floats : Floats) (p : Product) (id : ℤ) (s : Store)
    → (p.name == "") ≡ false
    → Catalogue s
    → Catalogue (update_row (stored_row floats p s) id s).1
unfolding update_row
update_row-Catalogue floats p id s n h = changed (stored_row floats p s) refl
  where
    changed : (r : Result Product) → stored_row floats p s ≡ r → Catalogue (update_row r id s).1
    changed (ok q) e =
        let f = stored_row-filed floats p q s e in
        let m : (q.name == "") ≡ false = rw (stored_row-name floats p q s e) n in
        let a = AreProducts-replace q s.products h.products in
        let b = AllFiled-replace s.categories q s.products f.1 h.filed in
        let c = AllNamed-replace q s.products m h.named in ground arith
    changed (err e) k = ground arith

pub insert_category-Catalogue :
    (c : Category) (s : Store)
    → (c.name == "") ≡ false
    → Catalogue s
    → Catalogue (insert_category c s).1
unfolding insert_category
insert_category-Catalogue c s n h =
    let f = AllFiled-cons c s.categories s.products h.filed in ground arith

pub update_category_row-Catalogue :
    (id : ℤ) (name : String) (s : Store)
    → (name == "") ≡ false
    → Catalogue s
    → Catalogue (update_category_row id name s).1
unfolding update_category_row
update_category_row-Catalogue id name s n h =
    let f = AllFiled-rename id name s.categories s.products h.filed in
    let c = AreCategories-rename id name s.categories in
    let t = AllTitled-rename id name s.categories n h.titled in ground arith

pub delete_category_row-Catalogue :
    (id : ℤ) (s : Store) → Catalogue s → Catalogue (delete_category_row id s).1
unfolding delete_category_row
delete_category_row-Catalogue id s h = record {
  products = AreProducts-clear id s.products h.products;
  categories = AreCategories-remove id s.categories h.categories;
  filed = AllFiled-clear id s.categories s.products h.filed;
  named = AllNamed-clear id s.products h.named;
  titled = AllTitled-remove id s.categories h.titled;
}

pub delete_product-Catalogue :
    (id : ℤ) (s : Store)
    → Catalogue s
    → Catalogue (record s { products = delete_product id s.products })
delete_product-Catalogue id s h = record {
  products = AreProducts-delete id s.products h.products;
  categories = h.categories;
  filed = AllFiled-delete s.categories id s.products h.filed;
  named = AllNamed-delete id s.products h.named;
  titled = h.titled;
}
