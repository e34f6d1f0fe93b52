-- ===== src/Product/Operations.antt =====
-- What the operations of the product service leave of its tables.
use cartnova_go_microservice.Prelude.{
  ℤ, String, ◌≡◌, Bool, false, Option, none, some, ◌==◌, trim_space,
}
use cartnova_go_microservice.Go.{Result, ok, err, Floats}
use cartnova_go_microservice.World.{Run, attempt}
use cartnova_go_microservice.World.Keeps.{
  Keeps, Keeps-test, Keeps-if, Keeps-fail, Keeps-return, Keeps-attempt, Keeps-bind, Keeps-perform,
  keep_rules,
}
use cartnova_go_microservice.Product.Model.{
  Product, CreateProductRequest, UpdateProductRequest, Category, Entry, Store,
}
use cartnova_go_microservice.Product.Repository
use cartnova_go_microservice.Product.Repository.{
  affected, update, found_or, find_by_id, find_all, delete,
}
use cartnova_go_microservice.Product.Service.{
  put_entry, cache_set, cache_get, cache_delete, ignore, remember, invalidate_cache, load,
  hit_or_load, get_by_id, create_product, updated, update_product, get_all, delete_by_id,
}
use cartnova_go_microservice.Product.Categories.{
  create_category, find_all_categories, category_or, find_category_by_id, update_category,
  category_affected, delete_category,
}
use cartnova_go_microservice.Product.Catalogue.{Catalogue}
use cartnova_go_microservice.Product.Statements.{
  insert_row-Catalogue, update_row-Catalogue, insert_category-Catalogue,
  update_category_row-Catalogue, delete_category_row-Catalogue, delete_product-Catalogue,
}

abbrev pub K : {A : Type 0} → Run Store A → Type 0
K m = Keeps Catalogue m

put_entry-Catalogue :
    (id : ℤ) (entry : Option Entry) (s : Store) → Catalogue s → Catalogue (put_entry id entry s)
unfolding put_entry
put_entry-Catalogue id entry s h = record {
  products = h.products;
  categories = h.categories;
  filed = h.filed;
  named = h.named;
  titled = h.titled;
}

-- The repository and the cache.
Keeps-affected : (found : Bool) → K (affected found)
unfolding affected
Keeps-affected found = search keep_rules

Keeps-create :
    (floats : Floats) (p : Product) → (p.name == "") ≡ false → K (Repository.create floats p)
unfolding Repository.create
Keeps-create floats p named = search (keep_rules, Keeps-perform, insert_row-Catalogue)

Keeps-update :
    (floats : Floats) (id : ℤ) (p : Product) → (p.name == "") ≡ false → K (update floats id p)
unfolding update
Keeps-update floats id p named =
    search (keep_rules, Keeps-perform, Keeps-affected, update_row-Catalogue)

Keeps-found_or : (o : Option Product) → K (found_or o)
unfolding found_or
Keeps-found_or none = search keep_rules
Keeps-found_or (some p) = search keep_rules

Keeps-find_by_id : (id : ℤ) → K (find_by_id id)
unfolding find_by_id
Keeps-find_by_id id = search (keep_rules, Keeps-found_or)

Keeps-delete : (id : ℤ) → K (delete id)
unfolding delete
Keeps-delete id = search (keep_rules, Keeps-perform, Keeps-affected, delete_product-Catalogue)

Keeps-ignore : (m : Run Store (Unit {0})) → K m → K (ignore m)
unfolding ignore
Keeps-ignore m k = Keeps-bind (attempt m) _ (Keeps-attempt m k) λ r. Keeps-return tt

Keeps-remember : (has_redis : Bool) (id : ℤ) (p : Product) → K (remember has_redis id p)
unfolding remember cache_set
Keeps-remember has_redis id p =
    search (keep_rules, Keeps-ignore, Keeps-perform, put_entry-Catalogue)

Keeps-invalidate_cache : (has_redis : Bool) (id : ℤ) → K (invalidate_cache has_redis id)
unfolding invalidate_cache cache_delete
Keeps-invalidate_cache has_redis id =
    search (keep_rules, Keeps-ignore, Keeps-perform, put_entry-Catalogue)

Keeps-load : (has_redis : Bool) (id : ℤ) → K (load has_redis id)
unfolding load
Keeps-load has_redis id = search (keep_rules, Keeps-find_by_id, Keeps-remember)

Keeps-hit_or_load :
    (has_redis : Bool) (id : ℤ) (r : Result (Option Product)) → K (hit_or_load has_redis id r)
unfolding hit_or_load
Keeps-hit_or_load has_redis id (err e) = Keeps-load has_redis id
Keeps-hit_or_load has_redis id (ok none) = Keeps-load has_redis id
Keeps-hit_or_load has_redis id (ok (some p)) = search keep_rules

pub Keeps-get_by_id : (has_redis : Bool) (id : ℤ) → K (get_by_id has_redis id)
unfolding get_by_id cache_get
Keeps-get_by_id has_redis id = search (keep_rules, Keeps-hit_or_load, Keeps-load)

module _ (has_redis : Bool) where
  pub Keeps-create_product :
      (floats : Floats) (to_upper : String → String) (request : CreateProductRequest)
      → K (create_product has_redis floats to_upper request)
  unfolding create_product
  Keeps-create_product floats to_upper request =
      Keeps-test (trim_space request.name == "") _ _ (λ _. Keeps-fail _)
        λ named.
          Keeps-if (floats.is_negative request.price) _ _ (Keeps-fail _)
            (Keeps-create floats _ named)

  pub Keeps-update_product :
      (floats : Floats) (to_upper : String → String) (id : ℤ) (request : UpdateProductRequest)
      → K (update_product has_redis floats to_upper id request)
  unfolding update_product updated
  Keeps-update_product floats to_upper id request =
      Keeps-test (trim_space request.name == "") _ _ (λ _. Keeps-fail _)
        λ named. Keeps-if (floats.is_negative request.price) _ _ (Keeps-fail _) (
          Keeps-bind (update floats id _) _ (Keeps-update floats id _ named)
            λ u. search (keep_rules, Keeps-invalidate_cache, Keeps-find_by_id))

  pub Keeps-delete_by_id : (id : ℤ) → K (delete_by_id has_redis id)
  unfolding delete_by_id
  Keeps-delete_by_id id = search (keep_rules, Keeps-delete, Keeps-invalidate_cache)

  pub Keeps-get_all :
      (ilike : String → String → Bool) (category_id : Option ℤ) (text : String)
      → K (get_all has_redis ilike category_id text)
  unfolding get_all find_all
  Keeps-get_all ilike category_id text = search keep_rules

-- Categories.
pub Keeps-create_category : (name : String) → (name == "") ≡ false → K (create_category name)
unfolding create_category
Keeps-create_category name titled = search (keep_rules, Keeps-perform, insert_category-Catalogue)

pub Keeps-find_all_categories :
    (collates : String → String → Bool) → K (find_all_categories collates)
unfolding find_all_categories
Keeps-find_all_categories collates = search keep_rules

Keeps-category_or : (o : Option Category) → K (category_or o)
unfolding category_or
Keeps-category_or none = search keep_rules
Keeps-category_or (some c) = search keep_rules

pub Keeps-find_category_by_id : (id : ℤ) → K (find_category_by_id id)
unfolding find_category_by_id
Keeps-find_category_by_id id = search (keep_rules, Keeps-category_or)

pub Keeps-update_category :
    (id : ℤ) (name : String) → (name == "") ≡ false → K (update_category id name)
unfolding update_category
Keeps-update_category id name titled =
    search (keep_rules, Keeps-perform, Keeps-category_or, update_category_row-Catalogue)

Keeps-category_affected : (found : Bool) → K (category_affected found)
unfolding category_affected
Keeps-category_affected found = search keep_rules

pub Keeps-delete_category : (id : ℤ) → K (delete_category id)
unfolding delete_category
Keeps-delete_category id =
    search (keep_rules, Keeps-perform, Keeps-category_affected, delete_category_row-Catalogue)
