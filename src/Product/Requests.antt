-- ===== src/Product/Requests.antt =====
-- What the requests to the product service leave of its tables.
use cartnova_go_microservice.Prelude.{
  ℤ, String, Bool, Option, none, some, List, [], ◌∷◌, ◌==◌, trim_space,
}
use cartnova_go_microservice.Go.{Result, ok, err, Floats}
use cartnova_go_microservice.Http.{Response}
use cartnova_go_microservice.Reply.{Keeps-error_with_text}
use cartnova_go_microservice.Auth
use cartnova_go_microservice.Auth.{Jwt, Request, Identity, Passage, denied, served, require_role}
use cartnova_go_microservice.World.{World, Run, attempt, now}
use cartnova_go_microservice.World.Keeps.{
  Keeps-test, Keeps-attempt, Keeps-bind, Keeps-return, Keeps-now, keep_rules,
}
use cartnova_go_microservice.Product.Model.{
  Product, CreateProductRequest, UpdateProductRequest, Category, CategoryRequest, Store,
}
use cartnova_go_microservice.Product.Handler.{
  created, loaded, listed, updated_reply, deleted, handle_create, change, change_id, handle_update,
  load_id, handle_get_by_id, delete_id, handle_delete, list, list_category, handle_get_all,
}
use cartnova_go_microservice.Product.CategoryHandler.{
  category_created, handle_create_category, categories_listed, handle_get_all_categories,
  category_loaded, load_category, handle_get_category, category_deleted, delete_category_id,
  handle_delete_category, category_updated, change_category, change_category_id,
  handle_update_category,
}
use cartnova_go_microservice.Product.Routes.{
  ProductRequest, post_product, list_products, get_product, put_product, delete_product,
  post_category, list_categories, get_category, put_category, delete_category, Reply, behind,
  replied, for_admin, serve, serve_all,
}
use cartnova_go_microservice.Product.Categories.{create_category, update_category}
use cartnova_go_microservice.Product.Catalogue.{Catalogue}
use cartnova_go_microservice.Product.Operations.{
  K, Keeps-get_by_id, Keeps-create_product, Keeps-update_product, Keeps-delete_by_id, Keeps-get_all,
  Keeps-create_category, Keeps-find_all_categories, Keeps-find_category_by_id,
  Keeps-update_category, Keeps-delete_category,
}

Keeps-created : (r : Result Product) → K (created r)
unfolding created
Keeps-created (ok p) = search keep_rules
Keeps-created (err e) = search (keep_rules, Keeps-error_with_text)

Keeps-loaded : (r : Result Product) → K (loaded r)
unfolding loaded
Keeps-loaded (ok p) = search keep_rules
Keeps-loaded (err e) = search (keep_rules, Keeps-error_with_text)

Keeps-listed : (r : Result (List Product)) → K (listed r)
unfolding listed
Keeps-listed (ok products) = search keep_rules
Keeps-listed (err e) = search keep_rules

Keeps-updated_reply : (r : Result Product) → K (updated_reply r)
unfolding updated_reply
Keeps-updated_reply (ok p) = search keep_rules
Keeps-updated_reply (err e) = search (keep_rules, Keeps-error_with_text)

Keeps-deleted : (r : Result (Unit {0})) → K (deleted r)
unfolding deleted
Keeps-deleted (ok u) = search keep_rules
Keeps-deleted (err e) = search (keep_rules, Keeps-error_with_text)

Keeps-category_created : (r : Result Category) → K (category_created r)
unfolding category_created
Keeps-category_created (ok c) = search keep_rules
Keeps-category_created (err e) = search (keep_rules, Keeps-error_with_text)

Keeps-categories_listed : (r : Result (List Category)) → K (categories_listed r)
unfolding categories_listed
Keeps-categories_listed (ok categories) = search keep_rules
Keeps-categories_listed (err e) = search keep_rules

Keeps-category_loaded : (r : Result Category) → K (category_loaded r)
unfolding category_loaded
Keeps-category_loaded (ok c) = search keep_rules
Keeps-category_loaded (err e) = search (keep_rules, Keeps-error_with_text)

Keeps-category_deleted : (r : Result (Unit {0})) → K (category_deleted r)
unfolding category_deleted
Keeps-category_deleted (ok u) = search keep_rules
Keeps-category_deleted (err e) = search (keep_rules, Keeps-error_with_text)

Keeps-category_updated : (r : Result Category) → K (category_updated r)
unfolding category_updated
Keeps-category_updated (ok c) = search keep_rules
Keeps-category_updated (err e) = search (keep_rules, Keeps-error_with_text)

module _ (has_redis : Bool) (floats : Floats) (to_upper : String → String) where
  Keeps-handle_create :
      (body : Result CreateProductRequest) → K (handle_create has_redis floats to_upper body)
  unfolding handle_create
  Keeps-handle_create (ok request) = search (keep_rules, Keeps-create_product, Keeps-created)
  Keeps-handle_create (err e) = search keep_rules

  Keeps-change :
      (id : ℤ) (body : Result UpdateProductRequest) → K (change has_redis floats to_upper id body)
  unfolding change
  Keeps-change id (ok request) = search (keep_rules, Keeps-update_product, Keeps-updated_reply)
  Keeps-change id (err e) = search keep_rules

  Keeps-change_id :
      (id : Option ℤ) (body : Result UpdateProductRequest)
      → K (change_id has_redis floats to_upper id body)
  unfolding change_id
  Keeps-change_id none body = search keep_rules
  Keeps-change_id (some id) body = Keeps-change id body

module _ (has_redis : Bool) where
  Keeps-load_id : (id : Option ℤ) → K (load_id has_redis id)
  unfolding load_id
  Keeps-load_id none = search keep_rules
  Keeps-load_id (some id) = search (keep_rules, Keeps-get_by_id, Keeps-loaded)

  Keeps-delete_id : (id : Option ℤ) → K (delete_id has_redis id)
  unfolding delete_id
  Keeps-delete_id none = search keep_rules
  Keeps-delete_id (some id) = search (keep_rules, Keeps-delete_by_id, Keeps-deleted)

  module _ (ilike : String → String → Bool) where
    Keeps-list :
        (category_id : Option ℤ) (text : String) → K (list has_redis ilike category_id text)
    unfolding list
    Keeps-list category_id text = search (keep_rules, Keeps-get_all, Keeps-listed)

    Keeps-list_category :
        (category_id : Option ℤ) (text : String)
        → K (list_category has_redis ilike category_id text)
    unfolding list_category
    Keeps-list_category none text = search keep_rules
    Keeps-list_category (some id) text = Keeps-list (some id) text

Keeps-handle_create_category : (body : Result CategoryRequest) → K (handle_create_category body)
unfolding handle_create_category
Keeps-handle_create_category (ok request) =
    Keeps-test (trim_space request.name == "") _ _ (λ _. Keeps-return _)
      λ titled.
        Keeps-bind (attempt (create_category (trim_space request.name))) _
          (Keeps-attempt _ (Keeps-create_category (trim_space request.name) titled))
          Keeps-category_created
Keeps-handle_create_category (err e) = search keep_rules

Keeps-load_category : (id : Option ℤ) → K (load_category id)
unfolding load_category
Keeps-load_category none = search keep_rules
Keeps-load_category (some id) =
    search (keep_rules, Keeps-find_category_by_id, Keeps-category_loaded)

Keeps-delete_category_id : (id : Option ℤ) → K (delete_category_id id)
unfolding delete_category_id
Keeps-delete_category_id none = search keep_rules
Keeps-delete_category_id (some id) =
    search (keep_rules, Keeps-delete_category, Keeps-category_deleted)

Keeps-change_category : (id : ℤ) (body : Result CategoryRequest) → K (change_category id body)
unfolding change_category
Keeps-change_category id (ok request) =
    Keeps-test (trim_space request.name == "") _ _ (λ _. Keeps-return _)
      λ titled.
        Keeps-bind (attempt (update_category id (trim_space request.name))) _
          (Keeps-attempt _ (Keeps-update_category id (trim_space request.name) titled))
          Keeps-category_updated
Keeps-change_category id (err e) = search keep_rules

Keeps-change_category_id :
    (id : Option ℤ) (body : Result CategoryRequest) → K (change_category_id id body)
unfolding change_category_id
Keeps-change_category_id none body = search keep_rules
Keeps-change_category_id (some id) body = Keeps-change_category id body

Keeps-behind : (p : Passage Identity) (next : Run Store Reply) → K next → K (behind p next)
unfolding behind
Keeps-behind (denied status) next k = search keep_rules
Keeps-behind (served identity) next k = k

Keeps-replied :
    {A : Type 0} (reply : Response A → Reply) (next : Run Store (Response A))
    → K next
    → K (replied reply next)
unfolding replied
Keeps-replied reply next k = Keeps-bind next _ k λ response. Keeps-return (reply response)

module _ (jwt : Jwt) (service : Auth.Service) where
  Keeps-for_admin :
      (request : Request) (next : Run Store Reply) → K next → K (for_admin jwt service request next)
  unfolding for_admin
  Keeps-for_admin request next k =
      Keeps-bind now _ Keeps-now
        λ time. Keeps-behind (require_role jwt service "ADMIN" time request) next k

  module _ (has_redis : Bool) (floats : Floats) (to_upper : String → String)
      (ilike collates : String → String → Bool) where
    ruleset serve_rules = (
      keep_rules, Keeps-for_admin, Keeps-replied, Keeps-handle_create, Keeps-list,
      Keeps-list_category, Keeps-load_id, Keeps-change_id, Keeps-delete_id,
      Keeps-handle_create_category, Keeps-find_all_categories, Keeps-categories_listed,
      Keeps-load_category, Keeps-change_category_id, Keeps-delete_category_id,
    )

    Keeps-serve :
        (request : ProductRequest)
        → K (serve jwt service has_redis floats to_upper ilike collates request)
    unfolding serve handle_update handle_get_by_id handle_delete handle_get_all
        handle_get_all_categories handle_get_category handle_delete_category handle_update_category
    Keeps-serve (post_product request body) = search serve_rules
    Keeps-serve (list_products category_id text) = search serve_rules
    Keeps-serve (get_product id) = search serve_rules
    Keeps-serve (put_product request id body) = search serve_rules
    Keeps-serve (delete_product request id) = search serve_rules
    Keeps-serve (post_category request body) = search serve_rules
    Keeps-serve list_categories = search serve_rules
    Keeps-serve (get_category id) = search serve_rules
    Keeps-serve (put_category request id body) = search serve_rules
    Keeps-serve (delete_category request id) = search serve_rules

    Keeps-serve_all :
        (requests : List ProductRequest)
        → K (serve_all jwt service has_redis floats to_upper ilike collates requests)
    unfolding serve_all
    Keeps-serve_all [] = search keep_rules
    Keeps-serve_all (request ∷ rest) =
        Keeps-bind (serve jwt service has_redis floats to_upper ilike collates request) _
          (Keeps-serve request)
          λ reply.
            Keeps-bind (serve_all jwt service has_redis floats to_upper ilike collates rest) _
              (Keeps-serve_all rest) (search keep_rules)

-- Whatever requests the product service answers and whatever calls fail, every product and every
-- category has a name that is not empty, no two products share an id, no two categories share an id
-- or a name, and the category of every product exists.
serve_all-Catalogue :
    (jwt : Jwt) (service : Auth.Service) (has_redis : Bool) (floats : Floats)
    (to_upper : String → String) (ilike collates : String → String → Bool)
    (requests : List ProductRequest) (w : World Store)
    → Catalogue w.state
    → Catalogue (serve_all jwt service has_redis floats to_upper ilike collates requests w).1.state
serve_all-Catalogue jwt service has_redis floats to_upper ilike collates requests w h =
    (Keeps-serve_all jwt service has_redis floats to_upper ilike collates requests).at w h
