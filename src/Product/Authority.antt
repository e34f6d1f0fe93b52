-- ===== src/Product/Authority.antt =====
-- Who changes the products and the categories.
use cartnova_go_microservice.Prelude.{
  ℕ, ℤ, String, ◌≡◌, refl, ◌⊎◌, inl, inr, Bool, Option, none, some, List,
}
use cartnova_go_microservice.Go.{Result, ok, err, Floats}
use cartnova_go_microservice.Http.{Response}
use cartnova_go_microservice.Reply.{Keeps-error_with_text}
use cartnova_go_microservice.Auth
use cartnova_go_microservice.Auth.{Jwt, Request, Identity, Passage, denied, served, require_role}
use cartnova_go_microservice.Auth.Tokens.{Verified, require_role-Verified}
use cartnova_go_microservice.World.{World, Run, attempt, now, return, ◌>>=◌}
use cartnova_go_microservice.World.Keeps.{
  Keeps, Keeps-bind, Keeps-return, Keeps-attempt, Keeps-perform, keep_rules,
}
use cartnova_go_microservice.Product.Model.{Product, Category, Entry, Store}
use cartnova_go_microservice.Product.Repository.{found_or, find_by_id, find_all}
use cartnova_go_microservice.Product.Service.{
  put_entry, cache_set, cache_get, ignore, remember, load, hit_or_load, get_by_id, get_all,
}
use cartnova_go_microservice.Product.Categories.{
  find_all_categories, category_or, find_category_by_id,
}
use cartnova_go_microservice.Product.Handler.{
  loaded, listed, load_id, handle_get_by_id, list, list_category, handle_get_all,
}
use cartnova_go_microservice.Product.CategoryHandler.{
  categories_listed, handle_get_all_categories, category_loaded, load_category, handle_get_category,
}
use cartnova_go_microservice.Product.Routes.{
  ProductRequest, post_product, list_products, get_product, put_product, delete_product,
  post_category, list_categories, get_category, put_category, delete_category, Reply, behind,
  replied, for_admin, serve,
}

-- The rows are as they were; the cache may differ.
abbrev pub SameRows : Store → Store → Type 0
SameRows s t = (t.products ≡ s.products) × (t.categories ≡ s.categories)

module _ (s : Store) where
  abbrev Reads : {A : Type 0} → Run Store A → Type 0
  Reads m = Keeps (SameRows s) m

  put_entry-SameRows :
      (id : ℤ) (entry : Option Entry) (t : Store) → SameRows s t → SameRows s (put_entry id entry t)
  unfolding put_entry
  put_entry-SameRows id entry t h = h

  Reads-ignore : (m : Run Store (Unit {0})) → Reads m → Reads (ignore m)
  unfolding ignore
  Reads-ignore m k = Keeps-bind (attempt m) _ (Keeps-attempt m k) λ r. Keeps-return tt

  Reads-remember : (has_redis : Bool) (id : ℤ) (p : Product) → Reads (remember has_redis id p)
  unfolding remember cache_set
  Reads-remember has_redis id p =
      search (keep_rules, Reads-ignore, Keeps-perform, put_entry-SameRows)

  Reads-found_or : (o : Option Product) → Reads (found_or o)
  unfolding found_or
  Reads-found_or none = search keep_rules
  Reads-found_or (some p) = search keep_rules

  Reads-find_by_id : (id : ℤ) → Reads (find_by_id id)
  unfolding find_by_id
  Reads-find_by_id id = search (keep_rules, Reads-found_or)

  Reads-load : (has_redis : Bool) (id : ℤ) → Reads (load has_redis id)
  unfolding load
  Reads-load has_redis id = search (keep_rules, Reads-find_by_id, Reads-remember)

  Reads-hit_or_load :
      (has_redis : Bool) (id : ℤ) (r : Result (Option Product)) → Reads (hit_or_load has_redis id r)
  unfolding hit_or_load
  Reads-hit_or_load has_redis id (err e) = Reads-load has_redis id
  Reads-hit_or_load has_redis id (ok none) = Reads-load has_redis id
  Reads-hit_or_load has_redis id (ok (some p)) = search keep_rules

  Reads-get_by_id : (has_redis : Bool) (id : ℤ) → Reads (get_by_id has_redis id)
  unfolding get_by_id cache_get
  Reads-get_by_id has_redis id = search (keep_rules, Reads-hit_or_load, Reads-load)

  Reads-loaded : (r : Result Product) → Reads (loaded r)
  unfolding loaded
  Reads-loaded (ok p) = search keep_rules
  Reads-loaded (err e) = search (keep_rules, Keeps-error_with_text)

  Reads-load_id : (has_redis : Bool) (id : Option ℤ) → Reads (load_id has_redis id)
  unfolding load_id
  Reads-load_id has_redis none = search keep_rules
  Reads-load_id has_redis (some id) = search (keep_rules, Reads-get_by_id, Reads-loaded)

  Reads-listed : (r : Result (List Product)) → Reads (listed r)
  unfolding listed
  Reads-listed (ok products) = search keep_rules
  Reads-listed (err e) = search keep_rules

  module _ (has_redis : Bool) (ilike : String → String → Bool) where
    Reads-list :
        (category_id : Option ℤ) (text : String) → Reads (list has_redis ilike category_id text)
    unfolding list get_all find_all
    Reads-list category_id text = search (keep_rules, Reads-listed)

    Reads-list_category :
        (category_id : Option ℤ) (text : String)
        → Reads (list_category has_redis ilike category_id text)
    unfolding list_category
    Reads-list_category none text = search keep_rules
    Reads-list_category (some id) text = Reads-list (some id) text

  Reads-categories_listed : (r : Result (List Category)) → Reads (categories_listed r)
  unfolding categories_listed
  Reads-categories_listed (ok categories) = search keep_rules
  Reads-categories_listed (err e) = search keep_rules

  Reads-category_or : (o : Option Category) → Reads (category_or o)
  unfolding category_or
  Reads-category_or none = search keep_rules
  Reads-category_or (some c) = search keep_rules

  Reads-category_loaded : (r : Result Category) → Reads (category_loaded r)
  unfolding category_loaded
  Reads-category_loaded (ok c) = search keep_rules
  Reads-category_loaded (err e) = search (keep_rules, Keeps-error_with_text)

  Reads-load_category : (id : Option ℤ) → Reads (load_category id)
  unfolding load_category find_category_by_id
  Reads-load_category none = search keep_rules
  Reads-load_category (some id) = search (keep_rules, Reads-category_or, Reads-category_loaded)

  Reads-replied :
      {A : Type 0} (reply : Response A → Reply) (next : Run Store (Response A))
      → Reads next
      → Reads (replied reply next)
  unfolding replied
  Reads-replied reply next k = Keeps-bind next _ k λ response. Keeps-return (reply response)

-- What the middleware of a route reads, for the routes that have one.
abbrev pub credentials : ProductRequest → Option Request
credentials (post_product request body) = some request
credentials (put_product request id body) = some request
credentials (delete_product request id) = some request
credentials (post_category request body) = some request
credentials (put_category request id body) = some request
credentials (delete_category request id) = some request
credentials (list_products category_id text) = none
credentials (get_product id) = none
credentials list_categories = none
credentials (get_category id) = none

module _ (jwt : Jwt) (service : Auth.Service) where
  -- The request carries a verified token of an administrator.
  pub record ByAdmin (time : ℕ) (asked : Option Request) : Type 0 where
    pub request : Request
    pub identity : Identity
    pub sent : asked ≡ some request
    pub verified : Verified jwt service time request identity
    pub admin : identity.claims.role ≡ "ADMIN"

  for_admin-ByAdmin :
      (request : Request) (next : Run Store Reply) (w : World Store)
      → SameRows w.state (for_admin jwt service request next w).1.state
        ⊎ ByAdmin (w.outside.clock w.readings) (some request)
  unfolding for_admin now behind return ◌>>=◌
  for_admin-ByAdmin request next w =
      allowed (require_role jwt service "ADMIN" (w.outside.clock w.readings) request) refl
    where
      allowed :
          (p : Passage Identity)
          → require_role jwt service "ADMIN" (w.outside.clock w.readings) request ≡ p
          → SameRows w.state (behind p next (now w).1).1.state
            ⊎ ByAdmin (w.outside.clock w.readings) (some request)
      allowed (denied status) e = inl (refl, refl)
      allowed (served identity) e =
          let (verified, admin) =
            require_role-Verified jwt service "ADMIN" (w.outside.clock w.readings) request identity
              e in
          inr (record {
            request = request;
            identity = identity;
            sent = refl;
            verified = verified;
            admin = admin;
          })

  -- A request to the product service leaves the products and the categories as they are, whatever calls
  -- fail, unless it carries a token of an administrator that is verified when the request comes.
  pub serve-ByAdmin :
      (has_redis : Bool) (floats : Floats) (to_upper : String → String)
      (ilike collates : String → String → Bool) (request : ProductRequest) (w : World Store)
      → SameRows w.state
          (serve jwt service has_redis floats to_upper ilike collates request w).1.state
        ⊎ ByAdmin (w.outside.clock w.readings) (credentials request)
  unfolding serve handle_get_by_id handle_get_all handle_get_all_categories handle_get_category
      find_all_categories
  serve-ByAdmin has_redis floats to_upper ilike collates (post_product request body) w =
      for_admin-ByAdmin request _ w
  serve-ByAdmin has_redis floats to_upper ilike collates (put_product request id body) w =
      for_admin-ByAdmin request _ w
  serve-ByAdmin has_redis floats to_upper ilike collates (delete_product request id) w =
      for_admin-ByAdmin request _ w
  serve-ByAdmin has_redis floats to_upper ilike collates (post_category request body) w =
      for_admin-ByAdmin request _ w
  serve-ByAdmin has_redis floats to_upper ilike collates (put_category request id body) w =
      for_admin-ByAdmin request _ w
  serve-ByAdmin has_redis floats to_upper ilike collates (delete_category request id) w =
      for_admin-ByAdmin request _ w
  serve-ByAdmin has_redis floats to_upper ilike collates (list_products category_id text) w =
      let reads : Keeps (SameRows w.state) (
          serve jwt service has_redis floats to_upper ilike collates
            (list_products category_id text)) =
        search (keep_rules, Reads-replied, Reads-list, Reads-list_category) in
      inl (reads.at w (refl, refl))
  serve-ByAdmin has_redis floats to_upper ilike collates (get_product id) w =
      let reads : Keeps (SameRows w.state)
          (serve jwt service has_redis floats to_upper ilike collates (get_product id)) =
        search (keep_rules, Reads-replied, Reads-load_id) in
      inl (reads.at w (refl, refl))
  serve-ByAdmin has_redis floats to_upper ilike collates list_categories w =
      let reads : Keeps (SameRows w.state)
          (serve jwt service has_redis floats to_upper ilike collates list_categories) =
        search (keep_rules, Reads-replied, Reads-categories_listed) in
      inl (reads.at w (refl, refl))
  serve-ByAdmin has_redis floats to_upper ilike collates (get_category id) w =
      let reads : Keeps (SameRows w.state)
          (serve jwt service has_redis floats to_upper ilike collates (get_category id)) =
        search (keep_rules, Reads-replied, Reads-load_category) in
      inl (reads.at w (refl, refl))
