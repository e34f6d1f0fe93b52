-- ===== src/Product/Routes.antt =====
-- The routes of cmd/product-service/main.go, as a list of requests that the service answers in turn.
-- The main passes two handlers as values of type func to `mux.Handle`, which does not compile; they are
-- taken for `http.HandlerFunc`s.
use cartnova_go_microservice.Prelude.{ℕ, String, Bool, List, [], ◌∷◌}
use cartnova_go_microservice.Go.{Result, Floats}
use cartnova_go_microservice.Http.{Response}
use cartnova_go_microservice.Auth
use cartnova_go_microservice.Auth.{Jwt, Request, Identity, Passage, denied, served, require_role}
use cartnova_go_microservice.World.{Run, return, now, ◌>>=◌}
use cartnova_go_microservice.Product.Model.{
  Product, CreateProductRequest, UpdateProductRequest, Category, CategoryRequest, Store,
}
use cartnova_go_microservice.Product.Handler.{
  handle_create, handle_update, handle_get_by_id, handle_delete, handle_get_all,
}
use cartnova_go_microservice.Product.CategoryHandler.{
  handle_create_category, handle_get_all_categories, handle_get_category, handle_delete_category,
  handle_update_category,
}

-- A request by its route: what the middleware reads, the values of `{id}` or the parameters, the body.
pub data ProductRequest : Type 0 where
  post_product : Request → Result CreateProductRequest → ProductRequest
  list_products : String → String → ProductRequest
  get_product : String → ProductRequest
  put_product : Request → String → Result UpdateProductRequest → ProductRequest
  delete_product : Request → String → ProductRequest
  post_category : Request → Result CategoryRequest → ProductRequest
  list_categories : ProductRequest
  get_category : String → ProductRequest
  put_category : Request → String → Result CategoryRequest → ProductRequest
  delete_category : Request → String → ProductRequest

pub data Reply : Type 0 where
  product_reply : Response Product → Reply
  products_reply : Response (List Product) → Reply
  category_reply : Response Category → Reply
  categories_reply : Response (List Category) → Reply
  empty_reply : Response (Unit {0}) → Reply
  refusal : ℕ → Reply

unfoldable pub behind : Passage Identity → Run Store Reply → Run Store Reply
behind (denied status) next = return (refusal status)
behind (served identity) next = next

unfoldable pub replied :
    {A : Type 0} → (Response A → Reply) → Run Store (Response A) → Run Store Reply
replied reply next = do response ← next; return (reply response)

module _ (jwt : Jwt) (service : Auth.Service) where
  -- `auth.RequireRole(authService, "ADMIN", ...)`, at the time of the request
  unfoldable pub for_admin : Request → Run Store Reply → Run Store Reply
  for_admin request next = do
    time ← now
    behind (require_role jwt service "ADMIN" time request) next

  module _ (has_redis : Bool) (floats : Floats) (to_upper : String → String)
      (ilike collates : String → String → Bool) where
    unfoldable pub serve : ProductRequest → Run Store Reply
    serve (post_product request body) =
        for_admin request (replied product_reply (handle_create has_redis floats to_upper body))
    serve (list_products category_id search) =
        replied products_reply (handle_get_all has_redis ilike category_id search)
    serve (get_product id) = replied product_reply (handle_get_by_id has_redis id)
    serve (put_product request id body) =
        for_admin request (replied product_reply (handle_update has_redis floats to_upper id body))
    serve (delete_product request id) =
        for_admin request (replied empty_reply (handle_delete has_redis id))
    serve (post_category request body) =
        for_admin request (replied category_reply (handle_create_category body))
    serve list_categories = replied categories_reply (handle_get_all_categories collates)
    serve (get_category id) = replied category_reply (handle_get_category id)
    serve (put_category request id body) =
        for_admin request (replied category_reply (handle_update_category id body))
    serve (delete_category request id) =
        for_admin request (replied empty_reply (handle_delete_category id))

    unfoldable pub serve_all : List ProductRequest → Run Store (List Reply)
    serve_all [] = return []
    serve_all (request ∷ rest) = do
      reply ← serve request
      replies ← serve_all rest
      return (reply ∷ replies)
