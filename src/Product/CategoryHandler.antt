-- ===== src/Product/CategoryHandler.antt =====
-- internal/product/category_handler.go
use cartnova_go_microservice.Prelude.{
  ℤ, String, Bool, Option, none, some, List, ◌==◌, trim_space, if◌then◌else◌,
}
use cartnova_go_microservice.Go.{is, Result, ok, err}
use cartnova_go_microservice.Http.{
  Response, json, error, bare, status_ok, status_created, status_no_content, bad_request, not_found,
  internal_server_error,
}
use cartnova_go_microservice.Reply.{error_with_text, positive_id}
use cartnova_go_microservice.World.{Run, return, attempt, ◌>>=◌}
use cartnova_go_microservice.Product.Model.{Category, CategoryRequest, Store}
use cartnova_go_microservice.Product.Categories.{
  create_category, find_all_categories, find_category_by_id, update_category, delete_category,
}

unfoldable pub category_created : Result Category → Run Store (Response Category)
category_created (ok c) = return (json status_created c)
category_created (err e) = error_with_text bad_request e

unfoldable pub handle_create_category : Result CategoryRequest → Run Store (Response Category)
handle_create_category (err e) = return (error bad_request "invalid request body")
handle_create_category (ok request) =
    if trim_space request.name == ""
    then return (error bad_request "category name is required")
    else do c ← attempt (create_category (trim_space request.name)); category_created c

unfoldable pub categories_listed : Result (List Category) → Run Store (Response (List Category))
categories_listed (ok categories) = return (json status_ok categories)
categories_listed (err e) = return (error internal_server_error "could not load categories")

unfoldable pub handle_get_all_categories :
    (String → String → Bool) → Run Store (Response (List Category))
handle_get_all_categories collates = do
  categories ← attempt (find_all_categories collates)
  categories_listed categories

unfoldable pub category_loaded : Result Category → Run Store (Response Category)
category_loaded (ok c) = return (json status_ok c)
category_loaded (err e) =
    if is e "category not found"
    then error_with_text not_found e
    else return (error internal_server_error "could not load category")

unfoldable pub load_category : Option ℤ → Run Store (Response Category)
load_category none = return (error bad_request "invalid category id")
load_category (some id) = do c ← attempt (find_category_by_id id); category_loaded c

unfoldable pub handle_get_category : String → Run Store (Response Category)
handle_get_category path_value = load_category (positive_id path_value)

unfoldable pub category_deleted : Result (Unit {0}) → Run Store (Response (Unit {0}))
category_deleted (ok _) = return (bare status_no_content)
category_deleted (err e) =
    if is e "category not found"
    then error_with_text not_found e
    else return (error internal_server_error "could not delete category")

unfoldable pub delete_category_id : Option ℤ → Run Store (Response (Unit {0}))
delete_category_id none = return (error bad_request "invalid category id")
delete_category_id (some id) = do done ← attempt (delete_category id); category_deleted done

unfoldable pub handle_delete_category : String → Run Store (Response (Unit {0}))
handle_delete_category path_value = delete_category_id (positive_id path_value)

unfoldable pub category_updated : Result Category → Run Store (Response Category)
category_updated (ok c) = return (json status_ok c)
category_updated (err e) =
    if is e "category not found" then error_with_text not_found e else error_with_text bad_request e

unfoldable pub change_category : ℤ → Result CategoryRequest → Run Store (Response Category)
change_category id (err e) = return (error bad_request "invalid request body")
change_category id (ok request) =
    if trim_space request.name == ""
    then return (error bad_request "category name is required")
    else do c ← attempt (update_category id (trim_space request.name)); category_updated c

unfoldable pub change_category_id :
    Option ℤ → Result CategoryRequest → Run Store (Response Category)
change_category_id none body = return (error bad_request "invalid category id")
change_category_id (some id) body = change_category id body

unfoldable pub handle_update_category :
    String → Result CategoryRequest → Run Store (Response Category)
handle_update_category path_value body = change_category_id (positive_id path_value) body
