-- ===== src/Notification/Handler.antt =====
-- internal/notification/handler.go. `claims` is what `auth.ClaimsFromContext` finds.
use cartnova_go_microservice.Prelude.{ℕ, ℤ, String, Option, none, some, List, parse_int}
use cartnova_go_microservice.Go.{Result, ok, err}
use cartnova_go_microservice.Http.{
  Response, json, error, status_ok, unauthorized, internal_server_error,
}
use cartnova_go_microservice.Auth.{Claims}
use cartnova_go_microservice.World.{Run, return, attempt, ◌>>=◌, ◌>>◌}
use cartnova_go_microservice.Notification.Hub.{add, remove}
use cartnova_go_microservice.Notification.Model.{Notification, Store}
use cartnova_go_microservice.Notification.Repository.{find_by_user_id}
use cartnova_go_microservice.Notification.Service.{modify}

loaded : Result (List Notification) → Run Store (Response (List Notification))
loaded (ok notifications) = return (json status_ok notifications)
loaded (err e) = return (error internal_server_error "could not load notifications")

unfoldable pub handle_get_mine : Option Claims → Run Store (Response (List Notification))
unfolding loaded
handle_get_mine none = return (error unauthorized "unauthorized")
handle_get_mine (some claims) = do
  notifications ← attempt (find_by_user_id claims.user_id)
  loaded notifications

-- `meanwhile` is what the other goroutines do until `ReadMessage` fails.
unfoldable pub user_loop : Run Store Unit → ℤ → ℕ → Run Store Unit
user_loop meanwhile user_id connection = do
  modify λ s. record s { hub = add user_id connection s.hub }
  attempt meanwhile
  modify λ s. record s { hub = remove user_id connection s.hub }

-- `upgraded` is what `upgrader.Upgrade` returned, which answers the request itself.
unfoldable pub handle_web_socket :
    Run Store Unit → Option Claims → Result ℕ → Run Store (Option (Response Unit))
handle_web_socket meanwhile none upgraded = return (some (error unauthorized "unauthorized"))
handle_web_socket meanwhile (some claims) (err e) = return none
handle_web_socket meanwhile (some claims) (ok connection) = do
  user_loop meanwhile claims.user_id connection
  return none

unfoldable pub user_id_from_path : String → Option ℤ
user_id_from_path path_value = parse_int path_value
