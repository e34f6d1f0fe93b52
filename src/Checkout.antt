-- ===== src/Checkout.antt =====
-- An order service in front of a product and a user service: cmd/order-service/main.go gives the service of
-- internal/order the gRPC clients of internal/grpcapi, whose calls the servers of internal/product and
-- internal/user answer. A message arrives as it was sent.
pub mod Listed
mod Tests
use cartnova_go_microservice.Prelude.{ℕ, ℤ, String, Bool, true, [], ◌∷◌}
use cartnova_go_microservice.Go.{Float64, Floats, GoError, foreign, Result, ok, err}
use cartnova_go_microservice.Grpc.{Struct, number}
use cartnova_go_microservice.World.{World}
use cartnova_go_microservice.Order.Service.{Clients}
use cartnova_go_microservice.Product.Model.{Store}
use cartnova_go_microservice.Product.Server.{get_product}
use cartnova_go_microservice.User.Server.{get_user}
use cartnova_go_microservice.User.Model.{Tables}

-- What a client receives: an error of the server arrives as a status error of grpc, with this text.
unfoldable pub over_grpc : (GoError → String) → Result Struct → Result Struct
over_grpc grpc_text (ok response) = ok response
over_grpc grpc_text (err e) = err (foreign (grpc_text e))

module _ (floats : Floats) (has_redis : Bool) where
  -- `structValue(map[string]any{"id": float64(id)})`
  unfoldable pub id_request : Float64 → Struct
  id_request x = ("id", number x) ∷ []

  -- The clients, over what the two services are at the n-th call of the order service.
  unfoldable pub connected : (GoError → String) → (ℕ → World Store) → (ℕ → World Tables) → Clients
  connected grpc_text products users = record {
    has_user = true;
    get_user = λ n x. over_grpc grpc_text (get_user floats (id_request x) (users n)).0;
    get_product =
        λ n x. over_grpc grpc_text (get_product has_redis floats (id_request x) (products n)).0;
  }
