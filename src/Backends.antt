-- ===== src/Backends.antt =====
-- The routes of cmd/user-service, cmd/product-service, cmd/order-service, cmd/inventory-service and
-- cmd/notification-service: the file main.go of each.
use cartnova_go_microservice.Prelude.{List, [], ◌∷◌}
use cartnova_go_microservice.Mux.{literal, wildcard, Route, open_to_all, with_token, with_role}

pub data Backend : Type 0 where
  user_service : Backend
  product_service : Backend
  order_service : Backend
  inventory_service : Backend
  notification_service : Backend

-- The handlers.
pub data Endpoint : Type 0 where
  health : Endpoint
  register : Endpoint
  login : Endpoint
  get_user : Endpoint
  update_profile : Endpoint
  create_product : Endpoint
  list_products : Endpoint
  get_product : Endpoint
  update_product : Endpoint
  delete_product : Endpoint
  create_category : Endpoint
  list_categories : Endpoint
  get_category : Endpoint
  update_category : Endpoint
  delete_category : Endpoint
  create_order : Endpoint
  list_own_orders : Endpoint
  get_order : Endpoint
  update_order_status : Endpoint
  add_stock : Endpoint
  get_stock : Endpoint
  list_notifications : Endpoint
  web_socket : Endpoint

abbrev health_route : Route Endpoint
health_route = record {
  method = "GET";
  pattern = literal "health" ∷ [];
  guard = open_to_all;
  handler = health;
}

unfoldable pub user_routes : List (Route Endpoint)
user_routes =
    health_route
    ∷ record {
      method = "POST";
      pattern = literal "register" ∷ [];
      guard = open_to_all;
      handler = register;
    }
    ∷ record {
      method = "POST";
      pattern = literal "login" ∷ [];
      guard = open_to_all;
      handler = login;
    }
    ∷ record {
      method = "GET";
      pattern = literal "users" ∷ wildcard "id" ∷ [];
      guard = with_token;
      handler = get_user;
    }
    ∷ record {
      method = "PUT";
      pattern = literal "users" ∷ wildcard "id" ∷ [];
      guard = with_token;
      handler = update_profile;
    }
    ∷ []

unfoldable pub product_routes : List (Route Endpoint)
product_routes =
    health_route
    ∷ record {
      method = "POST";
      pattern = literal "products" ∷ [];
      guard = with_role "ADMIN";
      handler = create_product;
    }
    ∷ record {
      method = "GET";
      pattern = literal "products" ∷ [];
      guard = open_to_all;
      handler = list_products;
    }
    ∷ record {
      method = "GET";
      pattern = literal "products" ∷ wildcard "id" ∷ [];
      guard = open_to_all;
      handler = get_product;
    }
    ∷ record {
      method = "PUT";
      pattern = literal "products" ∷ wildcard "id" ∷ [];
      guard = with_role "ADMIN";
      handler = update_product;
    }
    ∷ record {
      method = "DELETE";
      pattern = literal "products" ∷ wildcard "id" ∷ [];
      guard = with_role "ADMIN";
      handler = delete_product;
    }
    ∷ record {
      method = "POST";
      pattern = literal "categories" ∷ [];
      guard = with_role "ADMIN";
      handler = create_category;
    }
    ∷ record {
      method = "GET";
      pattern = literal "categories" ∷ [];
      guard = open_to_all;
      handler = list_categories;
    }
    ∷ record {
      method = "GET";
      pattern = literal "categories" ∷ wildcard "id" ∷ [];
      guard = open_to_all;
      handler = get_category;
    }
    ∷ record {
      method = "PUT";
      pattern = literal "categories" ∷ wildcard "id" ∷ [];
      guard = with_role "ADMIN";
      handler = update_category;
    }
    ∷ record {
      method = "DELETE";
      pattern = literal "categories" ∷ wildcard "id" ∷ [];
      guard = with_role "ADMIN";
      handler = delete_category;
    }
    ∷ []

unfoldable pub order_routes : List (Route Endpoint)
order_routes =
    health_route
    ∷ record {
      method = "POST";
      pattern = literal "orders" ∷ [];
      guard = with_token;
      handler = create_order;
    }
    ∷ record {
      method = "GET";
      pattern = literal "orders" ∷ literal "mine" ∷ [];
      guard = with_token;
      handler = list_own_orders;
    }
    ∷ record {
      method = "GET";
      pattern = literal "orders" ∷ wildcard "id" ∷ [];
      guard = with_token;
      handler = get_order;
    }
    ∷ record {
      method = "PUT";
      pattern = literal "orders" ∷ wildcard "id" ∷ literal "status" ∷ [];
      guard = with_token;
      handler = update_order_status;
    }
    ∷ []

unfoldable pub inventory_routes : List (Route Endpoint)
inventory_routes =
    health_route
    ∷ record {
      method = "POST";
      pattern = literal "inventory" ∷ [];
      guard = with_token;
      handler = add_stock;
    }
    ∷ record {
      method = "GET";
      pattern = literal "inventory" ∷ wildcard "productID" ∷ [];
      guard = with_token;
      handler = get_stock;
    }
    ∷ []

unfoldable pub notification_routes : List (Route Endpoint)
notification_routes =
    health_route
    ∷ record {
      method = "GET";
      pattern = literal "notifications" ∷ [];
      guard = with_token;
      handler = list_notifications;
    }
    ∷ record {
      method = "GET";
      pattern = literal "ws" ∷ [];
      guard = with_token;
      handler = web_socket;
    }
    ∷ []

unfoldable pub routes_of : Backend → List (Route Endpoint)
routes_of user_service = user_routes
routes_of product_service = product_routes
routes_of order_service = order_routes
routes_of inventory_service = inventory_routes
routes_of notification_service = notification_routes
