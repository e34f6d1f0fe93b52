-- ===== src/Checkout/Tests.antt =====
-- An order of one lamp.
use cartnova_go_microservice.Prelude.{ℕ, pos, String, false, none, List, [], ◌∷◌}
use cartnova_go_microservice.Go.{GoError}
use cartnova_go_microservice.World.{World}
use cartnova_go_microservice.World.Samples.{calm, start}
use cartnova_go_microservice.World.Returns.{Returns}
use cartnova_go_microservice.Order
use cartnova_go_microservice.Order.Model.{Order, CreateOrderItem}
use cartnova_go_microservice.Product.Model.{Product, Store}
use cartnova_go_microservice.User.Model.{User, Tables}
use cartnova_go_microservice.Product.Repository
use cartnova_go_microservice.User.Server as UserServer
use cartnova_go_microservice.User.Repository as UserRepository

abbrev lamp : Product
lamp = record {
  id = pos 1;
  name = "Lamp";
  description = "";
  price = 10;
  category_id = none;
  status = "ACTIVE";
  created_at = 1;
  updated_at = 1;
}

abbrev store : Store
store = record { products = lamp ∷ []; categories = []; cache = λ id. none }

abbrev ann : User
ann = record {
  id = pos 3;
  name = "Ann";
  email = "ann@shop";
  password_hash = "h";
  role = "CUSTOMER";
  created_at = 0;
  updated_at = 0;
}

abbrev products : ℕ → World Store
products n = start calm store

abbrev users : ℕ → World Tables
users n = start calm (record { users = ann ∷ [] })

abbrev order_world : World Order.Tables.Tables
order_world = start calm (record { orders = []; order_items = []; processed_events = λ id. false })

abbrev requested : List CreateOrderItem
requested = record { product_id = pos 1; quantity = pos 2 } ∷ []

abbrev placed : Order
placed = record {
  id = pos 1;
  user_id = pos 3;
  total_amount = 20;
  status = "CREATED";
  items = record { id = pos 2; product_id = pos 1; quantity = pos 2; price = 10 } ∷ [];
  created_at = 0;
  updated_at = 0;
}

abbrev grpc_text : GoError → String
grpc_text e = "rpc error"
