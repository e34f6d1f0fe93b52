-- ===== src/Checkout/Listed.antt =====
-- The prices of an order are those of the catalogue.
use cartnova_go_microservice.Prelude.{ℕ, ◌≤◌, ◌^◌, ℤ, pos, String, ◌≡◌, Bool, some, List, [], ◌∷◌}
use cartnova_go_microservice.Go.{Floats, GoError}
use cartnova_go_microservice.World.{World, ◌>>=◌}
use cartnova_go_microservice.World.Returns.{Returns}
use cartnova_go_microservice.Order
use cartnova_go_microservice.Order.Model.{Order, OrderItem}
use cartnova_go_microservice.Product.Model.{Product, Store, find_product}
use cartnova_go_microservice.User.Model.{Tables}

-- A float64 holds the natural numbers up to 2 ^ 53 exactly.
pub record IsExact (floats : Floats) : Type 0 where
  pub whole : (n : ℕ) → n ≤ 2 ^ 53 → floats.to_int (floats.of_int (pos n)) ≡ pos n

abbrev pub IsSmall : ℤ → Type 0
IsSmall id = (n : ℕ) × (id ≡ pos n) × (n ≤ 2 ^ 53)

abbrev pub AllSmall : List OrderItem → Type 0
AllSmall [] = Unit
AllSmall (item ∷ rest) = IsSmall item.product_id × AllSmall rest

module _ (floats : Floats) (has_redis : Bool) where
  module _ (grpc_text : GoError → String) (products : ℕ → World Store)
      (users : ℕ → World Tables) where
    -- The product stood in the catalogue, at this price, when the order service asked for it.
    abbrev pub IsListed : OrderItem → Type 0
    IsListed item =
        (n : ℕ) × (p : Product) × (find_product item.product_id (products n).state.products
          ≡ some p)
        × (item.price ≡ p.price)

    abbrev pub AllListed : List OrderItem → Type 0
    AllListed [] = Unit
    AllListed (item ∷ rest) = IsListed item × AllListed rest
