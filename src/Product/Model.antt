-- ===== src/Product/Model.antt =====
-- internal/product/model.go, the tables of migrations/product, and the keys of Redis.
use cartnova_go_microservice.Prelude.{
  ℕ, ℤ, String, Bool, true, false, ◌||◌, Option, none, some, List, [], ◌∷◌, ◌==ℤ◌, if◌then◌else◌,
}
use cartnova_go_microservice.Go.{Float64}

-- type Product struct
pub record Product : Type 0 where
  pub id : ℤ
  pub name : String
  pub description : String
  pub price : Float64
  pub category_id : Option ℤ
  pub status : String
  pub created_at : ℕ
  pub updated_at : ℕ

-- type CreateProductRequest struct
pub record CreateProductRequest : Type 0 where
  pub name : String
  pub description : String
  pub price : Float64
  pub category_id : Option ℤ

-- type UpdateProductRequest struct
pub record UpdateProductRequest : Type 0 where
  pub name : String
  pub description : String
  pub price : Float64
  pub category_id : Option ℤ
  pub status : String

-- A value under the key of a product: the product that it unmarshals to, if it does, and the time at
-- which Redis drops it.
pub record Entry : Type 0 where
  pub value : Option Product
  pub expires : ℕ

-- type Category struct, a row of `categories`
pub record Category : Type 0 where
  pub id : ℤ
  pub name : String
  pub created_at : ℕ

-- type CategoryRequest struct
pub record CategoryRequest : Type 0 where
  pub name : String

-- The rows of `products` and `categories`, and Redis.
pub record Store : Type 0 where
  pub products : List Product
  pub categories : List Category
  pub cache : ℤ → Option Entry

-- SELECT ... FROM products WHERE id = $1
unfoldable pub find_product : ℤ → List Product → Option Product
find_product id [] = none
find_product id (p ∷ rest) = if p.id ==ℤ id then some p else find_product id rest

-- REFERENCES categories(id)
unfoldable pub is_category : ℤ → List Category → Bool
is_category id [] = false
is_category id (c ∷ rest) = (c.id ==ℤ id) || is_category id rest

unfoldable pub has_category : Option ℤ → List Category → Bool
has_category none categories = true
has_category (some id) categories = is_category id categories
