-- ===== src/User/Model.antt =====
-- internal/user/model.go.
use cartnova_go_microservice.Prelude.{ℕ, ℤ, String, List}

-- type User struct. The password hash is in no JSON document: its tag is `-`.
pub record User : Type 0 where
  pub id : ℤ
  pub name : String
  pub email : String
  pub password_hash : String
  pub role : String
  pub created_at : ℕ
  pub updated_at : ℕ

-- type RegisterRequest struct
pub record RegisterRequest : Type 0 where
  pub name : String
  pub email : String
  pub password : String

-- type LoginRequest struct
pub record LoginRequest : Type 0 where
  pub email : String
  pub password : String

-- type UpdateProfileRequest struct
pub record UpdateProfileRequest : Type 0 where
  pub name : String

-- The table `users`.
pub record Tables : Type 0 where
  pub users : List User
