-- ===== src/Go.antt =====
-- What the services use of Go: errors, and float64 values.
use cartnova_go_microservice.Prelude.{Option, ℕ, ℤ, String, Bool, false, ◌==◌, ◌<>◌}

-- `sentinel` is a package variable made by `errors.New`, known by its text; the texts of the
-- sentinels of one package differ. `wrapped` is `fmt.Errorf("prefix: %w", err)`. `foreign` is any
-- error of a library, and `pg_error` a server error of PostgreSQL with its SQLSTATE.
pub data GoError : Type 0 where
  sentinel : String → GoError
  wrapped : String → GoError → GoError
  foreign : String → GoError
  pg_error : String → GoError

-- `err.Error()`; `pg_message` is the driver's text for an SQLSTATE.
unfoldable pub error_text : (String → String) → GoError → String
error_text pg_message (sentinel s) = s
error_text pg_message (wrapped prefix e) = prefix <> ": " <> error_text pg_message e
error_text pg_message (foreign s) = s
error_text pg_message (pg_error code) = pg_message code

-- `errors.Is(err, target)` at the sentinel with this text
unfoldable pub is : GoError → String → Bool
is (sentinel s) target = s == target
is (wrapped prefix e) target = is e target
is (foreign s) target = false
is (pg_error code) target = false

pub data Result {ℓ} (A : Type ℓ) : Type ℓ where
  ok : A → Result A
  err : GoError → Result A

infixl 5 ◌>>=◌ ◌>>◌
abbrev pub ◌>>=◌ {ℓ κ} : {A : Type ℓ} {B : Type κ} → Result A → (A → Result B) → Result B
ok a >>= f = f a
err e >>= f = err e

abbrev pub ◌>>◌ {ℓ κ} : {A : Type ℓ} {B : Type κ} → Result A → Result B → Result B
m >> k = m >>= λ _. k

-- A float64 is kept as its bit pattern. Its arithmetic is a parameter of the code that computes
-- with it.
abbrev pub Float64 : Type 0
Float64 = ℕ

pub record Floats : Type 0 where
  pub zero_float : Float64
  pub add : Float64 → Float64 → Float64
  pub mul : Float64 → Float64 → Float64
  -- `float64(n)` and `int64(x)`
  pub of_int : ℤ → Float64
  pub to_int : Float64 → ℤ
  -- neither an infinity nor NaN
  pub is_finite : Float64 → Bool
  -- `x < 0`
  pub is_negative : Float64 → Bool
  -- What a NUMERIC(12,2) column holds of the number, as it is read back, if it is in range.
  pub numeric : Float64 → Option Float64
