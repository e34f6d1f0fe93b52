-- ===== src/Reply.antt =====
-- What the handlers of the services share.
use cartnova_go_microservice.Prelude.{
  ℕ, ℤ, String, Option, none, some, Bool, List, [], ◌∷◌, parse_int, is_nonpos, if◌then◌else◌,
}
use cartnova_go_microservice.Go.{GoError}
use cartnova_go_microservice.Http.{Response, error}
use cartnova_go_microservice.World.{Run, return, text_of, ◌>>=◌}
use cartnova_go_microservice.World.Keeps.{Keeps, keep_rules}

module _ {S A : Type 0} where
  -- `httpx.Error(w, status, err.Error())`
  unfoldable pub error_with_text : ℕ → GoError → Run S (Response A)
  error_with_text code e = do text ← text_of e; return (error code text)

  pub Keeps-error_with_text :
      {P : S → Type 0} (code : ℕ) (e : GoError) → Keeps P (error_with_text code e)
  unfolding error_with_text
  Keeps-error_with_text code e = search keep_rules

-- `strconv.ParseInt(value, 10, 64)`, and the test for a positive number
unfoldable pub positive_id : String → Option ℤ
positive_id value = positive (parse_int value)
  where
    positive : Option ℤ → Option ℤ
    positive none = none
    positive (some id) = if is_nonpos id then none else some id

-- ORDER BY: `before` says which of two rows stands first.
unfoldable pub insert_sorted : {A : Type 0} → (A → A → Bool) → A → List A → List A
insert_sorted before x [] = x ∷ []
insert_sorted before x (y ∷ rest) =
    let more = insert_sorted before x rest in if before y x then y ∷ more else x ∷ y ∷ rest

unfoldable pub order_by : {A : Type 0} → (A → A → Bool) → List A → List A
order_by before [] = []
order_by before (x ∷ rest) = insert_sorted before x (order_by before rest)
