-- ===== src/Json.antt =====
-- encoding/json as the events use it. A document is kept as its tree; the text of it between
-- `json.Marshal` and `json.Unmarshal` is not modelled.
use cartnova_go_microservice.Prelude.{ℤ, String, Bool, int64, equal_fold, if◌then◌else◌}
use cartnova_go_microservice.Go.{Result, ok, err, foreign, ◌>>=◌, Float64}

mutual
  pub data Json : Type 0 where
    null : Json
    bool : Bool → Json
    num : ℤ → Json
    float : Float64 → Json
    str : String → Json
    arr : Items → Json
    obj : Members → Json

  pub data Items : Type 0 where
    nil : Items
    cons : Json → Items → Items

  pub data Members : Type 0 where
    end : Members
    member : String → Json → Members → Members

-- One value stored into a field of type int64 or int; `null` leaves the field as it is.
unfoldable pub store_int : ℤ → Json → Result ℤ
store_int old null = ok old
store_int old (num n) = if int64 n then ok n else err (foreign "json: number out of range")
store_int old _ = err (foreign "json: cannot unmarshal into int64")

unfoldable pub store_string : String → Json → Result String
store_string old null = ok old
store_string old (str s) = ok s
store_string old _ = err (foreign "json: cannot unmarshal into string")

-- Go matches a key to a field exactly or under case folding, and a later key overwrites.
unfoldable pub int_field : String → ℤ → Members → Result ℤ
unfolding store_int equal_fold
int_field name old end = ok old
int_field name old (member key value rest) = do
  new ← if equal_fold key name then store_int old value else ok old
  int_field name new rest

unfoldable pub string_field : String → String → Members → Result String
unfolding store_string equal_fold
string_field name old end = ok old
string_field name old (member key value rest) = do
  new ← if equal_fold key name then store_string old value else ok old
  string_field name new rest

-- The members of the document that is unmarshalled into a struct.
unfoldable pub members : Json → Result Members
members null = ok end
members (obj m) = ok m
members _ = err (foreign "json: cannot unmarshal into Go struct")
