-- ===== src/Grpc.antt =====
-- internal/grpcapi/api.go: the messages that the services exchange are `structpb.Struct`s, of which
-- the code reads and writes number and string fields. The transport is a call of `Outside`.
use cartnova_go_microservice.Prelude.{
  String, Option, none, some, List, [], ◌∷◌, ◌==◌, if◌then◌else◌,
}
use cartnova_go_microservice.Go.{Float64, Floats}

pub data Value : Type 0 where
  number : Float64 → Value
  text : String → Value

-- `Fields`
abbrev pub Struct : Type 0
Struct = List (String × Value)

unfoldable pub field : String → Struct → Option Value
field name [] = none
field name ((key, value) ∷ rest) = if key == name then some value else field name rest

-- `GetNumberValue` of a field that may be missing: zero unless it is a number.
unfoldable pub number_of : Floats → Option Value → Float64
number_of floats none = floats.zero_float
number_of floats (some (number x)) = x
number_of floats (some (text s)) = floats.zero_float

-- `GetStringValue`
unfoldable pub text_of : Option Value → String
text_of none = ""
text_of (some (number x)) = ""
text_of (some (text s)) = s
