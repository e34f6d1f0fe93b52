-- ===== src/Prelude/Text.antt =====
-- Text as Go's standard library works on it: code points, `strings.EqualFold` on ASCII letters, and
-- `strconv.ParseInt(s, 10, 64)`.
use Prim.Native.Nat.{ℕ, ◌+◌, zero, suc, ◌-◌, ◌*◌, ◌/◌, ◌%◌, ◌^◌}
use Prim.Native.Char.{Char, code}
use Prim.Native.String.{String}
use Prim.Native.String
use text.Mathlib.Text.{◌==◌, is_eq}
use mathlib.Core.Path.{◌≡◌, refl, ap, ◌∙◌}
use mathlib.Core.Bool.{Bool, true, false, ◌&&◌, ◌||◌}
use mathlib.Core.Option.{Option, none, some}
use mathlib.Core.List.{List, [], ◌∷◌}
use cartnova_go_microservice.Prelude.Tests.{ltb, leb, nat_eq, if◌then◌else◌}
use cartnova_go_microservice.Prelude.Int.{ℤ, pos, negsuc}

abbrev pub codes : String → List ℕ
codes String.[] = []
codes (String.◌∷◌ c s) = code c ∷ codes s

unfoldable pub lower_code : ℕ → ℕ
lower_code c = if leb b'A' c && leb c b'Z' then c + 32 else c

unfoldable pub fold_codes : List ℕ → List ℕ → Bool
unfolding lower_code
fold_codes [] [] = true
fold_codes (a ∷ s) (b ∷ t) = nat_eq (lower_code a) (lower_code b) && fold_codes s t
fold_codes _ _ = false

unfoldable pub equal_fold : String → String → Bool
unfolding fold_codes
equal_fold s t = fold_codes (codes s) (codes t)

unfoldable pub parse_digits : ℕ → List ℕ → Option ℕ
parse_digits n [] = some n
parse_digits n (c ∷ s) =
    let rest = parse_digits (n * 10 + (c - 48)) s in if leb 48 c && leb c 57 then rest else none

-- a magnitude with a sign, if it fits 64 bits
unfoldable pub sign_int : Bool → Option ℕ → Option ℤ
sign_int negative none = none
sign_int true (some n) =
    if nat_eq n 0 then some (pos 0) else if leb n (2 ^ 63) then some (negsuc (n - 1)) else none
sign_int false (some n) = if ltb n (2 ^ 63) then some (pos n) else none

unfoldable pub parse_magnitude : Bool → List ℕ → Option ℤ
unfolding parse_digits sign_int
parse_magnitude negative [] = none
parse_magnitude negative (c ∷ s) = sign_int negative (parse_digits 0 (c ∷ s))

unfoldable pub parse_codes : List ℕ → Option ℤ
unfolding parse_magnitude
parse_codes [] = none
parse_codes (c ∷ s) =
    if nat_eq c b'-'
    then parse_magnitude true s
    else if nat_eq c b'+'
    then parse_magnitude false s
    else parse_magnitude false (c ∷ s)

-- `none` is a non-nil error.
unfoldable pub parse_int : String → Option ℤ
unfolding parse_codes
parse_int s = parse_codes (codes s)

-- `s + t`
infixr 60 ◌<>◌
abbrev pub ◌<>◌ : String → String → String
s <> t = String.◌++◌ s t

digit : ℕ → String
digit n =
    if nat_eq n 0
    then "0"
    else if nat_eq n 1
    then "1"
    else if nat_eq n 2
    then "2"
    else if nat_eq n 3
    then "3"
    else if nat_eq n 4
    then "4"
    else if nat_eq n 5
    then "5"
    else if nat_eq n 6
    then "6"
    else if nat_eq n 7
    then "7"
    else if nat_eq n 8
    then "8"
    else "9"

-- The decimal digits of `n` in front of `acc`. An `int64` has nineteen of them at most.
unfoldable pub decimal : ℕ → ℕ → String → String
unfolding digit
decimal zero n acc = acc
decimal (suc f) n acc =
    let rest = decimal f (n / 10) (digit (n % 10) <> acc) in
    if ltb n 10 then digit n <> acc else rest

-- `strconv.FormatInt(n, 10)`, and the verb `%d`
unfoldable pub format_int : ℤ → String
unfolding decimal
format_int (pos n) = decimal 20 n ""
format_int (negsuc n) = "-" <> decimal 20 (n + 1) ""

format_int_tests :
    (format_int (pos 0) ≡ "0")
    × (format_int (pos 10203) ≡ "10203")
    × (format_int (negsuc 41) ≡ "-42")
    × (format_int (negsuc (2 ^ 63 - 1)) ≡ "-9223372036854775808")
unfolding format_int
format_int_tests = (refl, refl, refl, refl)

parse_int_tests :
    (parse_int "42" ≡ some (pos 42))
    × (parse_int "-7" ≡ some (negsuc 6))
    × (parse_int "" ≡ none)
    × (parse_int "9223372036854775808" ≡ none)
    × (parse_int "4x" ≡ none)
unfolding parse_int
parse_int_tests = (refl, refl, refl, refl, refl)

-- A text that begins with a non-empty text is not empty.
pub append_nonempty : (s t : String) → (s == "") ≡ false → ((s <> t) == "") ≡ false
append_nonempty String.[] t h = absurd (cc)
append_nonempty (String.◌∷◌ c s) t h =
    ap (λ u. u == "") (Prim.Native.String.append.cons c s t)
    ∙ ap is_eq (Prim.Native.String.compare.cons-nil c (s <> t))

-- `unicode.IsSpace`
is_space : ℕ → Bool
is_space c =
    (leb 9 c && leb c 13)
    || nat_eq c 32
    || nat_eq c 133
    || nat_eq c 160
    || nat_eq c 5760
    || (leb 8192 c && leb c 8202)
    || nat_eq c 8232
    || nat_eq c 8233
    || nat_eq c 8239
    || nat_eq c 8287
    || nat_eq c 12288

trim_start : String → String
unfolding is_space
trim_start String.[] = ""
trim_start (String.◌∷◌ c s) =
    let rest = trim_start s in if is_space (code c) then rest else String.◌∷◌ c s

trim_end : String → String
unfolding is_space
trim_end String.[] = ""
trim_end (String.◌∷◌ c s) =
    let rest = trim_end s in if is_space (code c) && (rest == "") then "" else String.◌∷◌ c rest

-- `strings.TrimSpace`
unfoldable pub trim_space : String → String
unfolding trim_start trim_end
trim_space s = trim_end (trim_start s)

trim_space_tests : (trim_space " a b\t" ≡ "a b") × (trim_space "  " ≡ "")
unfolding trim_space
trim_space_tests = (refl, refl)

-- `strings.Contains` for a text of one character
unfoldable pub contains_char : Char → String → Bool
contains_char c String.[] = false
contains_char c (String.◌∷◌ d s) = nat_eq (code d) (code c) || contains_char c s

-- `strings.ToLower` and `strings.ToUpper`, by the table of the characters
unfoldable pub map_chars : (Char → Char) → String → String
map_chars f String.[] = ""
map_chars f (String.◌∷◌ c s) = String.◌∷◌ (f c) (map_chars f s)
