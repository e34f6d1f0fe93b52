-- ===== src/World/Samples.antt =====
-- Worlds to run the code in.
use cartnova_go_microservice.Prelude.{
  ℕ, suc, ◌+◌, ◌*◌, ℤ, pos, negsuc, true, false, some, [], nat_eq, if◌then◌else◌,
}
use cartnova_go_microservice.Go.{Floats}
use cartnova_go_microservice.World.{done, refused, Outside, World}

abbrev pub calm : Outside
calm = record {
  fate = λ n. done;
  uuid = λ n. if nat_eq n 0 then "first" else "later";
  serial = λ n. pos (suc n);
  clock = λ n. n;
  pg_message = λ code. code;
}

-- The call with this number is refused.
abbrev pub broken : ℕ → Outside
broken k = record calm { fate = λ n. if nat_eq n k then refused "down" else done }

abbrev pub start : {S : Type 0} → Outside → S → World S
start outside state = record {
  outside = outside;
  calls = 0;
  drawn = 0;
  readings = 0;
  published = [];
  committed = [];
  state = state;
}

abbrev whole : ℤ → ℕ
whole (pos n) = n
whole (negsuc n) = 0

-- Whole numbers in place of floating-point ones.
abbrev pub whole_floats : Floats
whole_floats = record {
  zero_float = 0;
  add = λ x y. x + y;
  mul = λ x y. x * y;
  of_int = whole;
  to_int = pos;
  is_finite = λ x. true;
  is_negative = λ x. false;
  numeric = some;
}
