-- ===== src/Httpapi/TokenBucket/Example.antt =====
-- Fixed-point numbers, in billionths, in the place of the floats of internal/httpapi/middleware.go.
use agentic_coop_db.Prelude.{ℕ, ◌*◌, ◌+◌, ◌-◌, ◌/◌, min, pos, ltb, leb, arith}
use agentic_coop_db.Httpapi.TokenBucket.{Floats}
use agentic_coop_db.Httpapi.TokenBucket.Bounds.{IsRounded}

abbrev pub fixed : Floats
fixed = record {
  Float = ℕ;
  of_int = λ n. n * 1000000000;
  add = λ x y. x + y;
  sub = λ x y. x - y;
  mul = λ x y. x * y / 1000000000;
  smaller = λ x y. min x y;
  lt = λ x y. ltb x y;
  le = λ x y. leb x y;
  seconds = λ d. d;
  to_int = λ x. pos (x / 1000000000);
}

abbrev pub rounded : (rate max : ℕ) → IsRounded fixed rate max 1
rounded rate max = record {
  IsNumber = λ x. Unit;
  size = λ x. x;
  full = tt;
  less = λ x n. ground arith;
  refilled = λ x d n. tt;
  credit = λ x d n. omega arith;
  taken = λ x n h. tt;
  spent = λ x n h. omega arith;
}
