-- ===== src/Httpapi/TokenBucket/Bounds.antt =====
-- How many requests a token bucket (internal/httpapi/middleware.go) lets through, whatever the
-- rounding of its floats.
use mathlib.Core.Path.{subst}
use agentic_coop_db.Prelude.{
  ℕ, suc, ◌+◌, ◌-◌, ◌*◌, ◌≤◌, ◌≡◌, refl, sym, inl, inr, ◌↔◌, Bool, true, false, List, [], ◌∷◌,
  arith, length, if◌then◌else◌, Bool-cases,
}
use agentic_coop_db.Httpapi.TokenBucket.{Floats, TokenBucket, new_token_bucket, allow}

module _ (fl : Floats) where
  -- The calls of Allow at the times of a list, and the number that it granted.
  unfoldable pub run : TokenBucket fl → List ℕ → TokenBucket fl × ℕ
  run b [] = (b, 0)
  run b (now ∷ times) =
      let (b', granted) = allow fl b now in
      let (b'', n) = run b' times in (b'', if granted then suc n else n)

  -- What IEEE 754 says of the floats of a bucket with the finite rate `rate`, not negative, and the
  -- largest count `max`. IsNumber are the floats from 0 to `max`, without NaN. A finite float that is not
  -- negative is, exactly, a whole multiple `size` of the smallest one. A count of tokens to which a
  -- product is added, cut to `max`, and a count less one are at most `slack` above the exact values:
  -- both errors are of the order of the last digit of `max`.
  pub record IsRounded (rate max : fl.Float) (slack : ℕ) : Type 1 where
    pub IsNumber : fl.Float → Type 0
    pub size : fl.Float → ℕ
    pub full : IsNumber max
    pub less :
        (x : fl.Float)
        → IsNumber x
        → (fl.lt x (fl.of_int 1) ≡ false) ↔ (size (fl.of_int 1) ≤ size x)
    pub refilled :
        (x : fl.Float) (d : ℕ)
        → IsNumber x
        → IsNumber (fl.smaller (fl.add x (fl.mul (fl.seconds d) rate)) max)
    pub credit :
        (x : fl.Float) (d : ℕ)
        → IsNumber x
        → 1000000000 * size (fl.smaller (fl.add x (fl.mul (fl.seconds d) rate)) max)
          ≤ 1000000000 * (size x + slack) + d * size rate
    pub taken :
        (x : fl.Float)
        → IsNumber x
        → size (fl.of_int 1) ≤ size x
        → IsNumber (fl.sub x (fl.of_int 1))
    pub spent :
        (x : fl.Float)
        → IsNumber x
        → size (fl.of_int 1) ≤ size x
        → size (fl.of_int 1) + size (fl.sub x (fl.of_int 1)) ≤ size x + slack

-- The clock does not go back.
abbrev pub IsAscending : ℕ → List ℕ → Type 0
IsAscending t [] = Unit
IsAscending t (now ∷ times) = (t ≤ now) × IsAscending now times

abbrev pub last : ℕ → List ℕ → ℕ
last t [] = t
last t (now ∷ times) = last now times

le-last : (t : ℕ) (times : List ℕ) → IsAscending t times → t ≤ last t times
le-last t [] a = omega arith
le-last t (now ∷ times) a = omega (arith, le-last now times a.1)

module _ (fl : Floats) (rate max : fl.Float) (slack : ℕ) (ieee : IsRounded fl rate max slack) where
  -- A bucket of this rate and size that holds a number.
  record IsBucket (b : TokenBucket fl) : Type 0 where
    same_rate : b.rate ≡ rate
    same_max : b.max ≡ max
    number : ieee.IsNumber b.tokens

  abbrev unit : ℕ
  unit = ieee.size (fl.of_int 1)

  -- One call: the bucket afterwards, and what it has left and given.
  allow_step :
      (now : ℕ) (tokens : fl.Float) (before : ℕ)
      → ieee.IsNumber tokens
      → let b : TokenBucket fl = record {
        tokens = tokens;
        max = max;
        rate = rate;
        last_time = before;
      } in
        IsBucket (allow fl b now).0
        × ((allow fl b now).0.last_time ≡ now)
        × (1000000000
              * ((if (allow fl b now).1 then unit else 0) + ieee.size (allow fl b now).0.tokens)
            ≤ 1000000000 * (ieee.size tokens + 2 * slack) + (now - before) * ieee.size rate)
  unfolding allow
  allow_step now tokens before n =
      let d = now - before in
      let x = fl.smaller (fl.add tokens (fl.mul (fl.seconds d) rate)) max in
      let c = ieee.credit tokens d n in
      let m = ieee.refilled tokens d n in
      elim (Bool-cases (fl.lt x (fl.of_int 1))) [
        | inl e ↦
            rw e (record { same_rate = refl; same_max = refl; number = m }, refl, omega (arith, c))
        | inr e ↦
            let enough = (ieee.less x m).0 e in
            let left = ieee.spent x m enough in
            rw e (
              record { same_rate = refl; same_max = refl; number = ieee.taken x m enough },
              refl,
              omega (arith, c, left),
            )
      ]

  step_of :
      (b : TokenBucket fl) (now : ℕ)
      → IsBucket b
      → IsBucket (allow fl b now).0
        × ((allow fl b now).0.last_time ≡ now)
        × (1000000000
              * ((if (allow fl b now).1 then unit else 0) + ieee.size (allow fl b now).0.tokens)
            ≤ 1000000000 * (ieee.size b.tokens + 2 * slack) + (now - b.last_time) * ieee.size rate)
  step_of b now i = rw (i.same_rate, i.same_max) (allow_step now b.tokens b.last_time i.number)

  add_step :
      (g : Bool) (n k t0 t1 t2 x y r : ℕ)
      → 1000000000 * (n * unit + t2) ≤ 1000000000 * (t1 + 2 * k * slack) + x * r
      → 1000000000 * ((if g then unit else 0) + t1) ≤ 1000000000 * (t0 + 2 * slack) + y * r
      → 1000000000 * ((if g then suc n else n) * unit + t2)
        ≤ 1000000000 * (t0 + 2 * suc k * slack) + (x + y) * r
  add_step true n k t0 t1 t2 x y r h j = omega arith
  add_step false n k t0 t1 t2 x y r h j = omega arith

  run_bound :
      (b : TokenBucket fl) (times : List ℕ)
      → IsBucket b
      → IsAscending b.last_time times
      → 1000000000 * ((run fl b times).1 * unit + ieee.size (run fl b times).0.tokens)
        ≤ 1000000000 * (ieee.size b.tokens + 2 * length times * slack)
          + (last b.last_time times - b.last_time) * ieee.size rate
  unfolding run
  run_bound b [] i a = omega arith
  run_bound b (now ∷ times) i (later, a) =
      let b' = (allow fl b now).0 in
      let (next, same_time, step) = step_of b now i in
      let ih = run_bound b' times next (subst (λ t. IsAscending t times) (sym same_time) a) in
      let ih' =
        subst
          (λ t.
            1000000000 * ((run fl b' times).1 * unit + ieee.size (run fl b' times).0.tokens)
            ≤ 1000000000 * (ieee.size b'.tokens + 2 * length times * slack)
              + (last t times - t) * ieee.size rate)
          same_time ih in
      let split : last now times - b.last_time ≡ (last now times - now) + (now - b.last_time) =
        omega (arith, le-last now times a) in
      rw split (
        add_step (allow fl b now).1 (run fl b' times).1 (length times) (ieee.size b.tokens)
          (ieee.size b'.tokens) (ieee.size (run fl b' times).0.tokens) (last now times - now)
          (now - b.last_time) (ieee.size rate) ih' step)

-- Over any sequence of requests at times that do not go back, a new bucket grants no more than its
-- burst and its rate times the time that has passed, but for the rounding of the floats: each request
-- adds at most two errors of the size `slack`, a bound on the error of one step for which the laws of
-- IEEE 754 that IsRounded lists hold at a finite rate and this burst.
pub run-le :
    (fl : Floats) (rps : fl.Float) (burst start slack : ℕ)
    (ieee : IsRounded fl rps (fl.of_int burst) slack) (times : List ℕ)
    → IsAscending start times
    → 1000000000
        * ((run fl (new_token_bucket fl rps burst start) times).1 * ieee.size (fl.of_int 1))
      ≤ 1000000000 * (ieee.size (fl.of_int burst) + 2 * length times * slack)
        + (last start times - start) * ieee.size rps
unfolding new_token_bucket
run-le fl rps burst start slack ieee times a =
    let b = new_token_bucket fl rps burst start in
    let i : IsBucket fl rps (fl.of_int burst) slack ieee b = record {
      same_rate = refl;
      same_max = refl;
      number = ieee.full;
    } in
    omega (arith, run_bound fl rps (fl.of_int burst) slack ieee b times i a)
