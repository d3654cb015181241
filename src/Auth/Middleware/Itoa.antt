-- ===== src/Auth/Middleware/Itoa.antt =====
-- The decimal text that itoa (internal/auth/middleware.go) writes.
use native.Mathlib.Nat.{pow-suc}
use agentic_coop_db.Prelude.{
  ℕ, zero, suc, ◌+◌, ◌-◌, ◌*◌, ◌/◌, ◌%◌, ◌^◌, ◌<◌, ◌≤◌, ◌≡◌, ap, ◌∙◌, inl, inr, true, false, [],
  ◌∷◌, Bytes, arith, nat_eq, Bool-cases, if◌then◌else◌, All,
}
use agentic_coop_db.Auth.Middleware.{digits, itoa}

-- The number that decimal digits spell behind `n`.
abbrev pub value : ℕ → Bytes → ℕ
value n [] = n
value n (c ∷ s) = value (n * 10 + (c - b'0')) s

abbrev pub IsDigit : ℕ → Type 0
IsDigit c = (b'0' ≤ c) × (c ≤ b'9')

value-digits :
    (rounds i : ℕ) (out : Bytes) → i < 10 ^ rounds → value 0 (digits rounds i out) ≡ value i out
unfolding digits
value-digits zero i out h = let e : i ≡ 0 = omega arith in rw e
value-digits (suc rounds) i out h = elim (Bool-cases (nat_eq i 0)) [
  | inl e ↦ let z : i ≡ 0 = ground arith in rw (z, digits)
  | inr e ↦
      let small : i / 10 < 10 ^ rounds = omega (arith, pow-suc 10 rounds) in
      let same : i / 10 * 10 + ((b'0' + i % 10) - b'0') ≡ i = omega arith in
      rw (e, digits)
        (value-digits rounds (i / 10) ((b'0' + i % 10) ∷ out) small ∙ ap (λ n. value n out) same)
]

IsDigit-digits : (rounds i : ℕ) (out : Bytes) → All IsDigit out → All IsDigit (digits rounds i out)
unfolding digits
IsDigit-digits zero i out h = h
IsDigit-digits (suc rounds) i out h =
    ground (arith, IsDigit-digits rounds (i / 10) ((b'0' + i % 10) ∷ out))

-- Up to the 20 digits of the buffer, the text of a number is decimal digits that spell the number,
-- and a negative number is written as a minus sign before the text of its magnitude.
pub itoa_lem :
    (i : ℕ)
    → i < 10 ^ 20
    → All IsDigit (itoa false i)
      × (value 0 (itoa false i) ≡ i)
      × (itoa true i ≡ (if nat_eq i 0 then itoa false i else b'-' ∷ itoa false i))
unfolding itoa
itoa_lem i h = (
  ground (arith, IsDigit-digits 20 i [] tt),
  ground (arith, value-digits 20 i [] h),
  ground arith,
)
