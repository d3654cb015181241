-- ===== src/Auth/Secret/Bits.antt =====
-- The two facts about bytes that the constant-time comparison rests on, by a table of all values.
use Prim.Native.Nat.{bit_or, bit_xor}
use agentic_coop_db.Prelude.{
  ℕ, zero, suc, ◌<◌, ◌≡◌, refl, ◌↔◌, Bool, true, false, not, ltb, ◌&&◌, if◌then◌else◌, nat_eq,
  arith,
}

-- `holds` for the values below `bound`, from the largest down.
every_below : (bound : ℕ) (holds : ℕ → Bool) → Bool
every_below zero holds = true
every_below (suc bound) holds =
    let others = every_below bound holds in if holds bound then others else false

every_below-holds :
    (holds : ℕ → Bool) (value bound : ℕ)
    → value < bound
    → every_below bound holds ≡ true
    → holds value ≡ true
unfolding every_below
every_below-holds holds value zero small table = ground arith
every_below-holds holds value (suc bound) small table =
    ground (arith, every_below-holds holds value bound)

agree : Bool → Bool → Bool
agree true b = b
agree false b = not b

pair_ok : ℕ → ℕ → Bool
unfolding agree
pair_ok a b =
    agree (nat_eq (bit_xor a b) 0) (nat_eq a b)
    && ltb (bit_xor a b) 256
    && agree (nat_eq (bit_or a b) 0) (nat_eq a 0 && nat_eq b 0)
    && ltb (bit_or a b) 256

pairs_table : every_below 256 (λ a. every_below 256 (pair_ok a)) ≡ true
unfolding every_below pair_ok
pairs_table = refl

pair_ok_all : (a b : ℕ) → a < 256 → b < 256 → pair_ok a b ≡ true
pair_ok_all a b ha hb =
    every_below-holds (pair_ok a) b 256 hb
      (every_below-holds (λ x. every_below 256 (pair_ok x)) a 256 ha pairs_table)

module _ (a b : ℕ) (ha : a < 256) (hb : b < 256) where
  pub xor_byte : (bit_xor a b < 256) × ((bit_xor a b ≡ 0) ↔ (a ≡ b))
  unfolding pair_ok
  xor_byte = ground (arith, pair_ok_all a b)

  pub or_byte : (bit_or a b < 256) × ((bit_or a b ≡ 0) ↔ ((a ≡ 0) × (b ≡ 0)))
  unfolding pair_ok
  or_byte = ground (arith, pair_ok_all a b)
