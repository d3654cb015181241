-- ===== src/Auth/Key/Example.antt =====
-- The base64url encoder without padding, as a function that keeps the laws of RawUrlEncoding.
use agentic_coop_db.Prelude.{
  ℕ, zero, suc, ◌+◌, ◌-◌, ◌*◌, ◌/◌, ◌%◌, ◌≡◌, arith, true, [], ◌∷◌, Bytes, length, All, ltb, nat_eq,
  if◌then◌else◌,
}
use agentic_coop_db.Auth.Key.{RawUrlEncoding, is_base64url}

abbrev sextet : ℕ → ℕ
sextet v =
    if ltb v 26
    then b'A' + v
    else if ltb v 52
    then b'a' + (v - 26)
    else if ltb v 62
    then b'0' + (v - 52)
    else if nat_eq v 62
    then b'-'
    else b'_'

abbrev encode : Bytes → Bytes
encode [] = []
encode (a ∷ []) = sextet (a / 4 % 64) ∷ sextet (a * 16 % 64) ∷ []
encode (a ∷ b ∷ []) =
    sextet (a / 4 % 64) ∷ sextet ((a * 16 + b / 16) % 64) ∷ sextet (b * 4 % 64) ∷ []
encode (a ∷ b ∷ c ∷ s) =
    sextet (a / 4 % 64)
    ∷ sextet ((a * 16 + b / 16) % 64)
    ∷ sextet ((b * 4 + c / 64) % 64)
    ∷ sextet (c % 64)
    ∷ encode s

sextet_alphabet : (v : ℕ) → is_base64url (sextet v) ≡ true
unfolding is_base64url
sextet_alphabet v = ground arith

pub length-encode : (n : ℕ) (s : Bytes) → length s ≡ 3 * n → length (encode s) ≡ 4 * n
length-encode n [] h = omega arith
length-encode n (a ∷ []) h = absurd (omega arith)
length-encode n (a ∷ b ∷ []) h = absurd (omega arith)
length-encode zero (a ∷ b ∷ c ∷ s) h = absurd (omega arith)
length-encode (suc n) (a ∷ b ∷ c ∷ s) h = omega (arith, length-encode n s (omega arith))

pub encode_alphabet : (s : Bytes) → All (λ c. is_base64url c ≡ true) (encode s)
encode_alphabet [] = tt
encode_alphabet (a ∷ []) = (sextet_alphabet (a / 4 % 64), (sextet_alphabet (a * 16 % 64), tt))
encode_alphabet (a ∷ b ∷ []) = (
  sextet_alphabet (a / 4 % 64),
  (sextet_alphabet ((a * 16 + b / 16) % 64), (sextet_alphabet (b * 4 % 64), tt)),
)
encode_alphabet (a ∷ b ∷ c ∷ s) = (
  sextet_alphabet (a / 4 % 64),
  (
    sextet_alphabet ((a * 16 + b / 16) % 64),
    (sextet_alphabet ((b * 4 + c / 64) % 64), (sextet_alphabet (c % 64), encode_alphabet s)),
  ),
)

abbrev pub raw_url : RawUrlEncoding
raw_url = record {
  encode = encode;
  length-encode = length-encode;
  encode_alphabet = encode_alphabet;
}
