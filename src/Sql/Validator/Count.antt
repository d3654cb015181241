-- ===== src/Sql/Validator/Count.antt =====
-- The number that countPlaceholders (internal/sql/validator.go) finds.
use agentic_coop_db.Prelude.{
  ℕ, ◌+◌, ◌-◌, ◌*◌, ◌^◌, ◌≤◌, ◌<◌, ◌≡◌, ◌⊎◌, inl, inr, refl, sym, ap, ◌∙◌, arith, ℤ, pos, negsuc,
  false, Option, none, some, List, [], ◌∷◌, ◌++◌, Bytes, All, length, length-append, take-append,
  drop-append, ◌≢◌,
}
use agentic_coop_db.Auth.Middleware.{itoa}
use agentic_coop_db.Auth.Middleware.Itoa.{itoa_lem, value, IsDigit}
use agentic_coop_db.Sql.Validator.{
  Token, token_text, decimal, atoi, placeholder, at_least, highest, dollar_number,
}

-- No placeholder among the tokens is larger than `n`.
abbrev pub IsBound : Bytes → ℕ → List Token → Type 0
IsBound sql n = All (λ tok. (k : ℕ) → placeholder sql tok ≡ some (pos k) → k ≤ n)

abbrev pub Occurs : Bytes → ℕ → List Token → Type 0
Occurs sql n [] = ⊥
Occurs sql n (tok ∷ tokens) = (placeholder sql tok ≡ some (pos n)) ⊎ Occurs sql n tokens

at_least-le : (max : ℕ) (o : Option ℤ) → max ≤ at_least max o
at_least-le max none = omega arith
at_least-le max (some (negsuc n)) = omega arith
at_least-le max (some (pos n)) = ground arith

highest-le : (sql : Bytes) (max : ℕ) (tokens : List Token) → max ≤ highest sql max tokens
unfolding highest
highest-le sql max [] = omega arith
highest-le sql max (tok ∷ tokens) = omega (
  arith,
  at_least-le max (placeholder sql tok),
  highest-le sql (at_least max (placeholder sql tok)) tokens,
)

at_least_bound : (max k : ℕ) (o : Option ℤ) → o ≡ some (pos k) → k ≤ at_least max o
at_least_bound max k none h = cc
at_least_bound max k (some (negsuc n)) h = ground arith
at_least_bound max k (some (pos n)) h = ground arith

highest-IsBound :
    (sql : Bytes) (max : ℕ) (tokens : List Token) → IsBound sql (highest sql max tokens) tokens
unfolding highest
highest-IsBound sql max [] = tt
highest-IsBound sql max (tok ∷ tokens) =
    let max' = at_least max (placeholder sql tok) in
    (
      (λ k h.
          omega (arith, at_least_bound max k (placeholder sql tok) h, highest-le sql max' tokens)),
      highest-IsBound sql max' tokens,
    )

at_least_new : (max : ℕ) (o : Option ℤ) → (at_least max o ≡ max) ⊎ (o ≡ some (pos (at_least max o)))
at_least_new max none = inl refl
at_least_new max (some (negsuc n)) = inl refl
at_least_new max (some (pos n)) = ground arith

highest-Occurs :
    (sql : Bytes) (max : ℕ) (tokens : List Token)
    → (highest sql max tokens ≡ max) ⊎ Occurs sql (highest sql max tokens) tokens
unfolding highest
highest-Occurs sql max [] = inl refl
highest-Occurs sql max (tok ∷ tokens) =
    let max' = at_least max (placeholder sql tok) in
    elim (highest-Occurs sql max' tokens) [
      | inr o ↦ inr (inr o)
      | inl e ↦ elim (at_least_new max (placeholder sql tok)) [
        | inl e' ↦ inl (e ∙ e')
        | inr e' ↦ inr (inl (e' ∙ ap (λ n. some (pos n)) (sym e)))
      ]
    ]

-- The count is the largest number of a placeholder token, or 0 where no token is a placeholder.
pub highest_lem :
    (sql : Bytes) (tokens : List Token)
    → IsBound sql (highest sql 0 tokens) tokens
      × ((highest sql 0 tokens ≡ 0) ⊎ Occurs sql (highest sql 0 tokens) tokens)
highest_lem sql tokens = (highest-IsBound sql 0 tokens, highest-Occurs sql 0 tokens)

decimal-value : (n : ℕ) (s : Bytes) → All IsDigit s → decimal n s ≡ some (value n s)
unfolding decimal
decimal-value n [] h = refl
decimal-value n (c ∷ s) (hc, hs) = ground (arith, decimal-value (n * 10 + (c - b'0')) s hs)

atoi-value :
    (c : ℕ) (s : Bytes)
    → All IsDigit (c ∷ s)
    → value 0 (c ∷ s) < 2 ^ 63
    → atoi (c ∷ s) ≡ some (pos (value 0 (c ∷ s)))
unfolding atoi
atoi-value c s h small = ground (arith, decimal-value 0 (c ∷ s) h)

itoa_zero : (k : ℕ) → k ≡ 0 → itoa false k ≢ []
unfolding itoa
itoa_zero k e h = ground arith

itoa-ne-nil : (k : ℕ) → k < 10 ^ 20 → itoa false k ≢ []
itoa-ne-nil k h e =
    let is_zero : k ≡ 0 = sym (itoa_lem k h).1 ∙ ap (value 0) e in itoa_zero k is_zero e

dollar_number-value :
    (s : Bytes)
    → s ≢ []
    → All IsDigit s
    → value 0 s < 2 ^ 63
    → dollar_number (b'$' ∷ s) ≡ some (pos (value 0 s))
dollar_number-value [] some_digit digits small = absurd (some_digit refl)
dollar_number-value (c ∷ s) some_digit digits small = atoi-value c s digits small

token_text-append :
    (before text after : Bytes)
    → 0 < length text
    → token_text
        (before ++ (text ++ after))
        (record { start = pos (length before); end = pos (length before + length text) })
      ≡ some text
unfolding token_text
token_text-append before text after h =
    let l = length-append before (text ++ after) in
    let l' = length-append text after in
    let e : length before + length text - length before ≡ length text = omega arith in
    rw (drop-append before (text ++ after), e, take-append text after) (ground arith)

placeholder_text :
    (sql text : Bytes) (tok : Token)
    → token_text sql tok ≡ some text
    → placeholder sql tok ≡ dollar_number text
unfolding placeholder
placeholder_text sql text tok e = rw (e, placeholder)

-- A token `$k` of the text, for a number of 63 bits, counts as the placeholder with that number.
pub placeholder-itoa :
    (before after : Bytes) (k : ℕ)
    → k < 2 ^ 63
    → placeholder (before ++ ((b'$' ∷ itoa false k) ++ after)) (record {
      start = pos (length before);
      end = pos (length before + length (b'$' ∷ itoa false k));
    })
      ≡ some (pos k)
placeholder-itoa before after k h =
    let (digits, same, _) = itoa_lem k (omega arith) in
    let text = b'$' ∷ itoa false k in
    placeholder_text (before ++ (text ++ after)) text
      (record { start = pos (length before); end = pos (length before + length text) })
      (token_text-append before text after (omega arith))
    ∙ dollar_number-value (itoa false k) (itoa-ne-nil k (omega arith)) digits (omega arith)
    ∙ ap (λ n. some (pos n)) same
