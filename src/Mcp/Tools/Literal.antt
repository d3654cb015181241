-- ===== src/Mcp/Tools/Literal.antt =====
-- The literal of a vector (formatVector of internal/mcp/tools.go) read back.
use agentic_coop_db.Prelude.{
  ◌≡◌, refl, ap, ◌∙◌, List, [], ◌∷◌, ◌++◌, Bytes, All, Lacks, map, split, split-append, split_last,
  append-nil,
}
use agentic_coop_db.Mcp.Values.{Floats, more_numbers, format_vector}

module _ (Number : Type 0) (f : Floats Number) where
  abbrev pub HasNoComma : Number → Type 0
  HasNoComma x = Lacks b',' (f.print_g x)

  split_more :
      (x : Number) (xs : List Number)
      → HasNoComma x
      → All HasNoComma xs
      → split b',' (f.print_g x ++ more_numbers Number f xs) ≡ map f.print_g (x ∷ xs)
  split_more x [] h a = ap (split b',') (append-nil (f.print_g x)) ∙ split_last b',' (f.print_g x) h
  split_more x (y ∷ ys) h (a, b) =
      split-append b',' (f.print_g x) (f.print_g y ++ more_numbers Number f ys) h
      ∙ ap (λ z. f.print_g x ∷ z) (split_more y ys a b)

  -- The literal of a vector is a bracket, its numbers' texts, and a bracket: split at the commas, what
  -- is between gives the texts back, each number's in its place, if no text holds a comma.
  pub split-format_vector :
      (x : Number) (xs : List Number)
      → All HasNoComma (x ∷ xs)
      → (inner : Bytes) × (format_vector Number f (x ∷ xs) ≡ b'[' ∷ (inner ++ (b']' ∷ [])))
        × (split b',' inner ≡ map f.print_g (x ∷ xs))
  unfolding format_vector
  split-format_vector x xs (h, a) =
      (f.print_g x ++ more_numbers Number f xs, refl, split_more x xs h a)
