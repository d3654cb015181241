-- ===== src/Mcp/Values.antt =====
-- What encoding/json makes of the arguments of a tool: `any` and its type assertions. A float64 is a
-- parameter with what the tools do to it.
use agentic_coop_db.Prelude.{
  ℤ, Bool, Option, none, some, List, [], ◌∷◌, ◌++◌, Bytes, bytes_eq, if◌then◌else◌,
}

-- %g, the test `> 0`, and the conversion to int, which is the machine's where the value is no int.
pub record Floats (Number : Type 0) : Type 0 where
  pub print_g : Number → Bytes
  pub is_positive : Number → Bool
  pub to_int : Number → ℤ

module _ (Number : Type 0) where
  mutual
    pub data Value : Type 0 where
      null : Value
      boolean : Bool → Value
      number : Number → Value
      text : Bytes → Value
      array : Elements → Value
      object : Members → Value

    pub data Elements : Type 0 where
      no_elements : Elements
      element : Value → Elements → Elements

    pub data Members : Type 0 where
      no_members : Members
      member : Bytes → Value → Members → Members

  -- `[]any` as a list.
  unfoldable pub elements : Elements → List Value
  elements no_elements = []
  elements (element v vs) = v ∷ elements vs

  -- `m[key]`.
  unfoldable pub lookup : Members → Bytes → Option Value
  lookup no_members key = none
  lookup (member k v m) key = if bytes_eq k key then some v else lookup m key

  -- `s, _ := v.(string)`: the empty text where the assertion fails.
  abbrev pub text_or_empty : Option Value → Bytes
  text_or_empty (some (text s)) = s
  text_or_empty _ = []

  abbrev pub as_array : Option Value → Option (List Value)
  as_array (some (array vs)) = some (elements vs)
  as_array _ = none

  abbrev pub as_object : Option Value → Option Members
  as_object (some (object m)) = some m
  as_object _ = none

  abbrev pub as_number : Value → Option Number
  as_number (number x) = some x
  as_number _ = none

  module _ (f : Floats Number) where
    -- The numbers behind the first, each with a comma in front.
    abbrev pub more_numbers : List Number → Bytes
    more_numbers [] = []
    more_numbers (x ∷ xs) = b',' ∷ (f.print_g x ++ more_numbers xs)

    abbrev numbers_text : List Number → Bytes
    numbers_text [] = []
    numbers_text (x ∷ xs) = f.print_g x ++ more_numbers xs

    unfoldable pub format_vector : List Number → Bytes
    format_vector v = b'[' ∷ (numbers_text v ++ (b']' ∷ []))
