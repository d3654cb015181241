-- ===== src/Prelude/Text.antt =====
-- Go strings as lists of bytes: literals, equality, prefixes, and the functions of Go's package
-- strings that the program calls (HasPrefix, TrimPrefix, TrimSpace, IndexByte).
use Prim.Native.Nat.{ℕ, zero, suc}
use Prim.Native.Char.{code}
use Prim.Native.String.{String}
use mathlib.Core.Path.{◌≡◌, refl, sym, ap, ◌∙◌}
use mathlib.Core.Logic.{◌↔◌, ◌≢◌}
use mathlib.Core.Bool.{Bool, true, false, not, ◌&&◌, ◌||◌}
use mathlib.Core.List.{
  List, [], ◌∷◌, ◌++◌, reverse, reverse-reverse, reverse-append, reverse-cons, append_assoc,
  append-nil,
}
use mathlib.Core.Option
use mathlib.Core.Option.{Option, none, some}
use native.Mathlib.Omega.{arith}
use agentic_coop_db.Prelude.Tests.{nat_eq, nat_eq_iff, ltb, leb, if◌then◌else◌}
use agentic_coop_db.Prelude.Lists.{All, All-append}

abbrev pub Bytes : Type 0
Bytes = List ℕ

-- The code points of a literal: its bytes, since every literal here is ASCII.
abbrev pub codes : String → Bytes
codes String.[] = []
codes (String.◌∷◌ c s) = code c ∷ codes s

unfoldable pub bytes_eq : Bytes → Bytes → Bool
bytes_eq [] [] = true
bytes_eq (a ∷ s) (b ∷ t) = nat_eq a b && bytes_eq s t
bytes_eq _ _ = false

pub bytes_eq_iff : (s t : Bytes) → (bytes_eq s t ≡ true) ↔ (s ≡ t)
unfolding bytes_eq
bytes_eq_iff [] [] = ((λ _. refl), (λ _. refl))
bytes_eq_iff [] (b ∷ t) = ground arith
bytes_eq_iff (a ∷ s) [] = ground arith
bytes_eq_iff (a ∷ s) (b ∷ t) = ground (arith, bytes_eq_iff s t)

pub bytes_eq_refl : (s : Bytes) → bytes_eq s s ≡ true
bytes_eq_refl s = (bytes_eq_iff s s).1 refl

-- strings.HasPrefix and the rest behind the prefix, in one.
unfoldable pub cut_prefix : Bytes → Bytes → Option Bytes
cut_prefix [] s = some s
cut_prefix (p ∷ ps) [] = none
cut_prefix (p ∷ ps) (c ∷ s) = if nat_eq p c then cut_prefix ps s else none

-- strings.TrimPrefix(s, p), prefix first.
unfoldable pub trim_prefix : Bytes → Bytes → Bytes
unfolding cut_prefix
trim_prefix p s = Option.get_or (cut_prefix p s) s

-- unicode.IsSpace on ASCII: tab, line feed, vertical tab, form feed, carriage return, space.
unfoldable pub is_space : ℕ → Bool
is_space c = nat_eq c 9 || nat_eq c 10 || nat_eq c 11 || nat_eq c 12 || nat_eq c 13 || nat_eq c 32

-- The spaces of two bytes in UTF-8: U+0085 and U+00A0.
abbrev is_space_2 : ℕ → ℕ → Bool
is_space_2 a b = nat_eq a 0xC2 && (nat_eq b 0x85 || nat_eq b 0xA0)

-- The spaces of three bytes: U+1680, U+2000 to U+200A, U+2028, U+2029, U+202F, U+205F, U+3000.
abbrev is_space_3 : ℕ → ℕ → ℕ → Bool
is_space_3 a b c =
    (nat_eq a 0xE1 && nat_eq b 0x9A && nat_eq c 0x80)
    || (nat_eq a 0xE2
        && nat_eq b 0x80
        && ((leb 0x80 c && leb c 0x8A) || nat_eq c 0xA8 || nat_eq c 0xA9 || nat_eq c 0xAF))
    || (nat_eq a 0xE2 && nat_eq b 0x81 && nat_eq c 0x9F)
    || (nat_eq a 0xE3 && nat_eq b 0x80 && nat_eq c 0x80)

abbrev space_after : ℕ → Bytes → ℕ
space_after a [] = 0
space_after a (b ∷ []) = if is_space_2 a b then 2 else 0
space_after a (b ∷ c ∷ s) = if is_space_2 a b then 2 else if is_space_3 a b c then 3 else 0

abbrev space_before : ℕ → Bytes → ℕ
space_before c [] = 0
space_before c (b ∷ []) = if is_space_2 b c then 2 else 0
space_before c (b ∷ a ∷ s) = if is_space_2 b c then 2 else if is_space_3 a b c then 3 else 0

-- The number of bytes of the white space at the front, 0 for none; and at the back, of a text that is
-- given from its last byte on.
unfoldable pub front_space : Bytes → ℕ
front_space [] = 0
front_space (c ∷ s) = if is_space c then 1 else space_after c s

unfoldable pub back_space : Bytes → ℕ
back_space [] = 0
back_space (c ∷ s) = if is_space c then 1 else space_before c s

-- `skip` bytes belong to white space that was found.
unfoldable pub trim_from : (space : Bytes → ℕ) → (skip : ℕ) → Bytes → Bytes
trim_from space skip [] = []
trim_from space (suc k) (c ∷ s) = trim_from space k s
trim_from space zero (c ∷ s) = elim (space (c ∷ s)) [ zero ↦ c ∷ s | suc k ↦ trim_from space k s ]

-- strings.TrimSpace.
unfoldable pub trim_space : Bytes → Bytes
unfolding trim_from
trim_space s = reverse (trim_from back_space 0 (reverse (trim_from front_space 0 s)))

abbrev shift : Option ℕ → Option ℕ
shift none = none
shift (some i) = some (suc i)

-- strings.IndexByte, `none` for -1.
unfoldable pub index_byte : ℕ → Bytes → Option ℕ
index_byte b [] = none
index_byte b (c ∷ s) = if nat_eq c b then some 0 else shift (index_byte b s)

pub cut_prefix-append : (p s : Bytes) → cut_prefix p (p ++ s) ≡ some s
unfolding cut_prefix
cut_prefix-append [] s = refl
cut_prefix-append (c ∷ p) s = ground (arith, cut_prefix-append p s)

-- A text with a printing byte at each end is left alone by TrimSpace.
pub record IsTrimmed (s : Bytes) : Type 0 where
  pub front : trim_from front_space 0 s ≡ s
  pub back : trim_from back_space 0 (reverse s) ≡ reverse s

pub trim_space_of_IsTrimmed : (s : Bytes) → IsTrimmed s → trim_space s ≡ s
unfolding trim_space
trim_space_of_IsTrimmed s t = rw (t.front, t.back) (reverse-reverse s)

-- Of one byte in UTF-8, and no space.
unfoldable pub is_printing : ℕ → Bool
unfolding is_space
is_printing c = ltb c 0x80 && not (is_space c)

abbrev pub IsPrinting : ℕ → Type 0
IsPrinting c = is_printing c ≡ true

space_after_none : (c : ℕ) (s : Bytes) → IsPrinting c → front_space (c ∷ s) ≡ 0
unfolding front_space is_printing
space_after_none c [] h = ground arith
space_after_none c (b ∷ []) h = ground arith
space_after_none c (b ∷ a ∷ s) h = ground arith

space_before_none : (c : ℕ) (s : Bytes) → IsPrinting c → back_space (c ∷ s) ≡ 0
unfolding back_space is_printing
space_before_none c [] h = ground arith
space_before_none c (b ∷ []) h = ground arith
space_before_none c (b ∷ a ∷ s) h = ground arith

trim_from-none :
    (space : Bytes → ℕ) (c : ℕ) (s : Bytes) → space (c ∷ s) ≡ 0 → trim_from space 0 (c ∷ s) ≡ c ∷ s
unfolding trim_from
trim_from-none space c s h = rw (h, trim_from) refl

pub front-append :
    (s t : Bytes) → s ≢ [] → All IsPrinting s → trim_from front_space 0 (s ++ t) ≡ s ++ t
front-append [] t h a = absurd (h refl)
front-append (c ∷ s) t h a = trim_from-none front_space c (s ++ t) (space_after_none c (s ++ t) a.0)

pub back-append :
    (s t : Bytes) → s ≢ [] → All IsPrinting s → trim_from back_space 0 (s ++ t) ≡ s ++ t
back-append [] t h a = absurd (h refl)
back-append (c ∷ s) t h a = trim_from-none back_space c (s ++ t) (space_before_none c (s ++ t) a.0)

pub All-reverse : (s : Bytes) → All IsPrinting s → All IsPrinting (reverse s)
All-reverse [] a = tt
All-reverse (c ∷ s) (p, a) =
    rw (reverse-cons c s) (All-append IsPrinting (reverse s) (c ∷ []) (All-reverse s a) (p, tt))

pub reverse-ne-nil : (s : Bytes) → s ≢ [] → reverse s ≢ []
reverse-ne-nil s h e = h (sym (reverse-reverse s) ∙ ap reverse e)

-- A nonempty printing front and a nonempty printing back make a trimmed text.
pub IsTrimmed-append :
    (f m b : Bytes)
    → f ≢ []
    → All IsPrinting f
    → b ≢ []
    → All IsPrinting b
    → IsTrimmed (f ++ (m ++ b))
IsTrimmed-append f m b hf af hb ab = record {
  front = front-append f (m ++ b) hf af;
  back =
      let e : reverse (f ++ (m ++ b)) ≡ reverse b ++ (reverse m ++ reverse f) =
        simp (reverse-append, append_assoc) in
      rw e (back-append (reverse b) _ (reverse-ne-nil b hb) (All-reverse b ab));
}

-- strings.Split(s, string(sep)): the part under way comes first.
split_from : ℕ → Bytes → Bytes → List Bytes
split_from sep cur [] = cur ∷ []
split_from sep cur (c ∷ s) = elim (nat_eq c sep) [
  | true ↦ cur ∷ split_from sep [] s
  | false ↦ split_from sep (cur ++ (c ∷ [])) s
]

unfoldable pub split : ℕ → Bytes → List Bytes
unfolding split_from
split sep s = split_from sep [] s

abbrev pub Lacks : ℕ → Bytes → Type 0
Lacks b = All (λ c. nat_eq c b ≡ false)

split_from-append :
    (sep : ℕ) (cur p r : Bytes)
    → Lacks sep p
    → split_from sep cur (p ++ (sep ∷ r)) ≡ (cur ++ p) ∷ split_from sep [] r
unfolding split_from
split_from-append sep cur [] r h = rw append-nil (ground (arith, nat_eq_iff sep sep))
split_from-append sep cur (c ∷ p) r h =
    ground (arith, split_from-append sep (cur ++ (c ∷ [])) p r h.1, append_assoc cur (c ∷ []) p)

split_from_last : (sep : ℕ) (cur p : Bytes) → Lacks sep p → split_from sep cur p ≡ (cur ++ p) ∷ []
unfolding split_from
split_from_last sep cur [] h = rw append-nil
split_from_last sep cur (c ∷ p) h =
    ground (arith, split_from_last sep (cur ++ (c ∷ [])) p h.1, append_assoc cur (c ∷ []) p)

-- Splitting behind a part that lacks the separator gives that part first.
pub split-append :
    (sep : ℕ) (p r : Bytes) → Lacks sep p → split sep (p ++ (sep ∷ r)) ≡ p ∷ split sep r
unfolding split
split-append sep p r h = split_from-append sep [] p r h

pub split_last : (sep : ℕ) (p : Bytes) → Lacks sep p → split sep p ≡ p ∷ []
unfolding split
split_last sep p h = split_from_last sep [] p h
