-- ===== src/Prelude/Sets.antt =====
-- A Go map[string]struct{} as the list of its keys.
use mathlib.Core.Path.{◌≡◌, refl}
use mathlib.Core.Bool.{Bool, true, false, ◌||◌}
use mathlib.Core.List.{List, [], ◌∷◌}
use native.Mathlib.Omega.{arith}
use agentic_coop_db.Prelude.Tests.{if◌then◌else◌}
use agentic_coop_db.Prelude.Text.{Bytes, bytes_eq, bytes_eq_iff}

unfoldable pub contains : List Bytes → Bytes → Bool
contains [] k = false
contains (x ∷ s) k = bytes_eq x k || contains s k

-- delete(s, k).
unfoldable pub delete : Bytes → List Bytes → List Bytes
delete k [] = []
delete k (x ∷ s) = if bytes_eq x k then delete k s else x ∷ delete k s

pub contains-cons :
    (x k : Bytes) (s : List Bytes)
    → contains (x ∷ s) k ≡ (if bytes_eq x k then true else contains s k)
unfolding contains
contains-cons x k s = ground arith

pub contains-delete :
    (x k : Bytes) (s : List Bytes)
    → contains (delete x s) k ≡ (if bytes_eq x k then false else contains s k)
unfolding contains delete
contains-delete x k [] = ground arith
contains-delete x k (y ∷ s) =
    ground (arith, contains-delete x k s, bytes_eq_iff y x, bytes_eq_iff y k, bytes_eq_iff x k)

pub contains-nil : (k : Bytes) → contains [] k ≡ false
unfolding contains
contains-nil k = refl
