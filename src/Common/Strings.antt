-- ===== src/Common/Strings.antt =====
-- A `std::string` is the list of its bytes.
use Prim.Native.Nat.{ℕ}
use Prim.Native.Char.{code}
use Prim.Native.String.{String}
use mathlib.Core.Path.{◌≡◌, refl}
use mathlib.Core.Logic.{◌↔◌}
use mathlib.Core.Bool.{Bool, true, false, ◌&&◌}
use mathlib.Core.List.{List, [], ◌∷◌}
use native.Mathlib.Omega.{arith}
use steamos_containerized.Common.Tests.{◌==◌}

abbrev pub Text : Type 0
Text = List ℕ

-- A literal of the source. It stays shut, so that proofs see its name and not its bytes.
unfoldable pub text : String → Text
text String.[] = []
text (String.◌∷◌ c s) = code c ∷ text s

infix 50 ◌=?◌
-- `==` on strings
unfoldable pub ◌=?◌ : Text → Text → Bool
[] =? [] = true
(x ∷ xs) =? (y ∷ ys) = x == y && xs =? ys
_ =? _ = false

pub =?_iff : (a b : Text) → ((a =? b) ≡ true) ↔ (a ≡ b)
unfolding ◌=?◌
=?_iff (x ∷ a) (y ∷ b) = ground (arith, =?_iff a b)
=?_iff _ _ = ground arith

pub =?_refl : (a : Text) → (a =? a) ≡ true
=?_refl a = (=?_iff a a).1 refl

-- `empty()`
abbrev pub is_empty : Text → Bool
is_empty [] = true
is_empty (c ∷ cs) = false
