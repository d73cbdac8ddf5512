-- ===== src/Shared/Lower.antt =====
-- The laws of `to_lower`.
use Prim.Native.Nat.{ℕ, ◌+◌}
use Prim.Native.Char.{Char, code}
use mathlib.Core.Path.{◌≡◌, refl}
use mathlib.Core.Bool.{◌&&◌, false}
use mathlib.Core.List.{List, [], ◌∷◌}
use native.Mathlib.Omega.{arith}
use climate_chain.Shared.Tests.{ltb, leb, if◌then◌else◌}
use climate_chain.Shared.Lists.{length}
use climate_chain.Shared.Text.{letters, lower_from, lower_char}

-- The pairs are the code points from `n` on, each with the one 32 above it.
abbrev Consecutive : ℕ → List (Char × Char) → Type 0
Consecutive n [] = Unit
Consecutive n ((upper, lower) ∷ pairs) =
    (code upper ≡ n) × (code lower ≡ n + 32) × Consecutive (n + 1) pairs

code-lower_from :
    (n : ℕ) (pairs : List (Char × Char)) (c : Char)
    → Consecutive n pairs
    → code (lower_from pairs c)
      ≡ (if leb n (code c) && ltb (code c) (n + length pairs) then code c + 32 else code c)
unfolding lower_from
code-lower_from n [] c h = ground arith
code-lower_from n ((upper, lower) ∷ pairs) c (at, moved, rest) =
    ground (arith, code-lower_from (n + 1) pairs c rest)

-- The letters A to Z move by 32 code points, and nothing else moves.
pub code-lower_char :
    (c : Char)
    → code (lower_char c) ≡ (if leb 65 (code c) && ltb (code c) 91 then code c + 32 else code c)
unfolding lower_char
code-lower_char c = code-lower_from 65 letters c (omega arith)

lower_from-eq_self :
    (n : ℕ) (pairs : List (Char × Char)) (c : Char)
    → Consecutive n pairs
    → (leb n (code c) && ltb (code c) (n + length pairs)) ≡ false
    → lower_from pairs c ≡ c
unfolding lower_from
lower_from-eq_self n [] c h out = refl
lower_from-eq_self n ((upper, lower) ∷ pairs) c (at, moved, rest) out =
    ground (arith, lower_from-eq_self (n + 1) pairs c rest)

pub lower_char_idem : (c : Char) → lower_char (lower_char c) ≡ lower_char c
unfolding lower_char
lower_char_idem c =
    lower_from-eq_self 65 letters (lower_char c) (omega arith) (ground (arith, code-lower_char c))
