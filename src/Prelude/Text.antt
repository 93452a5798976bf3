-- ===== src/Prelude/Text.antt =====
-- Go strings compared with `<`, as lists of bytes or code points, and strings.HasPrefix.
use smart_deploy_linux.Prelude.Tests.{ltb, ◌==◌}
use smart_deploy_linux.Prelude.Lists.{Bytes}
use mathlib.Core.Path.{◌≡◌, refl}
use mathlib.Core.Bool.{Bool, true, false, ◌&&◌, ◌||◌}
use mathlib.Core.List.{[], ◌∷◌}
use native.Mathlib.Omega.{arith}

unfoldable pub lex_ltb : Bytes → Bytes → Bool
lex_ltb [] [] = false
lex_ltb [] (y ∷ b) = true
lex_ltb (x ∷ a) [] = false
lex_ltb (x ∷ a) (y ∷ b) = ltb x y || (x == y && lex_ltb a b)

-- The second text starts with the first.
unfoldable pub has_prefix : Bytes → Bytes → Bool
has_prefix [] s = true
has_prefix (x ∷ p) [] = false
has_prefix (x ∷ p) (y ∷ s) = x == y && has_prefix p s

pub lex_asym : (a b : Bytes) → lex_ltb a b ≡ true → lex_ltb b a ≡ false
unfolding lex_ltb
lex_asym [] [] h = refl
lex_asym [] (y ∷ b) h = refl
lex_asym (x ∷ a) [] h = ground arith
lex_asym (x ∷ a) (y ∷ b) h = ground (arith, lex_asym a b)

pub lex_trans : (a b c : Bytes) → lex_ltb b a ≡ false → lex_ltb c b ≡ false → lex_ltb c a ≡ false
unfolding lex_ltb
lex_trans [] [] c h k = k
lex_trans [] (y ∷ b) [] h k = refl
lex_trans [] (y ∷ b) (z ∷ c) h k = refl
lex_trans (x ∷ a) [] c h k = ground arith
lex_trans (x ∷ a) (y ∷ b) [] h k = ground arith
lex_trans (x ∷ a) (y ∷ b) (z ∷ c) h k = ground (arith, lex_trans a b c)

pub lex_total : (a b : Bytes) → lex_ltb a b ≡ false → lex_ltb b a ≡ false → a ≡ b
unfolding lex_ltb
lex_total [] [] h k = refl
lex_total [] (y ∷ b) h k = cc
lex_total (x ∷ a) [] h k = cc
lex_total (x ∷ a) (y ∷ b) h k = ground (arith, lex_total a b)

pub lex_irrefl : (a : Bytes) → lex_ltb a a ≡ false
unfolding lex_ltb
lex_irrefl [] = refl
lex_irrefl (x ∷ a) = ground (arith, lex_irrefl a)
