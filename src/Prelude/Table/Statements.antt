-- ===== src/Prelude/Table/Statements.antt =====
-- The statements of SQL on a table, and the tests of its rows.
use smart_deploy_linux.Prelude.Tests.{ltb, if◌then◌else◌}
use Prim.Native.Nat.{ℕ, ◌+◌}
use mathlib.Core.Bool.{Bool, false, not, ◌||◌}
use mathlib.Core.Option.{Option, none, some}
use mathlib.Core.List.{List, [], ◌∷◌}

module _ {ℓ} {A : Type ℓ} where
  -- SELECT … WHERE p, of which the first row is read.
  unfoldable pub find : (A → Bool) → List A → Option A
  find p [] = none
  find p (x ∷ xs) = if p x then some x else find p xs

  -- SELECT … WHERE p.
  unfoldable pub select : (A → Bool) → List A → List A
  select p [] = []
  select p (x ∷ xs) = let rest = select p xs in if p x then x ∷ rest else rest

  -- UPDATE … SET f WHERE p.
  unfoldable pub update : (A → Bool) → (A → A) → List A → List A
  update p f [] = []
  update p f (x ∷ xs) = (if p x then f x else x) ∷ update p f xs

  -- DELETE … WHERE p.
  unfoldable pub delete : (A → Bool) → List A → List A
  delete p xs = select (λ x. not (p x)) xs

  unfoldable pub any : (A → Bool) → List A → Bool
  any p [] = false
  any p (x ∷ xs) = p x || any p xs

  -- SELECT count(*) … WHERE p.
  unfoldable pub count : (A → Bool) → List A → ℕ
  count p [] = 0
  count p (x ∷ xs) = (if p x then 1 else 0) + count p xs

  -- ORDER BY key DESC LIMIT 1. SQL leaves the order of equal keys open; here the later row wins.
  unfoldable pub newest_or : (A → ℕ) → Option A → List A → Option A
  newest_or key best [] = best
  newest_or key none (x ∷ xs) = newest_or key (some x) xs
  newest_or key (some b) (x ∷ xs) = newest_or key (some (if ltb (key x) (key b) then b else x)) xs

  unfoldable pub newest : (A → ℕ) → List A → Option A
  unfolding newest_or
  newest key xs = newest_or key none xs
