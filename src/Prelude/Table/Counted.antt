-- ===== src/Prelude/Table/Counted.antt =====
-- How many rows meet a condition, and whether any does.
use smart_deploy_linux.Prelude.Lists.{length}
use Prim.Native.Nat.{◌+◌, ◌≤◌, ◌<◌}
use mathlib.Core.Path.{◌≡◌, refl}
use mathlib.Core.Bool.{Bool, true, false, ◌||◌}
use mathlib.Core.Logic.{◌↔◌}
use mathlib.Core.Option.{some}
use mathlib.Core.List.{List, [], ◌∷◌, ◌++◌}
use native.Mathlib.Omega.{arith}
use smart_deploy_linux.Prelude.Table.Statements.{find, select, update, delete, any, count}

module _ {ℓ} {A : Type ℓ} where
  pub length-update : (p : A → Bool) (f : A → A) (xs : List A) → length (update p f xs) ≡ length xs
  unfolding update
  length-update p f [] = refl
  length-update p f (x ∷ xs) = omega (arith, length-update p f xs)

  pub length-select : (p : A → Bool) (xs : List A) → length (select p xs) ≤ length xs
  unfolding select
  length-select p [] = omega arith
  length-select p (x ∷ xs) = ground (arith, length-select p xs)

  pub count-append : (p : A → Bool) (xs ys : List A) → count p (xs ++ ys) ≡ count p xs + count p ys
  unfolding count
  count-append p [] ys = omega arith
  count-append p (x ∷ xs) ys = omega (arith, count-append p xs ys)

  -- A DELETE of other rows than those counted.
  pub count-delete :
      (p q : A → Bool) (xs : List A)
      → ((x : A) → p x ≡ true → q x ≡ false)
      → count p (delete q xs) ≡ count p xs
  unfolding count delete select
  count-delete p q [] apart = refl
  count-delete p q (x ∷ xs) apart = ground (arith, count-delete p q xs apart, apart x)

  pub select-delete :
      (p q : A → Bool) (xs : List A)
      → ((x : A) → p x ≡ true → q x ≡ false)
      → select p (delete q xs) ≡ select p xs
  unfolding delete select
  select-delete p q [] apart = refl
  select-delete p q (x ∷ xs) apart = ground (arith, select-delete p q xs apart, apart x)

  pub any-append : (p : A → Bool) (xs ys : List A) → any p (xs ++ ys) ≡ (any p xs || any p ys)
  unfolding any
  any-append p [] ys = refl
  any-append p (x ∷ xs) ys = ground (arith, any-append p xs ys)

  pub any-found : (p : A → Bool) (xs : List A) {x : A} → find p xs ≡ some x → any p xs ≡ true
  unfolding any find
  any-found p [] found = cc
  any-found p (y ∷ xs) {x} found = ground (arith, any-found p xs {x = x})

  pub any-weaker :
      (p q : A → Bool) (xs : List A)
      → ((x : A) → p x ≡ true → q x ≡ true)
      → any p xs ≡ true
      → any q xs ≡ true
  unfolding any
  any-weaker p q [] weaker h = h
  any-weaker p q (x ∷ xs) weaker h = ground (arith, any-weaker p q xs weaker, weaker x)

  pub any-update :
      (p q : A → Bool) (f : A → A) (xs : List A)
      → ((x : A) → p x ≡ true → p (f x) ≡ true)
      → any p xs ≡ true
      → any p (update q f xs) ≡ true
  unfolding any update
  any-update p q f [] keeps h = h
  any-update p q f (x ∷ xs) keeps h = ground (arith, any-update p q f xs keeps, keeps x)

  pub any-delete :
      (p q : A → Bool) (xs : List A)
      → ((x : A) → p x ≡ true → q x ≡ false)
      → any p (delete q xs) ≡ any p xs
  unfolding any delete select
  any-delete p q [] apart = refl
  any-delete p q (x ∷ xs) apart = ground (arith, any-delete p q xs apart, apart x)

  pub any-count : (p : A → Bool) (xs : List A) → (any p xs ≡ true) ↔ (0 < count p xs)
  unfolding any count
  any-count p [] = ground arith
  any-count p (x ∷ xs) = ground (arith, any-count p xs)

  -- A condition that implies another holds of no more rows.
  pub count-weaker :
      (p q : A → Bool) (xs : List A) → ((x : A) → q x ≡ true → p x ≡ true) → count q xs ≤ count p xs
  unfolding count
  count-weaker p q [] weaker = omega arith
  count-weaker p q (x ∷ xs) weaker = ground (arith, count-weaker p q xs weaker, weaker x)
