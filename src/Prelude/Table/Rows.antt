-- ===== src/Prelude/Table/Rows.antt =====
-- What holds of every row, and of the newest.
use smart_deploy_linux.Prelude.Lists.{All}
use smart_deploy_linux.Prelude.Tests.{ltb, Bool-cases}
use Prim.Native.Nat.{ℕ}
use mathlib.Core.Path.{◌≡◌}
use mathlib.Core.Bool.{Bool, true, ◌||◌}
use mathlib.Core.Logic.{inl, inr}
use mathlib.Core.Option.{some}
use mathlib.Core.List.{List, [], ◌∷◌}
use native.Mathlib.Omega.{arith}
use smart_deploy_linux.Prelude.Table.Statements.{find, select, update, any, newest_or, newest}

module _ {ℓ κ} {A : Type ℓ} (P : A → Type κ) where
  -- An UPDATE keeps what holds of every row, if it keeps it of the rows that it picks.
  pub All-update :
      (p : A → Bool) (f : A → A) (xs : List A)
      → ((x : A) → p x ≡ true → P x → P (f x))
      → All P xs
      → All P (update p f xs)
  unfolding update
  All-update p f [] keep h = tt
  All-update p f (x ∷ xs) keep h = (ground (arith, keep x), All-update p f xs keep h.1)

  pub All-find : (p : A → Bool) (xs : List A) {x : A} → All P xs → find p xs ≡ some x → P x
  unfolding find
  All-find p [] h e = ground arith
  All-find p (y ∷ xs) {x} h e = ground (arith, All-find p xs {x = x} h.1)

  pub All-select : (p : A → Bool) (xs : List A) → All P xs → All P (select p xs)
  unfolding select
  All-select p [] h = tt
  All-select p (x ∷ xs) h = ground (arith, All-select p xs h.1)

  -- The row of ORDER BY … LIMIT 1 is one of the rows.
  All-newest_or :
      (key : A → ℕ) (b : A) (xs : List A) {x : A}
      → P b
      → All P xs
      → newest_or key (some b) xs ≡ some x
      → P x
  unfolding newest_or
  All-newest_or key b [] pb h e = ground arith
  All-newest_or key b (y ∷ ys) {x} pb h e = elim (Bool-cases (ltb (key y) (key b))) [
    | inl older ↦ All-newest_or key b ys {x = x} pb h.1 (rw older at e)
    | inr newer ↦ All-newest_or key y ys {x = x} h.0 h.1 (rw newer at e)
  ]

  pub All-newest : (key : A → ℕ) (xs : List A) {x : A} → All P xs → newest key xs ≡ some x → P x
  unfolding newest newest_or
  All-newest key [] h e = ground arith
  All-newest key (y ∷ ys) {x} h e = All-newest_or key y ys {x = x} h.0 h.1 e

module _ {ℓ} {A : Type ℓ} where
  pub select-holds : (p : A → Bool) (xs : List A) → All (λ x. p x ≡ true) (select p xs)
  unfolding select
  select-holds p [] = tt
  select-holds p (x ∷ xs) = elim (Bool-cases (p x)) [
    | inl kept ↦ rw kept (kept, select-holds p xs)
    | inr gone ↦ rw gone (select-holds p xs)
  ]

  newest_or-any :
      (p : A → Bool) (key : A → ℕ) (b : A) (xs : List A) {x : A}
      → newest_or key (some b) xs ≡ some x
      → p x ≡ true
      → (p b || any p xs) ≡ true
  unfolding newest_or any
  newest_or-any p key b [] found h = ground arith
  newest_or-any p key b (y ∷ ys) {x} found h = elim (Bool-cases (ltb (key y) (key b))) [
    | inl older ↦ let rest = newest_or-any p key b ys {x = x} (rw older at found) h in ground arith
    | inr newer ↦ let rest = newest_or-any p key y ys {x = x} (rw newer at found) h in ground arith
  ]

  -- The row of ORDER BY … LIMIT 1 is there.
  pub newest-any :
      (p : A → Bool) (key : A → ℕ) (xs : List A) {x : A}
      → newest key xs ≡ some x
      → p x ≡ true
      → any p xs ≡ true
  unfolding newest newest_or any
  newest-any p key [] found h = cc
  newest-any p key (y ∷ ys) {x} found h = newest_or-any p key y ys {x = x} found h

  pub any-selected : (p q : A → Bool) (xs : List A) → any p (select q xs) ≡ true → any p xs ≡ true
  unfolding any select
  any-selected p q [] h = h
  any-selected p q (x ∷ xs) h = ground (arith, any-selected p q xs)
