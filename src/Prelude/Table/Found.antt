-- ===== src/Prelude/Table/Found.antt =====
-- Which row a SELECT reads after other statements.
use smart_deploy_linux.Prelude.Tests.{if◌then◌else◌, Bool-cases}
use mathlib.Core.Path.{◌≡◌, refl, ap}
use mathlib.Core.Bool.{Bool, true, false, ◌&&◌}
use mathlib.Core.Logic.{inl, inr}
use mathlib.Core.Option
use mathlib.Core.Option.{Option, none, some}
use mathlib.Core.List.{List, [], ◌∷◌, ◌++◌}
use native.Mathlib.Omega.{arith}
use smart_deploy_linux.Prelude.Table.Statements.{find, select, update, delete}

module _ {ℓ} {A : Type ℓ} where
  -- The rows that an UPDATE picks are still the first to be found, if it keeps what `p` reads.
  pub find-update :
      (p : A → Bool) (f : A → A) (xs : List A)
      → ((x : A) → p (f x) ≡ p x)
      → find p (update p f xs) ≡ Option.map f (find p xs)
  unfolding find update
  find-update p f [] h = refl
  find-update p f (x ∷ xs) h = ground (arith, find-update p f xs h, h x)

  pub find-ext : (p q : A → Bool) (xs : List A) → ((x : A) → p x ≡ q x) → find p xs ≡ find q xs
  unfolding find
  find-ext p q [] h = refl
  find-ext p q (x ∷ xs) h = rw (h x, find-ext p q xs h)

  -- No row meets a condition if none meets a weaker one.
  pub find-weaker :
      (p q : A → Bool) (xs : List A)
      → ((x : A) → q x ≡ true → p x ≡ true)
      → find p xs ≡ none
      → find q xs ≡ none
  unfolding find
  find-weaker p q [] weaker h = refl
  find-weaker p q (x ∷ xs) weaker h = ground (arith, find-weaker p q xs weaker, weaker x)

  -- The rows of an UPDATE with a condition of its own.
  pub find-update_other :
      (p q : A → Bool) (f : A → A) (xs : List A)
      → ((x : A) → p (f x) ≡ p x)
      → find p (update q f xs) ≡ Option.map (λ x. if q x then f x else x) (find p xs)
  unfolding find update
  find-update_other p q f [] h = refl
  find-update_other p q f (x ∷ xs) h = ground (arith, find-update_other p q f xs h, h x)

  pub find-holds : (p : A → Bool) (xs : List A) {x : A} → find p xs ≡ some x → p x ≡ true
  unfolding find
  find-holds p [] h = ground arith
  find-holds p (y ∷ xs) {x} h = ground (arith, find-holds p xs {x = x})

  -- The first row that meets one condition is the first that meets it and another, if it does.
  pub find-and :
      (p q : A → Bool) (xs : List A) {x : A}
      → find p xs ≡ some x
      → q x ≡ true
      → find (λ y. p y && q y) xs ≡ some x
  unfolding find
  find-and p q [] h k = cc
  find-and p q (y ∷ xs) {x} h k = elim (Bool-cases (p y)) [
    | inl here ↦ let e : y ≡ x = ground arith in rw e (ground arith)
    | inr there ↦ rw there (find-and p q xs (rw there at h) k)
  ]

  pub find-append_none :
      (p : A → Bool) (xs : List A) (y : A)
      → find p xs ≡ none
      → find p (xs ++ y ∷ []) ≡ (if p y then some y else none)
  unfolding find
  find-append_none p [] y h = refl
  find-append_none p (x ∷ xs) y h = ground (arith, find-append_none p xs y)

  pub find-append_some :
      (p : A → Bool) (xs ys : List A) {x : A} → find p xs ≡ some x → find p (xs ++ ys) ≡ some x
  unfolding find
  find-append_some p [] ys h = ground arith
  find-append_some p (y ∷ xs) ys {x} h = ground (arith, find-append_some p xs ys {x = x})

  pub find-delete :
      (p q : A → Bool) (xs : List A)
      → ((x : A) → p x ≡ true → q x ≡ false)
      → find p (delete q xs) ≡ find p xs
  unfolding find delete select
  find-delete p q [] apart = refl
  find-delete p q (x ∷ xs) apart = ground (arith, find-delete p q xs apart, apart x)

  -- An UPDATE of rows that do not meet a condition, before it and after.
  pub find-update_apart :
      (p q : A → Bool) (f : A → A) (xs : List A)
      → ((x : A) → q x ≡ true → p x ≡ false)
      → ((x : A) → q x ≡ true → p (f x) ≡ false)
      → find p (update q f xs) ≡ find p xs
  unfolding find update
  find-update_apart p q f [] before after = refl
  find-update_apart p q f (x ∷ xs) before after =
      let rest = find-update_apart p q f xs before after in
      elim (Bool-cases (q x)) [
        | inl hit ↦ rw (hit, before x hit, after x hit) rest
        | inr miss ↦ rw miss (ap (λ r. if p x then some x else r) rest)
      ]
