-- ===== src/Prelude/Keys.antt =====
-- Tables with a primary key: no two rows have one key.
use smart_deploy_linux.Prelude.Lists.{All, All-append}
use smart_deploy_linux.Prelude.Table.{any, find, update, select, find-holds, All-find, All-select}
use smart_deploy_linux.Prelude.Tests.{◌==◌, if◌then◌else◌, ==_iff, ==_refl, Bool-cases}
use Prim.Native.Nat.{ℕ}
use mathlib.Core.Path.{◌≡◌, refl, sym, subst, ◌∙◌}
use mathlib.Core.Logic.{◌≢◌, inl, inr}
use mathlib.Core.Bool.{Bool, true, false, ◌&&◌}
use mathlib.Core.Option.{Option, none, some}
use mathlib.Core.List.{List, [], ◌∷◌, ◌++◌}
use native.Mathlib.Omega.{arith}

abbrev pub HasKeys {ℓ κ} : {A : Type ℓ} {K : Type κ} → (A → K) → List A → Type κ
HasKeys key [] = Unit
HasKeys key (x ∷ xs) = All (λ y. key y ≢ key x) xs × HasKeys key xs

module _ {ℓ κ} {A : Type ℓ} {K : Type κ} (key : A → K) where
  key-if : (f : A → A) (b : Bool) (x : A) → key (f x) ≡ key x → key (if b then f x else x) ≡ key x
  key-if f true x same = same
  key-if f false x same = refl

  fresh-update :
      (p : A → Bool) (f : A → A) (k : K) (xs : List A)
      → ((x : A) → key (f x) ≡ key x)
      → All (λ y. key y ≢ k) xs
      → All (λ y. key y ≢ k) (update p f xs)
  unfolding update
  fresh-update p f k [] same h = tt
  fresh-update p f k (x ∷ xs) same h =
      (rw (key-if f (p x) x (same x)) h.0, fresh-update p f k xs same h.1)

  -- An UPDATE that leaves the key column alone keeps the keys distinct.
  pub HasKeys-update :
      (p : A → Bool) (f : A → A) (xs : List A)
      → ((x : A) → key (f x) ≡ key x)
      → HasKeys key xs
      → HasKeys key (update p f xs)
  unfolding update
  HasKeys-update p f [] same h = tt
  HasKeys-update p f (x ∷ xs) same h = (
    rw (key-if f (p x) x (same x)) (fresh-update p f (key x) xs same h.0),
    HasKeys-update p f xs same h.1,
  )

  fresh-delete :
      (p : A → Bool) (k : K) (xs : List A)
      → All (λ y. key y ≢ k) xs
      → All (λ y. key y ≢ k) (select p xs)
  fresh-delete p k xs h = All-select (λ y. key y ≢ k) p xs h

  -- A part of the rows has distinct keys too.
  pub HasKeys-select : (p : A → Bool) (xs : List A) → HasKeys key xs → HasKeys key (select p xs)
  unfolding select
  HasKeys-select p [] h = tt
  HasKeys-select p (x ∷ xs) h = elim (Bool-cases (p x)) [
    | inl kept ↦ rw kept (fresh-delete p (key x) xs h.0, HasKeys-select p xs h.1)
    | inr gone ↦ rw gone (HasKeys-select p xs h.1)
  ]

  -- Of two conditions that a row meets, the first of which tests for a key, the first finds that row.
  pub find-and_key :
      (p q : A → Bool) (k : K) (xs : List A) {x y : A}
      → ((z : A) → p z ≡ true → key z ≡ k)
      → HasKeys key xs
      → find p xs ≡ some x
      → find (λ z. p z && q z) xs ≡ some y
      → x ≡ y
  unfolding find
  find-and_key p q k [] test h e f = cc
  find-and_key p q k (z ∷ xs) {x} {y} test h e f = elim (Bool-cases (p z)) [
    | inr other ↦ find-and_key p q k xs test h.1 (rw other at e) (rw other at f)
    | inl here ↦ elim (Bool-cases (q z)) [
      | inl both ↦ ground arith
      | inr not_q ↦
          let later : find (λ w. p w && q w) xs ≡ some y = ground arith in
          let apart = All-find (λ w. key w ≢ key z) (λ w. p w && q w) xs h.0 later in
          let holds = find-holds (λ w. p w && q w) xs later in
          absurd (apart (test y (ground arith) ∙ sym (test z here)))
    ]
  ]

  -- An INSERT with a new key keeps the keys distinct.
  pub HasKeys-append :
      (p : A → Bool) (xs : List A) (y : A)
      → ((z : A) → key z ≡ key y → p z ≡ true)
      → HasKeys key xs
      → find p xs ≡ none
      → HasKeys key (xs ++ y ∷ [])
  unfolding find
  HasKeys-append p [] y test h fresh = (tt, tt)
  HasKeys-append p (x ∷ xs) y test h fresh = elim (Bool-cases (p x)) [
    | inl taken ↦ absurd (ground arith)
    | inr free ↦ (
      All-append (λ z. key z ≢ key x) xs (y ∷ []) h.0 ((λ e. cc (free, test x (sym e))), tt),
      HasKeys-append p xs y test h.1 (rw free at fresh),
    )
  ]

module _ {ℓ} {A : Type ℓ} (key : A → ℕ) where
  -- The row that a key finds.
  abbrev pub row : ℕ → List A → Option A
  row k = find (λ x. key x == k)

module _ {ℓ} {A : Type ℓ} (key : A → ℕ) where
  -- A row that some condition finds is there under its key.
  pub any-own :
      (p : A → Bool) (xs : List A) {x : A}
      → find p xs ≡ some x
      → any (λ y. key y == key x) xs ≡ true
  unfolding find any
  any-own p [] found = cc
  any-own p (y ∷ xs) {x} found = elim (Bool-cases (p y)) [
    | inl here ↦ let y-x : y ≡ x = ground arith in rw y-x (ground (arith, ==_refl (key x)))
    | inr later ↦ ground (arith, any-own p xs {x = x} (rw later at found))
  ]

  -- A row that some condition finds is the one that its key finds.
  pub row-find :
      (p : A → Bool) (xs : List A) {x : A}
      → HasKeys key xs
      → find p xs ≡ some x
      → row key (key x) xs ≡ some x
  unfolding find
  row-find p [] keys found = ground arith
  row-find p (y ∷ xs) {x} keys found = elim (Bool-cases (p y)) [
    | inl here ↦ let y-x : y ≡ x = ground arith in rw y-x (ground (arith, ==_refl (key x)))
    | inr later ↦
        let found' = rw later at found in
        let apart = All-find (λ z. key z ≢ key y) p xs keys.0 found' in
        elim (Bool-cases (key y == key x)) [
          | inl same ↦ absurd (apart (sym ((==_iff (key y) (key x)).0 same)))
          | inr other ↦ rw other (row-find p xs keys.1 found')
        ]
  ]

module _ {ℓ} {A : Type ℓ} (key : A → ℕ) where
  found_after :
      (x : A) (xs ys : List A)
      → All (λ y. key y ≢ key x) ys
      → All (λ y. row key (key y) xs ≡ some y) ys
      → All (λ y. row key (key y) (x ∷ xs) ≡ some y) ys
  unfolding find
  found_after x xs [] apart h = tt
  found_after x xs (y ∷ ys) apart h = elim (Bool-cases (key x == key y)) [
    | inl same ↦ absurd (apart.0 (sym ((==_iff (key x) (key y)).0 same)))
    | inr other ↦ (rw other h.0, found_after x xs ys apart.1 h.1)
  ]

  -- Every row of a table is the one that its key finds.
  pub rows-found : (xs : List A) → HasKeys key xs → All (λ x. row key (key x) xs ≡ some x) xs
  unfolding find
  rows-found [] keys = tt
  rows-found (x ∷ xs) keys =
      (rw (==_refl (key x)), found_after x xs xs keys.0 (rows-found xs keys.1))

module _ {ℓ κ} {A : Type ℓ} (key : A → ℕ) (P : A → Type κ) where
  skip-update :
      (f : A → A) (k : ℕ) (xs : List A)
      → All (λ y. key y ≢ k) xs
      → All P xs
      → All P (update (λ y. key y == k) f xs)
  unfolding update
  skip-update f k [] fresh h = tt
  skip-update f k (x ∷ xs) fresh h = (ground (arith, fresh.0, h.0), skip-update f k xs fresh.1 h.1)

  -- An UPDATE by the key changes one row, so only that row has to be looked at.
  pub All-update_row :
      (f : A → A) (k : ℕ) (xs : List A) {x : A}
      → HasKeys key xs
      → row key k xs ≡ some x
      → P (f x)
      → All P xs
      → All P (update (λ y. key y == k) f xs)
  unfolding update find
  All-update_row f k [] keys found new h = tt
  All-update_row f k (y ∷ xs) {x} keys found new h = elim (Bool-cases (key y == k)) [
    | inl here ↦
        let y-x : y ≡ x = ground arith in
        let skipped = skip-update f k xs (rw ((==_iff (key y) k).0 here) at keys.0) h.1 in
        rw here (subst (λ z. P (f z)) (sym y-x) new, skipped)
    | inr later ↦ rw later (h.0, All-update_row f k xs keys.1 (ground arith) new h.1)
  ]
