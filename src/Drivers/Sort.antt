-- ===== src/Drivers/Sort.antt =====
-- sort.SliceStable, as insertion: a stable sort leaves elements in their order unless `less` puts the
-- later one first.
use smart_deploy_linux.Prelude.Table.{count}
use smart_deploy_linux.Prelude.{
  ◌≡◌, refl, Bool, true, false, List, [], ◌∷◌, if◌then◌else◌, All, arith, Bool-cases, inl, inr,
}

module _ {ℓ} {A : Type ℓ} (less : A → A → Bool) where
  -- Before the elements that have to come after it.
  unfoldable pub insert : A → List A → List A
  insert x [] = x ∷ []
  insert x (y ∷ ys) = let rest = insert x ys in if less y x then y ∷ rest else x ∷ y ∷ ys

  unfoldable pub stable_sort : List A → List A
  unfolding insert
  stable_sort [] = []
  stable_sort (x ∷ xs) = insert x (stable_sort xs)

  -- No element comes before one that the order puts first.
  abbrev pub IsSorted : List A → Type 0
  IsSorted [] = Unit
  IsSorted (x ∷ xs) = All (λ y. less y x ≡ false) xs × IsSorted xs

  -- A sort moves elements and adds and drops none: every test counts as many.
  pub count-insert : (p : A → Bool) (x : A) (xs : List A) → count p (insert x xs) ≡ count p (x ∷ xs)
  unfolding insert count
  count-insert p x [] = refl
  count-insert p x (y ∷ ys) = ground (arith, count-insert p x ys)

  pub count-stable_sort : (p : A → Bool) (xs : List A) → count p (stable_sort xs) ≡ count p xs
  unfolding stable_sort count
  count-stable_sort p [] = refl
  count-stable_sort p (x ∷ xs) =
      ground (arith, count-insert p x (stable_sort xs), count-stable_sort p xs)

  pub All-insert {κ} : (P : A → Type κ) (x : A) (xs : List A) → P x → All P xs → All P (insert x xs)
  unfolding insert
  All-insert P x [] px h = (px, tt)
  All-insert P x (y ∷ ys) px h = elim (Bool-cases (less y x)) [
    | inl after ↦ rw after (h.0, All-insert P x ys px h.1)
    | inr here ↦ rw here (px, h)
  ]

  pub All-stable_sort {κ} : (P : A → Type κ) (xs : List A) → All P xs → All P (stable_sort xs)
  unfolding stable_sort
  All-stable_sort P [] h = tt
  All-stable_sort P (x ∷ xs) h = All-insert P x (stable_sort xs) h.0 (All-stable_sort P xs h.1)

  module _ (asym : (x y : A) → less x y ≡ true → less y x ≡ false)
      (trans : (x y z : A) → less y x ≡ false → less z y ≡ false → less z x ≡ false) where
    all_after :
        (x y : A) (ys : List A)
        → less y x ≡ false
        → All (λ z. less z y ≡ false) ys
        → All (λ z. less z x ≡ false) ys
    all_after x y [] h k = tt
    all_after x y (z ∷ zs) h k = (trans x y z h k.0, all_after x y zs h k.1)

    insert-IsSorted : (x : A) (xs : List A) → IsSorted xs → IsSorted (insert x xs)
    unfolding insert
    insert-IsSorted x [] h = (tt, tt)
    insert-IsSorted x (y ∷ ys) h = elim (Bool-cases (less y x)) [
      | inl after ↦
          rw after
            (All-insert (λ z. less z y ≡ false) x ys (asym y x after) h.0, insert-IsSorted x ys h.1)
      | inr here ↦ rw here ((here, all_after x y ys here h.0), h)
    ]

    pub stable_sort-IsSorted : (xs : List A) → IsSorted (stable_sort xs)
    unfolding stable_sort
    stable_sort-IsSorted [] = tt
    stable_sort-IsSorted (x ∷ xs) = insert-IsSorted x (stable_sort xs) (stable_sort-IsSorted xs)
