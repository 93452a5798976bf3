-- ===== src/Edge/Evict.antt =====
-- evictFor of services/edge-agent/cmd/edge-agent/cache.go.
use smart_deploy_linux.Prelude.{
  ℕ, ◌+◌, ◌-◌, ◌≤◌, ◌<◌, ◌≡◌, ◌↔◌, ◌⊎◌, inl, inr, refl, ap, Bool, true, List, [], ◌∷◌, ◌++◌, leb,
  if◌then◌else◌, arith, Bool-cases,
}
use smart_deploy_linux.Prelude.Table.{select}
use smart_deploy_linux.Drivers.Sort.{stable_sort, insert, IsSorted, stable_sort-IsSorted}
use smart_deploy_linux.Edge.{File, size_of, total, evict_oldest, evict_for, is_older}

total-insert : (f : File) (fs : List File) → total (insert is_older f fs) ≡ size_of f + total fs
unfolding total insert
total-insert f [] = omega arith
total-insert f (g ∷ fs) = ground (arith, total-insert f fs)

total-sort : (fs : List File) → total (stable_sort is_older fs) ≡ total fs
unfolding total stable_sort
total-sort [] = refl
total-sort (f ∷ fs) = omega (arith, total-insert f (stable_sort is_older fs), total-sort fs)

-- What evictFor cannot remove.
unfoldable pub held : (File → Bool) → List File → ℕ
held stuck [] = 0
held stuck (f ∷ fs) = (if stuck f then size_of f else 0) + held stuck fs

held-total : (stuck : File → Bool) (fs : List File) → held stuck fs ≤ total fs
unfolding held total
held-total stuck [] = omega arith
held-total stuck (f ∷ fs) = ground (arith, held-total stuck fs)

-- The loop keeps count: the total it returns is that of the files left, beside the `kept` bytes of the
-- files that it has passed over; and it stops only where the object fits or nothing else can go.
evict_oldest_lem :
    (stuck : File → Bool) (max need : ℕ) (es : List File) (sum kept : ℕ)
    → sum ≡ kept + total es
    → let out = evict_oldest stuck max need sum es in
      (out.1 ≡ kept + total out.0)
      × ((out.1 + need ≤ max) ⊎ (out.1 ≡ kept + held stuck es))
      × (kept + held stuck es ≤ out.1)
unfolding evict_oldest total held
evict_oldest_lem stuck max need [] sum kept h = (h, inr h, omega arith)
evict_oldest_lem stuck max need (e ∷ es) sum kept h = elim (Bool-cases (leb (sum + need) max)) [
  | inl fits ↦
      let less = held-total stuck (e ∷ es) in rw fits (h, inl (ground arith), (omega (arith, less)))
  | inr full ↦ elim (Bool-cases (stuck e)) [
    | inl stays ↦
        let (counted, stop, least) =
          evict_oldest_lem stuck max need es sum (kept + size_of e) (omega arith) in
        rw (full, stays)
          (
            omega arith,
            elim stop [ inl fits ↦ inl fits | inr rest ↦ inr (omega arith) ],
            omega arith,
          )
    | inr goes ↦
        let (counted, stop, least) =
          evict_oldest_lem stuck max need es (sum - size_of e) kept (omega arith) in
        rw (full, goes)
          (counted, elim stop [ inl fits ↦ inl fits | inr rest ↦ inr (omega arith) ], omega arith)
  ]
]

held-insert :
    (stuck : File → Bool) (f : File) (fs : List File)
    → held stuck (insert is_older f fs) ≡ held stuck (f ∷ fs)
unfolding held insert
held-insert stuck f [] = refl
held-insert stuck f (g ∷ fs) = ground (arith, held-insert stuck f fs)

held-sort :
    (stuck : File → Bool) (fs : List File) → held stuck (stable_sort is_older fs) ≡ held stuck fs
unfolding held stable_sort
held-sort stuck [] = refl
held-sort stuck (f ∷ fs) =
    ground (arith, held-insert stuck f (stable_sort is_older fs), held-sort stuck fs)

-- evictFor succeeds exactly if the object fits beside the files that cannot be removed.
pub evict_for_iff :
    (stuck : File → Bool) (max need : ℕ) (files : List File)
    → ((evict_for stuck max need files).1 ≡ true) ↔ (held stuck files + need ≤ max)
unfolding evict_for
evict_for_iff stuck max need files =
    let sorted = stable_sort is_older files in
    let (counted, stop, least) =
      evict_oldest_lem stuck max need sorted (total files) 0 (omega (arith, total-sort files)) in
    ground (arith, counted, stop, least, held-sort stuck files, held-total stuck files)

-- After a success the object fits beside all the files that are left.
pub evict_for_fits :
    (stuck : File → Bool) (max need : ℕ) (files : List File)
    → (evict_for stuck max need files).1 ≡ true
    → total (evict_for stuck max need files).0 + need ≤ max
unfolding evict_for
evict_for_fits stuck max need files h =
    let sorted = stable_sort is_older files in
    let (counted, stop, least) =
      evict_oldest_lem stuck max need sorted (total files) 0 (omega (arith, total-sort files)) in
    ground (arith, counted)

oldest_first :
    (stuck : File → Bool) (max need : ℕ) (es : List File) (sum : ℕ)
    → (gone : List File) × (rest : List File) × (es ≡ gone ++ rest)
      × ((evict_oldest stuck max need sum es).0 ≡ select stuck gone ++ rest)
unfolding evict_oldest select
oldest_first stuck max need [] sum = ([], [], refl, refl)
oldest_first stuck max need (e ∷ es) sum = elim (Bool-cases (leb (sum + need) max)) [
  | inl fits ↦ ([], e ∷ es, refl, rw fits)
  | inr full ↦ elim (Bool-cases (stuck e)) [
    | inl stays ↦
        let (gone, rest, split, left) = oldest_first stuck max need es sum in
        (e ∷ gone, rest, ap (◌∷◌ e) split, rw (full, stays) (ap (◌∷◌ e) left))
    | inr goes ↦
        let (gone, rest, split, left) = oldest_first stuck max need es (sum - size_of e) in
        (e ∷ gone, rest, ap (◌∷◌ e) split, rw (full, goes) left)
  ]
]

-- Where the object does not fit, evictFor goes through the files from the least recently used: of a
-- first part of that order it leaves just what cannot be removed, and it leaves all of the rest.
pub evict_for_oldest :
    (stuck : File → Bool) (max need : ℕ) (files : List File)
    → max < total files + need
    → (gone : List File) × (rest : List File) × (stable_sort is_older files ≡ gone ++ rest)
      × ((evict_for stuck max need files).0 ≡ select stuck gone ++ rest)
      × IsSorted is_older (gone ++ rest)
unfolding evict_for
evict_for_oldest stuck max need files full =
    let sorted = stable_sort is_older files in
    let (gone, rest, split, left) = oldest_first stuck max need sorted (total files) in
    let in_order =
      stable_sort-IsSorted is_older (λ x y h. ground arith) (λ x y z h k. ground arith) files in
    (gone, rest, split, ground (arith, left), rw split at in_order)
