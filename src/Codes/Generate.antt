-- ===== src/Codes/Generate.antt =====
-- Generate makes canonical codes, uniformly, and the server accepts what it has issued.
use smart_deploy_linux.Prelude.{
  ℕ, zero, suc, ◌+◌, ◌%◌, ◌<◌, ◌≡◌, refl, ap, Bool, true, ◌&&◌, some, [], ◌∷◌, Bytes, length,
  get_or, ◌==◌, if◌then◌else◌, All, ==_iff, ◌≤◌, Option-cases, Bool-cases, inl, inr, arith,
}
use smart_deploy_linux.Schema.{ok}
use smart_deploy_linux.Codes.{
  alphabet, contains_byte, normalize, is_taken, letter, generate_letter, generate_letters, generate,
  grouped,
}
use smart_deploy_linux.Codes.Canonical.{IsLetter, IsCode, grouped-IsCode, normalize-IsCode_self}

get_or-All : (P : ℕ → Type 0) (d i : ℕ) (xs : Bytes) → All P xs → i < length xs → P (get_or xs i d)
get_or-All P d i [] h lt = elim lt [ ]
get_or-All P d zero (x ∷ xs) h lt = h.0
get_or-All P d (suc i) (x ∷ xs) h lt = get_or-All P d i xs h.1 (omega arith)

alphabet_letters : All IsLetter alphabet
alphabet_letters = ground arith

letter-IsLetter : (b : ℕ) → IsLetter (letter b)
letter-IsLetter b = get_or-All IsLetter 0 (b % 31) alphabet alphabet_letters (omega arith)

generate_letter-IsLetter :
    (bs : Bytes) (c : ℕ) (rest : Bytes) → generate_letter bs ≡ some (c, rest) → IsLetter c
unfolding generate_letter
generate_letter-IsLetter [] c rest h = cc
generate_letter-IsLetter (b ∷ bs) c rest h = elim (Bool-cases (is_taken b)) [
  | inl taken ↦ rw (← (letter_of taken)) (letter-IsLetter b)
  | inr skipped ↦ generate_letter-IsLetter bs c rest (rw skipped at h)
]
  where
    letter_of : is_taken b ≡ true → letter b ≡ c
    letter_of taken = cc (rw taken at h)

generate_letters-All :
    (n : ℕ) (bs cs rest : Bytes)
    → generate_letters n bs ≡ some (cs, rest)
    → (length cs ≡ n) × All IsLetter cs
unfolding generate_letters
generate_letters-All zero bs cs rest h = let e : [] ≡ cs = cc in rw (← e) (refl, tt)
generate_letters-All (suc n) bs cs rest h = elim (Option-cases (generate_letter bs)) [
  | inl out ↦ absurd (ground arith)
  | inr ((c, more), got) ↦ elim (Option-cases (generate_letters n more)) [
    | inl out ↦ absurd (ground arith)
    | inr ((ds, last), rec) ↦
        let e : c ∷ ds ≡ cs = ground arith in
        let (n', letters) = generate_letters-All n more ds last rec in
        rw (← e) (ap suc n', (generate_letter-IsLetter bs c more got, letters))
  ]
]

-- A generated code has the form XXX-XXX over the alphabet, and Normalize accepts it unchanged, so that
-- the redeemed code has the hash of the issued one.
pub normalize-generate :
    (random c : Bytes) → generate random ≡ ok c → IsCode c × (normalize c ≡ ok c)
unfolding generate
normalize-generate random c h = elim (Option-cases (generate_letters 6 random)) [
  | inl out ↦ absurd (ground arith)
  | inr ((cs, rest), got) ↦
      let (six, letters) = generate_letters-All 6 random cs rest got in
      let e : grouped cs ≡ c = ground arith in
      let canonical : IsCode c = rw (← e) (grouped-IsCode cs six letters) in
      (canonical, normalize-IsCode_self c canonical)
]

-- How many of the byte values below `n` Generate takes for the letter `c`.
abbrev pub takes : ℕ → ℕ → Bool
takes c b = is_taken b && letter b == c

unfoldable pub count_below : ℕ → ℕ → ℕ
count_below zero c = 0
count_below (suc n) c = (if takes c n then 1 else 0) + count_below n c

uniform_table : All (λ c. count_below 256 c ≡ 8) alphabet
unfolding count_below
uniform_table = ground arith

of_contains : (P : ℕ → Type 0) (c : ℕ) (xs : Bytes) → All P xs → contains_byte c xs ≡ true → P c
of_contains P c [] h e = cc
of_contains P c (x ∷ xs) h e = elim (Bool-cases (x == c)) [
  | inl here ↦ rw (← (==_iff x c).0 here) h.0
  | inr there ↦ of_contains P c xs h.1 (ground arith)
]

-- Rejection sampling is uniform: of the 256 values of a random byte, exactly eight give any one letter
-- of the alphabet.
pub generate_uniform : (c : ℕ) → IsLetter c → count_below 256 c ≡ 8
generate_uniform c = of_contains (λ x. count_below 256 x ≡ 8) c alphabet uniform_table

-- How many of the random bytes the sampling takes.
abbrev pub taken : Bytes → ℕ
taken [] = 0
taken (b ∷ bs) = (if is_taken b then 1 else 0) + taken bs

generate_letter_total :
    (bs : Bytes)
    → 0 < taken bs
    → (c : ℕ) × (rest : Bytes) × (generate_letter bs ≡ some (c, rest)) × (taken rest + 1 ≡ taken bs)
unfolding generate_letter
generate_letter_total [] h = absurd (omega arith)
generate_letter_total (b ∷ bs) h = elim (Bool-cases (is_taken b)) [
  | inl yes_taken ↦ (letter b, bs, rw yes_taken, rw yes_taken (omega arith))
  | inr skipped ↦
      let some_left : 0 < taken bs = ground arith in
      let (c, rest, got, left) = generate_letter_total bs some_left in
      (c, rest, rw skipped got, rw skipped (omega arith))
]

generate_letters_total :
    (n : ℕ) (bs : Bytes)
    → n ≤ taken bs
    → (cs : Bytes) × (rest : Bytes) × (generate_letters n bs ≡ some (cs, rest))
unfolding generate_letters
generate_letters_total zero bs h = ([], bs, refl)
generate_letters_total (suc n) bs h =
    let (c, more, got, left) = generate_letter_total bs (omega arith) in
    let (cs, rest, rec) = generate_letters_total n more (omega arith) in
    (c ∷ cs, rest, rw (got, generate_letters) (rw (rec, generate_letters)))

-- Six random bytes that the sampling takes, wherever they stand in the source, are enough for Generate
-- to return a code.
pub generate_total : (random : Bytes) → 6 ≤ taken random → (c : Bytes) × (generate random ≡ ok c)
unfolding generate
generate_total random h =
    let (cs, rest, got) = generate_letters_total 6 random h in (grouped cs, rw (got, generate))
