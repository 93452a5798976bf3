-- ===== src/Codes/Canonical.antt =====
-- What is issued and what is accepted have one canonical form.
use smart_deploy_linux.Prelude.{
  ℕ, ◌≡◌, ◌⊎◌, refl, ap, ◌∙◌, Bool, true, false, not, ◌&&◌, none, List, [], ◌∷◌, ◌++◌, map, Bytes,
  length, take, drop, ◌==◌, All, All-append, length-append, Option-cases, Bool-cases, inl, inr,
  arith, ==_iff,
}
use smart_deploy_linux.Schema.{ok}
use smart_deploy_linux.Codes.{
  alphabet, contains_byte, is_space, width, size, trim_left, trim_right, trim_onto, to_upper,
  remove, first_bad, grouped, strip, check_code, normalize,
}

abbrev pub IsLetter : ℕ → Type 0
IsLetter c = contains_byte c alphabet ≡ true

-- Three letters, a dash, three letters.
pub record IsCode (c : Bytes) : Type 0 where
  pub front : Bytes
  pub back : Bytes
  pub splits : c ≡ front ++ (b'-' ∷ back)
  pub front_length : length front ≡ 3
  pub back_length : length back ≡ 3
  pub front_letters : All IsLetter front
  pub back_letters : All IsLetter back

-- What normalisation leaves alone in a letter, as a test that evaluates.
abbrev is_plain : ℕ → Bool
is_plain c =
    not (is_space c) && to_upper c == c && not (c == b'-') && not (c == b' ') && width c == 1

All-contains :
    (p : ℕ → Bool) (c : ℕ) (xs : Bytes)
    → All (λ x. p x ≡ true) xs
    → contains_byte c xs ≡ true
    → p c ≡ true
All-contains p c [] h e = cc
All-contains p c (x ∷ xs) h e = elim (Bool-cases (x == c)) [
  | inl here ↦ rw (← (==_iff x c).0 here) h.0
  | inr there ↦ All-contains p c xs h.1 (ground arith)
]

letter_plain : (c : ℕ) → IsLetter c → is_plain c ≡ true
unfolding is_space to_upper width
letter_plain c = All-contains is_plain c alphabet (ground arith)

-- A predicate that implies another, along a list.
All-map {ℓ} :
    {A : Type ℓ} (P Q : A → Type 0) (xs : List A) → ((x : A) → P x → Q x) → All P xs → All Q xs
All-map P Q [] f h = tt
All-map P Q (x ∷ xs) f h = (f x h.0, All-map P Q xs f h.1)

abbrev IsPlain : ℕ → Type 0
IsPlain c = is_plain c ≡ true

letters-IsPlain : (s : Bytes) → All IsLetter s → All IsPlain s
letters-IsPlain s h = All-map IsLetter IsPlain s letter_plain h

size-length : (s : Bytes) → All IsPlain s → size s ≡ length s
unfolding size
size-length [] h = refl
size-length (c ∷ cs) h =
    let one : width c ≡ 1 = ground (arith, h.0) in omega (arith, one, size-length cs h.1)

-- What trimming and upper-casing leave alone: a plain character, or the dash.
abbrev IsFixed : ℕ → Type 0
IsFixed c = (is_space c ≡ false) × (to_upper c ≡ c)

plain-IsFixed : (c : ℕ) → IsPlain c → IsFixed c
plain-IsFixed c h = ground arith

trim_left_fixed : (s : Bytes) → All IsFixed s → trim_left s ≡ s
unfolding trim_left
trim_left_fixed [] h = refl
trim_left_fixed (c ∷ cs) h = ground arith

trim_right_fixed : (s : Bytes) → All IsFixed s → trim_right s ≡ s
unfolding trim_right trim_onto
trim_right_fixed [] h = refl
trim_right_fixed (c ∷ []) h = ground arith
trim_right_fixed (c ∷ d ∷ ds) h = rw (trim_right_fixed (d ∷ ds) h.1)

upper_fixed : (s : Bytes) → All IsFixed s → map to_upper s ≡ s
upper_fixed [] h = refl
upper_fixed (c ∷ cs) h = cc (h.0.1, upper_fixed cs h.1)

remove-append : (c : ℕ) (s t : Bytes) → remove c (s ++ t) ≡ remove c s ++ remove c t
unfolding remove
remove-append c [] t = refl
remove-append c (x ∷ s) t = ground (arith, remove-append c s t)

remove_plain : (c : ℕ) (s : Bytes) → (c ≡ b'-') ⊎ (c ≡ b' ') → All IsPlain s → remove c s ≡ s
unfolding remove
remove_plain c [] dash h = refl
remove_plain c (x ∷ s) dash h = ground (arith, remove_plain c s dash h.1)

first_bad_letters : (s : Bytes) → All IsLetter s → first_bad s ≡ none
unfolding first_bad
first_bad_letters [] h = refl
first_bad_letters (c ∷ cs) h = rw h.0 (first_bad_letters cs h.1)

letters_of_good : (s : Bytes) → first_bad s ≡ none → All IsLetter s
unfolding first_bad
letters_of_good [] h = tt
letters_of_good (c ∷ cs) h = elim (Bool-cases (contains_byte c alphabet)) [
  | inl yes_letter ↦ (yes_letter, letters_of_good cs (rw yes_letter at h))
  | inr no_letter ↦ cc (rw no_letter at h)
]

take-append : (n : ℕ) (s t : Bytes) → length s ≡ n → take n (s ++ t) ≡ s
take-append n [] t e = rw (← e)
take-append n (c ∷ s) t e = rw (← e) (ap (◌∷◌ c) (take-append (length s) s t refl))

drop-append : (n : ℕ) (s t : Bytes) → length s ≡ n → drop n (s ++ t) ≡ t
drop-append n [] t e = rw (← e)
drop-append n (c ∷ s) t e = rw (← e) (drop-append (length s) s t refl)

-- Six letters, grouped, make a code.
pub grouped-IsCode : (s : Bytes) → length s ≡ 6 → All IsLetter s → IsCode (grouped s)
grouped-IsCode (a ∷ b ∷ c ∷ d ∷ e ∷ f ∷ []) n (ha, (hb, (hc, (hd, (he, (hf, _)))))) = record {
  front = a ∷ b ∷ c ∷ [];
  back = d ∷ e ∷ f ∷ [];
  splits = refl;
  front_length = refl;
  back_length = refl;
  front_letters = (ha, (hb, (hc, tt)));
  back_letters = (hd, (he, (hf, tt)));
}
grouped-IsCode s n h = absurd (omega arith)

check_code-ok :
    (s : Bytes) {c : Bytes}
    → check_code s ≡ ok c
    → (size s ≡ 6) × (first_bad s ≡ none) × (c ≡ grouped s)
unfolding check_code
check_code-ok s {c} h = elim (Bool-cases (size s == 6)) [
  | inr other ↦ absurd (let e = rw other at h in cc e)
  | inl six ↦ elim (Option-cases (first_bad s)) [
    | inl good ↦ ((==_iff (size s) 6).0 six, good, let e = rw (six, good) at h in cc e)
    | inr (r, bad) ↦ absurd (let e = rw (six, bad) at h in cc e)
  ]
]

-- Whatever is typed, an accepted code has the form XXX-XXX over the alphabet.
pub normalize-IsCode : (input c : Bytes) → normalize input ≡ ok c → IsCode c
unfolding normalize
normalize-IsCode input c h =
    let (six, good, same) = check_code-ok (strip input) h in
    let letters = letters_of_good (strip input) good in
    let bytes = size-length (strip input) (letters-IsPlain (strip input) letters) in
    rw same (grouped-IsCode (strip input) (cc (bytes, six)) letters)

dash-IsFixed : IsFixed b'-'
unfolding is_space to_upper
dash-IsFixed = ground arith

code-IsFixed :
    (front back : Bytes)
    → All IsLetter front
    → All IsLetter back
    → All IsFixed (front ++ (b'-' ∷ back))
code-IsFixed front back h k =
    All-append IsFixed front (b'-' ∷ back)
      (All-map IsPlain IsFixed front plain-IsFixed (letters-IsPlain front h))
      (dash-IsFixed, All-map IsPlain IsFixed back plain-IsFixed (letters-IsPlain back k))

remove_dash :
    (front back : Bytes)
    → All IsPlain front
    → All IsPlain back
    → remove b'-' (front ++ (b'-' ∷ back)) ≡ front ++ back
unfolding remove
remove_dash front back h k =
    remove-append b'-' front (b'-' ∷ back)
    ∙ cc (remove_plain b'-' front (inl refl) h, remove_plain b'-' back (inl refl) k)

strip_code :
    (front back : Bytes)
    → All IsLetter front
    → All IsLetter back
    → strip (front ++ (b'-' ∷ back)) ≡ front ++ back
unfolding strip
strip_code front back h k =
    let fixed = code-IsFixed front back h k in
    let front_plain = letters-IsPlain front h in
    let back_plain = letters-IsPlain back k in
    rw
      (
        trim_left_fixed _ fixed,
        trim_right_fixed _ fixed,
        upper_fixed _ fixed,
        remove_dash front back front_plain back_plain,
      )
      (remove_plain b' ' (front ++ back) (inr refl)
        (All-append IsPlain front back front_plain back_plain))

check_code_letters : (s : Bytes) → length s ≡ 6 → All IsLetter s → check_code s ≡ ok (grouped s)
unfolding check_code
check_code_letters s n h = rw (size-length s (letters-IsPlain s h), n, first_bad_letters s h)

normalize-check : (c : Bytes) → normalize c ≡ check_code (strip c)
unfolding normalize
normalize-check c = refl

-- A code in canonical form is accepted as it is, so normalising twice is normalising once.
pub normalize-IsCode_self : (c : Bytes) → IsCode c → normalize c ≡ ok c
normalize-IsCode_self c h =
    let s = h.front ++ h.back in
    let letters = All-append IsLetter h.front h.back h.front_letters h.back_letters in
    let six : length s ≡ 6 =
      omega (arith, length-append h.front h.back, h.front_length, h.back_length) in
    let regrouped : grouped s ≡ h.front ++ (b'-' ∷ h.back) =
      cc (
        take-append 3 h.front h.back h.front_length,
        drop-append 3 h.front h.back h.front_length,
      ) in
    rw (normalize-check, h.splits, strip_code h.front h.back h.front_letters h.back_letters)
      (check_code_letters s six letters ∙ ap ok regrouped)
