-- ===== src/Codes.antt =====
-- Deployment codes: services/auth-broker/internal/codes/codes.go. The text to normalise is the list of
-- its code points, since it comes out of JSON, which is valid UTF-8. Argon2 is a parameter.
pub mod Canonical
pub mod Generate
use smart_deploy_linux.Prelude.{
  ℕ, zero, suc, ◌+◌, ◌-◌, ◌*◌, ◌/◌, ◌%◌, Bool, true, false, not, ◌&&◌, ◌||◌, Option, none, some,
  List, [], ◌∷◌, ◌++◌, map, Bytes, codes, length, take, drop, get_or, ltb, leb, ◌==◌, if◌then◌else◌,
}
use smart_deploy_linux.Tokens.Hash.{hex}
use smart_deploy_linux.Schema.{Error, wrong_length, bad_character, random_failed, Result, ok, err}

abbrev pub alphabet : Bytes
alphabet = codes "23456789ABCDEFGHJKMNPQRSTUVWXYZ"

abbrev pub groups : ℕ
groups = 2

abbrev pub per_group : ℕ
per_group = 3

abbrev pub contains_byte : ℕ → Bytes → Bool
contains_byte c [] = false
contains_byte c (x ∷ xs) = x == c || contains_byte c xs

-- unicode.IsSpace, of strings.TrimSpace.
unfoldable pub is_space : ℕ → Bool
is_space c =
    leb 9 c && leb c 13
    || c == 32
    || c == 0x85
    || c == 0xA0
    || c == 0x1680
    || leb 0x2000 c && leb c 0x200A
    || c == 0x2028
    || c == 0x2029
    || c == 0x202F
    || c == 0x205F
    || c == 0x3000

unfoldable pub trim_left : Bytes → Bytes
unfolding is_space
trim_left [] = []
trim_left (c ∷ cs) = if is_space c then trim_left cs else c ∷ cs

unfoldable pub trim_onto : ℕ → Bytes → Bytes
unfolding is_space
trim_onto c [] = if is_space c then [] else c ∷ []
trim_onto c (d ∷ ds) = c ∷ d ∷ ds

unfoldable pub trim_right : Bytes → Bytes
unfolding trim_onto
trim_right [] = []
trim_right (c ∷ cs) = trim_onto c (trim_right cs)

unfoldable pub trim_space : Bytes → Bytes
unfolding trim_left trim_right
trim_space s = trim_right (trim_left s)

-- unicode.ToUpper, of strings.ToUpper, as far as it gives ASCII: the dotless i and the long s do. Any
-- other letter outside of ASCII becomes one outside of ASCII, and here stays as it is; a text with it is
-- refused either way, with one error or the other.
unfoldable pub to_upper : ℕ → ℕ
to_upper c =
    if leb b'a' c && leb c b'z'
    then c - 32
    else if c == 0x131
    then b'I'
    else if c == 0x17F
    then b'S'
    else c

-- strings.ReplaceAll(s, c, "").
unfoldable pub remove : ℕ → Bytes → Bytes
remove c [] = []
remove c (x ∷ xs) = let rest = remove c xs in if x == c then rest else x ∷ rest

-- The loop over the characters: the first that is not in the alphabet.
unfoldable pub first_bad : Bytes → Option ℕ
first_bad [] = none
first_bad (r ∷ rs) = if contains_byte r alphabet then first_bad rs else some r

-- len(s), in bytes of UTF-8.
unfoldable pub width : ℕ → ℕ
width r = if ltb r 0x80 then 1 else if ltb r 0x800 then 2 else if ltb r 0x10000 then 3 else 4

unfoldable pub size : Bytes → ℕ
unfolding width
size [] = 0
size (r ∷ rs) = width r + size rs

-- fmt.Sprintf("%s-%s", s[:PerGroup], s[PerGroup:])
abbrev pub grouped : Bytes → Bytes
grouped s = take per_group s ++ (b'-' ∷ drop per_group s)

-- The first three lines of Normalize, and the rest.
unfoldable pub strip : Bytes → Bytes
unfolding trim_space remove to_upper
strip input = remove b' ' (remove b'-' (map to_upper (trim_space input)))

unfoldable pub check_code : Bytes → Result Bytes
unfolding first_bad size
check_code s =
    if not (size s == groups * per_group)
    then err (wrong_length (size s))
    else elim (first_bad s) [ some r ↦ err (bad_character r) | none ↦ ok (grouped s) ]

unfoldable pub normalize : Bytes → Result Bytes
unfolding strip check_code
normalize input = check_code (strip input)

-- Rejection sampling: the random bytes below 248 are taken.
abbrev pub is_taken : ℕ → Bool
is_taken b = ltb b ((256 / length alphabet) * length alphabet)

abbrev pub letter : ℕ → ℕ
letter b = get_or alphabet (b % length alphabet) 0

-- One round of the outer loop of Generate on the bytes that the random source will give. It gives an
-- error where they run out, as rand.Read does.
unfoldable pub generate_letter : Bytes → Option (ℕ × Bytes)
generate_letter [] = none
generate_letter (b ∷ bs) = if is_taken b then some (letter b, bs) else generate_letter bs

unfoldable pub generate_letters : ℕ → Bytes → Option (Bytes × Bytes)
unfolding generate_letter
generate_letters zero bs = some ([], bs)
generate_letters (suc n) bs = elim (generate_letter bs) [
  | none ↦ none
  | some (c, rest) ↦ elim (generate_letters n rest) [
    | none ↦ none
    | some (cs, last) ↦ some (c ∷ cs, last)
  ]
]

unfoldable pub generate : Bytes → Result Bytes
unfolding generate_letters
generate random = elim (generate_letters (groups * per_group) random) [
  | none ↦ err random_failed
  | some (out, _) ↦ ok (grouped out)
]

-- Hash. The parameter takes the code and the salt, at the cost that the text names.
module _ (argon2id : Bytes → Bytes → Bytes) where
  unfoldable pub hash_code : Bytes → Bytes → Bytes
  unfolding hex
  hash_code normalized pepper =
      codes "argon2id$v=19$m=65536,t=3,p=2$" ++ hex (argon2id normalized pepper)
