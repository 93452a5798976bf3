-- ===== src/Edge/Path.antt =====
-- cachePath of services/edge-agent/cmd/edge-agent/cache.go, with filepath.Clean on slash-separated paths.
use smart_deploy_linux.Prelude.{
  ℕ, Bool, ◌||◌, Option, none, some, List, [], ◌∷◌, ◌++◌, Bytes, codes, bytes_eq, ◌==◌,
  if◌then◌else◌, has_prefix, drop, length,
}

-- strings.TrimPrefix(s, p), with the prefix first.
unfoldable pub trim_prefix : Bytes → Bytes → Bytes
unfolding has_prefix
trim_prefix p s = if has_prefix p s then drop (length p) s else s

abbrev pub extend : ℕ → List Bytes → List Bytes
extend c [] = (c ∷ []) ∷ []
extend c (seg ∷ segs) = (c ∷ seg) ∷ segs

-- The parts between the slashes.
unfoldable pub split : Bytes → List Bytes
split [] = [] ∷ []
split (c ∷ s) = let rest = split s in if c == b'/' then [] ∷ rest else extend c rest

abbrev pub dot : Bytes
dot = codes "."

abbrev pub dot_dot : Bytes
dot_dot = codes ".."

abbrev pub is_dot_dot : Bytes → Bool
is_dot_dot s = bytes_eq s dot_dot

-- ".." on the parts that are kept so far, the last one first.
unfoldable pub back_up : Bool → List Bytes → List Bytes
unfolding bytes_eq
back_up rooted [] = if rooted then [] else dot_dot ∷ []
back_up rooted (top ∷ below) = if is_dot_dot top then dot_dot ∷ top ∷ below else below

-- The next part.
unfoldable pub clean_part : Bool → List Bytes → Bytes → List Bytes
unfolding back_up bytes_eq
clean_part rooted stack s =
    if bytes_eq s [] || bytes_eq s dot
    then stack
    else if is_dot_dot s
    then back_up rooted stack
    else s ∷ stack

unfoldable pub clean_onto : Bool → List Bytes → List Bytes → List Bytes
unfolding clean_part
clean_onto rooted stack [] = stack
clean_onto rooted stack (s ∷ ss) = clean_onto rooted (clean_part rooted stack s) ss

unfoldable pub reverse_onto : List Bytes → List Bytes → List Bytes
reverse_onto [] out = out
reverse_onto (s ∷ ss) out = reverse_onto ss (s ∷ out)

unfoldable pub join : List Bytes → Bytes
join [] = []
join (s ∷ []) = s
join (s ∷ t ∷ ss) = s ++ (b'/' ∷ join (t ∷ ss))

abbrev pub is_rooted : Bytes → Bool
is_rooted s = has_prefix (codes "/") s

-- The parts of filepath.Clean(s).
unfoldable pub clean_parts : Bytes → List Bytes
unfolding clean_onto split reverse_onto has_prefix
clean_parts s = reverse_onto (clean_onto (is_rooted s) [] (split s)) []

-- The text of a path that is not rooted.
unfoldable pub text_of : List Bytes → Bytes
unfolding join
text_of [] = dot
text_of (s ∷ ss) = join (s ∷ ss)

-- filepath.Clean
unfoldable pub clean : Bytes → Bytes
unfolding clean_parts text_of has_prefix
clean s = if is_rooted s then b'/' ∷ join (clean_parts s) else text_of (clean_parts s)

-- filepath.Join(dir, clean) does not change what is clean.
unfoldable pub cache_path : Bytes → Bytes → Option Bytes
unfolding clean trim_prefix bytes_eq has_prefix
cache_path dir url =
    let cleaned = clean (trim_prefix (codes "/") url) in
    if bytes_eq cleaned dot || has_prefix dot_dot cleaned || has_prefix (codes "/") cleaned
    then none
    else some (dir ++ (b'/' ∷ cleaned))
