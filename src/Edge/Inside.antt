-- ===== src/Edge/Inside.antt =====
-- cachePath of services/edge-agent/cmd/edge-agent/cache.go stays in the cache directory.
use smart_deploy_linux.Prelude.{
  ℕ, ◌==◌, ==_iff, ◌≡◌, ◌≢◌, ◌⊎◌, inl, inr, refl, true, false, ◌||◌, some, List, [], ◌∷◌, ◌++◌,
  Bytes, codes, bytes_eq, bytes_eq_iff, bytes_eq_refl, has_prefix, All, arith, Bool-cases,
}
use smart_deploy_linux.Edge.Path.{
  trim_prefix, extend, split, dot, dot_dot, is_dot_dot, back_up, clean_part, clean_onto,
  reverse_onto, join, is_rooted, clean_parts, text_of, clean, cache_path,
}

-- One name of a directory: no slash.
abbrev pub IsName : Bytes → Type 0
IsName = All (λ c. c ≢ b'/')

-- A part that leads down one directory: one name, and not empty, "." or "..".
abbrev pub IsProper : Bytes → Type 0
IsProper s = IsName s × (s ≢ []) × (s ≢ dot) × (s ≢ dot_dot)

extend-IsName :
    (c : ℕ) (parts : List Bytes) → c ≢ b'/' → All IsName parts → All IsName (extend c parts)
extend-IsName c [] plain h = ((plain, tt), tt)
extend-IsName c (s ∷ ss) plain h = ((plain, h.0), h.1)

split-IsName : (s : Bytes) → All IsName (split s)
unfolding split
split-IsName [] = (tt, tt)
split-IsName (c ∷ s) = elim (Bool-cases (c == b'/')) [
  | inl slash ↦ rw slash (tt, split-IsName s)
  | inr plain ↦
      rw plain (extend-IsName c (split s) (λ e. cc (plain, (==_iff c b'/').1 e)) (split-IsName s))
]

-- What is on the stack of a path that is not rooted: proper parts, or ".." at the bottom.
IsStack : List Bytes → Type 0
IsStack stack = All IsProper stack ⊎ ((top : List Bytes) × (stack ≡ top ++ (dot_dot ∷ [])))

is_proper :
    (s : Bytes)
    → IsName s
    → (bytes_eq s [] || bytes_eq s dot) ≡ false
    → is_dot_dot s ≡ false
    → IsProper s
is_proper s name h k = (
  name,
  λ e. ground (arith, (bytes_eq_iff s []).1 e),
  λ e. ground (arith, (bytes_eq_iff s dot).1 e),
  λ e. ground (arith, (bytes_eq_iff s dot_dot).1 e),
)

below_top :
    (t : Bytes) (below top : List Bytes)
    → t ≢ dot_dot
    → t ∷ below ≡ top ++ (dot_dot ∷ [])
    → IsStack below
unfolding IsStack
below_top t below [] plain e = absurd (plain (cc e))
below_top t below (u ∷ top) plain e = inr (top, cc e)

back_up-IsStack : (stack : List Bytes) → IsStack stack → IsStack (back_up false stack)
unfolding IsStack back_up
back_up-IsStack [] h = inr ([], refl)
back_up-IsStack (t ∷ below) h = elim (Bool-cases (is_dot_dot t)) [
  | inl dots ↦ rw dots (elim h [
    | inl proper ↦ absurd (proper.0.3 ((bytes_eq_iff t dot_dot).0 dots))
    | inr (top, e) ↦ inr (dot_dot ∷ top, cc e)
  ])
  | inr plain ↦ rw plain (elim h [
    | inl proper ↦ inl proper.1
    | inr (top, e) ↦ below_top t below top (λ z. cc (plain, (bytes_eq_iff t dot_dot).1 z)) e
  ])
]

clean_part-IsStack :
    (stack : List Bytes) (s : Bytes) → IsName s → IsStack stack → IsStack (clean_part false stack s)
unfolding clean_part IsStack
clean_part-IsStack stack s name h = elim (Bool-cases (bytes_eq s [] || bytes_eq s dot)) [
  | inl skipped ↦ rw skipped h
  | inr kept ↦ elim (Bool-cases (is_dot_dot s)) [
    | inl dots ↦ rw (kept, dots) (back_up-IsStack stack h)
    | inr plain ↦
        rw (kept, plain)
          (elim h [
            | inl proper ↦ inl (is_proper s name kept plain, proper)
            | inr (top, e) ↦ inr (s ∷ top, cc e)
          ])
  ]
]

clean_onto-IsStack :
    (parts stack : List Bytes)
    → All IsName parts
    → IsStack stack
    → IsStack (clean_onto false stack parts)
unfolding clean_onto
clean_onto-IsStack [] stack names h = h
clean_onto-IsStack (s ∷ ss) stack names h =
    clean_onto-IsStack ss (clean_part false stack s) names.1 (clean_part-IsStack stack s names.0 h)

reverse_onto-append :
    (top out : List Bytes) (x : Bytes)
    → reverse_onto (top ++ (x ∷ [])) out ≡ x ∷ reverse_onto top out
unfolding reverse_onto
reverse_onto-append [] out x = refl
reverse_onto-append (t ∷ top) out x = reverse_onto-append top (t ∷ out) x

All-reverse_onto :
    (ss out : List Bytes) → All IsProper ss → All IsProper out → All IsProper (reverse_onto ss out)
unfolding reverse_onto
All-reverse_onto [] out h k = k
All-reverse_onto (s ∷ ss) out h k = All-reverse_onto ss (s ∷ out) h.1 (h.0, k)

-- The parts of a path that is not rooted.
IsCleaned : List Bytes → Type 0
IsCleaned parts = All IsProper parts ⊎ ((rest : List Bytes) × (parts ≡ dot_dot ∷ rest))

clean_parts-IsCleaned : (s : Bytes) → is_rooted s ≡ false → IsCleaned (clean_parts s)
unfolding clean_parts IsCleaned IsStack
clean_parts-IsCleaned s h = rw h (elim (clean_onto-IsStack (split s) [] (split-IsName s) (inl tt)) [
  | inl proper ↦ inl (All-reverse_onto _ [] proper tt)
  | inr (top, e) ↦ inr (reverse_onto top [], rw e (reverse_onto-append top [] dot_dot))
])

dots_ahead : (rest : List Bytes) → has_prefix dot_dot (join (dot_dot ∷ rest)) ≡ true
unfolding join has_prefix
dots_ahead [] = refl
dots_ahead (r ∷ rest) = refl

accepted :
    (parts : List Bytes)
    → IsCleaned parts
    → bytes_eq (text_of parts) dot ≡ false
    → has_prefix dot_dot (text_of parts) ≡ false
    → (parts ≢ []) × All IsProper parts × (text_of parts ≡ join parts)
unfolding IsCleaned text_of
accepted [] c h k = absurd (cc (h, bytes_eq_refl dot))
accepted (s ∷ ss) (inl proper) h k = ((λ e. cc e), proper, refl)
accepted (s ∷ ss) (inr (rest, e)) h k = absurd (cc (k, e, dots_ahead rest))

not_rooted : (s : Bytes) → has_prefix (codes "/") (clean s) ≡ false → is_rooted s ≡ false
unfolding clean
not_rooted s h = elim (Bool-cases (is_rooted s)) [
  | inl rooted ↦ absurd (let e = rw (rooted, has_prefix) at h in cc e)
  | inr plain ↦ plain
]

clean-text_of : (s : Bytes) → is_rooted s ≡ false → clean s ≡ text_of (clean_parts s)
unfolding clean
clean-text_of s h = rw h

-- Every path that cachePath accepts is the cache directory and at least one part below it, with a slash
-- before each part, and no part has a slash in it or is empty, "." or "..": the path stays in the
-- directory, if no part of it is a symbolic link.
pub cache_path-IsProper :
    (dir url path : Bytes)
    → cache_path dir url ≡ some path
    → (parts : List Bytes) × (parts ≢ []) × All IsProper parts × (path ≡ dir ++ (b'/' ∷ join parts))
unfolding cache_path
cache_path-IsProper dir url path h =
    let s = trim_prefix (codes "/") url in
    elim (Bool-cases (
      bytes_eq (clean s) dot || has_prefix dot_dot (clean s) || has_prefix (codes "/") (clean s))) [
        | inl refused ↦ absurd (let e = rw (refused, cache_path) at h in cc e)
        | inr fine ↦
            let plain = not_rooted s (ground arith) in
            let text = clean-text_of s plain in
            let (some_part, proper, same) =
              accepted (clean_parts s) (clean_parts-IsCleaned s plain) (rw (← text) (ground arith))
                (rw (← text) (ground arith)) in
            (
              clean_parts s,
              some_part,
              proper,
              let e = rw (fine, cache_path) at h in cc (e, text, same),
            )
      ]
