-- ===== src/Edge.antt =====
-- The image mirror of a site: services/edge-agent/cmd/edge-agent/cache.go. Its state is the list of
-- the cached files, in the order of the directory walk; sizes and times are natural numbers.
pub mod Path
pub mod Inside
pub mod Evict
pub mod Fill
pub mod Verified
pub mod Flight
use smart_deploy_linux.Prelude.Table.{find, select}
use smart_deploy_linux.Prelude.{
  ℕ, zero, suc, ◌+◌, ◌-◌, Bool, true, false, not, ◌&&◌, ◌||◌, Option, none, some, List, [], ◌∷◌,
  ◌++◌, Bytes, codes, bytes_eq, ltb, leb, ◌==◌, if◌then◌else◌, has_prefix, length,
}
use smart_deploy_linux.Tokens.Hash.{hex}
use smart_deploy_linux.Drivers.Sort.{stable_sort}
use smart_deploy_linux.Edge.Path.{cache_path, trim_prefix}

pub record File : Type 0 where
  pub path : Bytes
  pub content : Bytes
  pub mtime : ℕ

abbrev pub size_of : File → ℕ
size_of f = length f.content

unfoldable pub total : List File → ℕ
total [] = 0
total (f ∷ fs) = size_of f + total fs

abbrev pub is_at : Bytes → File → Bool
is_at path f = bytes_eq f.path path

-- The loop of evictFor over the entries, oldest first: the entries that are left and the total. A file
-- that os.Remove cannot delete stays.
unfoldable pub evict_oldest : (File → Bool) → ℕ → ℕ → ℕ → List File → List File × ℕ
evict_oldest stuck max need sum [] = ([], sum)
evict_oldest stuck max need sum (e ∷ es) =
    if leb (sum + need) max
    then (e ∷ es, sum)
    else if stuck e
    then (let (kept, left) = evict_oldest stuck max need sum es in (e ∷ kept, left))
    else evict_oldest stuck max need (sum - size_of e) es

abbrev pub is_older : File → File → Bool
is_older a b = ltb a.mtime b.mtime

-- evictFor, with whether it returns no error. The order in which the files that are left are listed is
-- the one of their times.
unfoldable pub evict_for : (File → Bool) → ℕ → ℕ → List File → List File × Bool
unfolding total evict_oldest stable_sort
evict_for stuck max need files =
    if leb (total files + need) max
    then (files, true)
    else (let (kept, left) =
          evict_oldest stuck max need (total files) (stable_sort is_older files) in
        (kept, leb (left + need) max))

-- `[0-9a-f]`
abbrev pub is_hex_digit : ℕ → Bool
is_hex_digit c = leb b'0' c && leb c b'9' || leb b'a' c && leb c b'f'

-- The next n characters, if they are digits of that kind, and what follows them.
unfoldable pub hex_run : ℕ → Bytes → Option (Bytes × Bytes)
hex_run zero s = some ([], s)
hex_run (suc n) [] = none
hex_run (suc n) (c ∷ s) =
    let rest = hex_run n s in
    if is_hex_digit c
    then elim rest [ none ↦ none | some (run, left) ↦ some (c ∷ run, left) ]
    else none

-- What a match of `^[0-9a-f]{2}/([0-9a-f]{64})-` captures.
unfoldable pub key_sha : Bytes → Option Bytes
unfolding hex_run
key_sha key = elim (hex_run 2 key) [
  | some (_, slash ∷ rest) ↦
      if slash == b'/'
      then elim (hex_run 64 rest) [
        | some (sha, dash ∷ _) ↦ if dash == b'-' then some sha else none
        | _ ↦ none
      ]
      else none
  | _ ↦ none
]

-- The digest that the object of a URL path has to have, if it is a blob.
unfoldable pub wanted_sha : Bytes → Option Bytes
unfolding key_sha trim_prefix
wanted_sha url = key_sha (trim_prefix (codes "/blobs/") url)

-- How the origin answers: the status, the Content-Length if it is known and positive, and the body, if
-- it arrives whole.
pub record Response : Type 0 where
  pub status : ℕ
  pub content_length : Option ℕ
  pub body : Option Bytes

-- What surrounds one fill.
pub record World : Type 0 where
  pub now : ℕ
  pub stuck : File → Bool
  pub response : Option Response
  pub disk_fails : Bool  -- MkdirAll, CreateTemp, Close or Rename

module _ (sha256 : Bytes → Bytes) (max : ℕ) where
  -- Rename replaces the file that may be there.
  abbrev pub put : ℕ → Bytes → Bytes → List File → List File
  put now path content files =
      select (λ f. not (is_at path f)) files
      ++ record { path = path; content = content; mtime = now } ∷ []

  unfoldable pub make_room : World → Option ℕ → List File → List File × Bool
  unfolding evict_for
  make_room w none files = (files, true)
  make_room w (some need) files = evict_for w.stuck max need files

  -- The comparison with the digest that the key of a blob names.
  abbrev pub has_digest : Option Bytes → Bytes → Bool
  has_digest none content = true
  has_digest (some sha) content = bytes_eq (hex (sha256 content)) sha

  abbrev pub is_verified : Bytes → Bytes → Bool
  is_verified url content = has_digest (wanted_sha url) content

  -- fill, behind the answer of the origin: room, the download, its digest, the rename.
  unfoldable pub store_body : World → Bytes → Bytes → Response → List File → List File × Bool
  unfolding make_room wanted_sha hex bytes_eq
  store_body w url path resp files =
      let (roomy, fits) = make_room w resp.content_length files in
      if not fits then (roomy, false) else elim resp.body [
        | none ↦ (roomy, false)
        | some content ↦
            if w.disk_fails || not (is_verified url content)
            then (roomy, false)
            else (put w.now path content roomy, true)
      ]

  unfoldable pub fill : World → Bytes → Bytes → List File → List File × Bool
  unfolding store_body
  fill w url path files = elim w.response [
    | none ↦ (files, false)
    | some resp ↦
        if not (resp.status == 200) then (files, false) else store_body w url path resp files
  ]

  -- ensure, for a request that meets no other: it fills what is missing.
  unfoldable pub ensure : World → Bytes → Bytes → List File → List File × Bool
  unfolding fill find bytes_eq
  ensure w url path files = elim (find (is_at path) files) [
    | some _ ↦ (files, true)
    | none ↦ fill w url path files
  ]
