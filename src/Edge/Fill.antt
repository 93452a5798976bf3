-- ===== src/Edge/Fill.antt =====
-- fill and ensure of services/edge-agent/cmd/edge-agent/cache.go: a blob that is served has its digest.
use smart_deploy_linux.Prelude.Table.{find, select, find-holds, All-find, All-select}
use smart_deploy_linux.Prelude.{
  ℕ, ◌+◌, ◌-◌, leb, ◌⊎◌, ◌≡◌, refl, Bool, true, false, not, ◌||◌, Option, none, some, List, [], ◌∷◌,
  Bytes, bytes_eq_iff, bytes_eq_refl, All, All-append, arith, Option-cases, Bool-cases, inl, inr,
  ◌==◌,
}
use smart_deploy_linux.Drivers.Sort.{stable_sort, insert}
use smart_deploy_linux.Edge.{
  File, size_of, World, Response, is_at, is_older, evict_oldest, evict_for, make_room, has_digest,
  is_verified, wanted_sha, put, store_body, fill, ensure, total,
}

module _ {κ} (P : File → Type κ) (stuck : File → Bool) (max need : ℕ) where
  All-oldest : (es : List File) (sum : ℕ) → All P es → All P (evict_oldest stuck max need sum es).0
  unfolding evict_oldest
  All-oldest [] sum h = tt
  All-oldest (e ∷ es) sum h = elim (Bool-cases (leb (sum + need) max)) [
    | inl fits ↦ rw fits h
    | inr full ↦ elim (Bool-cases (stuck e)) [
      | inl stays ↦ rw (full, stays) (h.0, All-oldest es sum h.1)
      | inr goes ↦ rw (full, goes) (All-oldest es (sum - size_of e) h.1)
    ]
  ]

  All-insert : (f : File) (fs : List File) → P f → All P fs → All P (insert is_older f fs)
  unfolding insert
  All-insert f [] pf h = (pf, tt)
  All-insert f (g ∷ fs) pf h = elim (Bool-cases (is_older g f)) [
    | inl after ↦ rw after (h.0, All-insert f fs pf h.1)
    | inr here ↦ rw here (pf, h)
  ]

  All-sort : (fs : List File) → All P fs → All P (stable_sort is_older fs)
  unfolding stable_sort
  All-sort [] h = tt
  All-sort (f ∷ fs) h = All-insert f (stable_sort is_older fs) h.0 (All-sort fs h.1)

  -- Eviction keeps what holds of every file.
  All-evict_for : (fs : List File) → All P fs → All P (evict_for stuck max need fs).0
  unfolding evict_for
  All-evict_for fs h = elim (Bool-cases (leb (total fs + need) max)) [
    | inl fits ↦ rw fits h
    | inr full ↦ rw full (All-oldest (stable_sort is_older fs) (total fs) (All-sort fs h))
  ]

passed_test : (a b : Bool) → (a || not b) ≡ false → b ≡ true
passed_test a b h = ground arith

-- `want` gives the digest that the object at a path has to have, if it is a blob.
module _ (sha256 : Bytes → Bytes) (max : ℕ) (want : Bytes → Option Bytes) where
  -- Every cached blob has its digest.
  abbrev pub IsCache : List File → Type 0
  IsCache = All (λ f. has_digest sha256 max (want f.path) f.content ≡ true)

  room-IsCache :
      (w : World) (need : Option ℕ) (files : List File)
      → IsCache files
      → IsCache (make_room sha256 max w need files).0
  unfolding make_room
  room-IsCache w none files h = h
  room-IsCache w (some need) files h = All-evict_for _ w.stuck max need files h

  find-put :
      (now : ℕ) (path content : Bytes) (files : List File)
      → find (is_at path) (put sha256 max now path content files)
        ≡ some (record { path = path; content = content; mtime = now })
  unfolding find select
  find-put now path content [] = rw (bytes_eq_refl path)
  find-put now path content (f ∷ files) = elim (Bool-cases (is_at path f)) [
    | inl same ↦ rw same (find-put now path content files)
    | inr other ↦ rw (other, other) (find-put now path content files)
  ]

  -- What a cache serves at a path.
  pub record Serves (url path : Bytes) (files : List File) : Type 0 where
    pub file : File
    pub found : find (is_at path) files ≡ some file
    pub verified : is_verified sha256 max url file.content ≡ true

  module _ (w : World) (url path : Bytes) (named : want path ≡ wanted_sha url) where
    verified-matches :
        (content : Bytes)
        → is_verified sha256 max url content ≡ has_digest sha256 max (want path) content
    verified-matches content = rw named

    store_body_lem :
        (resp : Response) (files : List File)
        → IsCache files
        → IsCache (store_body sha256 max w url path resp files).0
          × (((store_body sha256 max w url path resp files).1 ≡ false)
              ⊎ Serves url path (store_body sha256 max w url path resp files).0)
    unfolding store_body
    store_body_lem resp files h =
        let (roomy, fits) = make_room sha256 max w resp.content_length files in
        let kept = room-IsCache w resp.content_length files h in
        elim (Bool-cases fits) [
          | inr full ↦ rw full (kept, inl refl)
          | inl fine ↦ elim (Option-cases resp.body) [
            | inl cut ↦ rw (fine, cut, store_body) (kept, inl refl)
            | inr (content, whole) ↦
                elim (Bool-cases (w.disk_fails || not (is_verified sha256 max url content))) [
                  | inl refused ↦ rw (fine, whole, store_body, refused) (kept, inl refl)
                  | inr stored ↦
                      let right : is_verified sha256 max url content ≡ true =
                        passed_test w.disk_fails _ stored in
                      rw (fine, whole, store_body, stored)
                        (
                          All-append _ (select (λ f. not (is_at path f)) roomy) _
                              (All-select _ _ roomy kept) ((cc (right, named)), tt),
                          inr (record {
                            file = record { path = path; content = content; mtime = w.now };
                            found = find-put w.now path content roomy;
                            verified = right;
                          }),
                        )
                ]
          ]
        ]

    -- A fill keeps the cache's digests right, and where it succeeds the object is there with its digest.
    fill_lem :
        (files : List File)
        → IsCache files
        → IsCache (fill sha256 max w url path files).0
          × (((fill sha256 max w url path files).1 ≡ false)
              ⊎ Serves url path (fill sha256 max w url path files).0)
    unfolding fill
    fill_lem files h = elim (Option-cases w.response) [
      | inl silent ↦ rw silent (h, inl refl)
      | inr (resp, came) ↦ elim (Bool-cases (resp.status == 200)) [
        | inl good ↦ rw (came, fill, good) (store_body_lem resp files h)
        | inr bad ↦ rw (came, fill, bad) (h, inl refl)
      ]
    ]

    -- Whatever the origin sends and the disk does, ensure keeps the digest of every cached blob right, and
    -- where it returns no error the object is in the cache, with the digest that its key names.
    pub ensure_at :
        (files : List File)
        → IsCache files
        → IsCache (ensure sha256 max w url path files).0
          × (((ensure sha256 max w url path files).1 ≡ false)
              ⊎ Serves url path (ensure sha256 max w url path files).0)
    unfolding ensure
    ensure_at files h = elim (Option-cases (find (is_at path) files)) [
      | inl missing ↦ rw (missing, ensure) (fill_lem files h)
      | inr (f, found) ↦
          let right =
            All-find (λ g. has_digest sha256 max (want g.path) g.content ≡ true) (is_at path) files
              h found in
          let same = (bytes_eq_iff f.path path).0 (find-holds (is_at path) files found) in
          rw (found, ensure)
            (h, inr (record { file = f; found = found; verified = cc (right, same, named) }))
    ]
