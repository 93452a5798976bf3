-- ===== src/Edge/Verified.antt =====
-- The digests of the cached blobs by the paths at which cachePath of
-- services/edge-agent/cmd/edge-agent/cache.go puts them.
use smart_deploy_linux.Prelude.{
  ◌≡◌, Option, none, some, ◌++◌, Bytes, codes, has_prefix, drop, length, if◌then◌else◌,
}
use smart_deploy_linux.Tokens.Hash.{hex}
use smart_deploy_linux.Edge.{File, key_sha}

-- The digest in the key of the file below the directory of the blobs, if its name is a blob key.
abbrev pub stored_sha : Bytes → Bytes → Option Bytes
stored_sha dir path =
    let blobs = dir ++ codes "/blobs/" in
    if has_prefix blobs path then key_sha (drop (length blobs) path) else none

module _ (sha256 : Bytes → Bytes) (dir : Bytes) where
  -- A file whose path below the cache directory is a blob key has the digest that its key names.
  abbrev pub IsRight : File → Type 0
  IsRight f = (sha : Bytes) → stored_sha dir f.path ≡ some sha → hex (sha256 f.content) ≡ sha
