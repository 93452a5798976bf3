-- ===== src/Packs/Ingest.antt =====
-- createBlob of services/api/cmd/api/ingest.go. The decoded body and the presigned URL come from outside.
use smart_deploy_linux.Prelude.{
  ℕ, Bool, true, not, ◌&&◌, ◌||◌, Option, none, some, String, str_eq, [], ◌∷◌, ◌++◌, take, Bytes,
  bytes_eq, codes, length, ◌==◌, if◌then◌else◌,
}
use smart_deploy_linux.Schema.{Result, ok, err}
use smart_deploy_linux.Access.{Principal, has_perm}
use smart_deploy_linux.Edge.{is_hex_digit}
use smart_deploy_linux.Packs.{Blob, Catalog, Faults, create_blob}

-- sha256Re
unfoldable pub all_hex : Bytes → Bool
all_hex [] = true
all_hex (c ∷ s) = is_hex_digit c && all_hex s

abbrev pub is_sha256 : Bytes → Bool
is_sha256 s = length s == 64 && all_hex s

-- bucketForRole, with the names of the environment.
pub record Buckets : Type 0 where
  pub images : Bytes
  pub drivers : Bytes
  pub blobs : Bytes

unfoldable pub bucket_for_role : Buckets → String → Option Bytes
bucket_for_role names role =
    if str_eq role "images" || str_eq role ""
    then some names.images
    else if str_eq role "drivers"
    then some names.drivers
    else if str_eq role "blobs"
    then some names.blobs
    else none

-- path.Base: what follows the last slash, trailing slashes left off.
unfoldable pub strip_slashes : Bytes → Bytes
strip_slashes [] = []
strip_slashes (c ∷ s) =
    let rest = strip_slashes s in if c == b'/' && bytes_eq rest [] then [] else c ∷ rest

unfoldable pub after_slash : Bytes → Bytes → Bytes
after_slash last [] = last
after_slash last (c ∷ s) = after_slash (if c == b'/' then [] else last ++ c ∷ []) s

unfoldable pub base : Bytes → Bytes
unfolding strip_slashes after_slash bytes_eq
base path =
    if bytes_eq path []
    then codes "."
    else (let name = after_slash [] (strip_slashes path) in
        if bytes_eq name [] then codes "/" else name)

abbrev pub blob_name : Bytes → Bytes
blob_name filename =
    let name = base filename in
    if bytes_eq name [] || bytes_eq name (codes ".") || bytes_eq name (codes "/")
    then codes "blob"
    else name

abbrev pub blob_key : Bytes → Bytes → Bytes
blob_key sha filename = take 2 sha ++ (b'/' ∷ (sha ++ (b'-' ∷ blob_name filename)))

-- `size_bytes` is none where it is not positive.
pub record CreateBlobReq : Type 0 where
  pub sha256 : Bytes
  pub size_bytes : Option ℕ
  pub filename : Bytes
  pub role : String

pub data BlobReply : Type 0 where
  forbidden bad_json bad_sha size_required bad_role not_configured create_error presign_error :
      BlobReply
  created : Blob → Bytes → BlobReply

-- The presigner: a URL for a bucket and a key.
abbrev pub Signer : Type 0
Signer = Bytes → Bytes → Option Bytes

abbrev pub blob_reply : Signer → Catalog × Result Blob → Catalog × BlobReply
blob_reply sign (cat, err _) = (cat, create_error)
blob_reply sign (cat, ok b) =
    (cat, elim (sign b.s3_bucket b.s3_key) [ none ↦ presign_error | some url ↦ created b url ])

unfoldable pub create_blob_checked :
    Faults → ℕ → ℕ → Buckets → Option Signer → CreateBlobReq → Catalog → Catalog × BlobReply
unfolding bucket_for_role all_hex base bytes_eq
create_blob_checked fails now id names signer req cat =
    if not (is_sha256 req.sha256) then (cat, bad_sha) else elim req.size_bytes [
      | none ↦ (cat, size_required)
      | some size ↦ elim (bucket_for_role names req.role) [
        | none ↦ (cat, bad_role)
        | some bucket ↦ elim signer [
          | none ↦ (cat, not_configured)
          | some sign ↦ blob_reply sign (
              create_blob fails now id cat req.sha256 size bucket
                (blob_key req.sha256 req.filename))
        ]
      ]
    ]

unfoldable pub create_blob_handler :
    Faults
    → ℕ
    → ℕ
    → Buckets
    → Option Signer
    → Option Principal
    → Option CreateBlobReq
    → Catalog
    → Catalog × BlobReply
unfolding create_blob_checked
create_blob_handler fails now id names signer p body cat =
    if not (has_perm p "image.write") then (cat, forbidden) else elim body [
      | none ↦ (cat, bad_json)
      | some req ↦ create_blob_checked fails now id names signer req cat
    ]
