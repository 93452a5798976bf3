-- ===== src/Packs/Address.antt =====
-- The key of a blob in the object store: createBlob of services/api/cmd/api/ingest.go writes it, and
-- services/edge-agent/cmd/edge-agent/cache.go reads the digest from it.
use smart_deploy_linux.Prelude.{ℕ, ◌≡◌, refl, true, some, [], ◌∷◌, ◌++◌, length, Bytes, arith}
use smart_deploy_linux.Edge.{is_hex_digit, hex_run, key_sha}
use smart_deploy_linux.Packs.Ingest.{all_hex, is_sha256, blob_name, blob_key}

-- A text of n digits followed by anything is taken up as that text.
hex_run-append :
    (s rest : Bytes) → all_hex s ≡ true → hex_run (length s) (s ++ rest) ≡ some (s, rest)
unfolding hex_run all_hex
hex_run-append [] rest h = refl
hex_run-append (c ∷ s) rest h = ground (arith, hex_run-append s rest)

hex_run-take :
    (s rest : Bytes) (n : ℕ)
    → length s ≡ n
    → all_hex s ≡ true
    → hex_run n (s ++ rest) ≡ some (s, rest)
hex_run-take s rest n size h = rw size at (hex_run-append s rest h)

two_digits :
    (a b : ℕ) (rest : Bytes)
    → is_hex_digit a ≡ true
    → is_hex_digit b ≡ true
    → hex_run 2 (a ∷ b ∷ rest) ≡ some (a ∷ b ∷ [], rest)
unfolding hex_run
two_digits a b rest h k = rw (h, k) refl

-- The edge agent reads back from the key of every blob that createBlob registers the digest that the
-- blob was registered with, whatever its file name.
pub key_sha-blob_key :
    (sha filename : Bytes) → is_sha256 sha ≡ true → key_sha (blob_key sha filename) ≡ some sha
unfolding key_sha all_hex
key_sha-blob_key [] filename h = cc
key_sha-blob_key (a ∷ []) filename h = cc
key_sha-blob_key (a ∷ b ∷ s) filename h =
    let sha = a ∷ b ∷ s in
    let hex : all_hex sha ≡ true = ground arith in
    let size : length sha ≡ 64 = ground arith in
    let tail = b'-' ∷ blob_name filename in
    let first : hex_run 2 (a ∷ b ∷ b'/' ∷ (sha ++ tail)) ≡ some (a ∷ b ∷ [], b'/' ∷ (sha ++ tail)) =
      two_digits a b (b'/' ∷ (sha ++ tail)) (ground arith) (ground arith) in
    rw (key_sha, first, hex_run-take sha tail 64 size hex) refl
