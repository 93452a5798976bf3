-- ===== src/Tokens/Hash.antt =====
-- HashBootToken and HashAPIToken of services/api/internal/tokens/tokens.go; the first is the same as
-- HashBootToken of services/auth-broker/internal/codes/codes.go.
use mathlib.Core.List.{append_cancel_left}
use smart_deploy_linux.Prelude.{
  ℕ, ◌/◌, ◌%◌, ◌+◌, ◌≡◌, ◌≢◌, refl, ◌-◌, ◌<◌, All, [], ◌∷◌, ◌++◌, Bytes, codes, arith, ltb,
  if◌then◌else◌,
}

-- encoding/hex
hex_digit : ℕ → ℕ
hex_digit n = if ltb n 10 then b'0' + n else b'a' + (n - 10)

unfoldable pub hex : Bytes → Bytes
unfolding hex_digit
hex [] = []
hex (b ∷ bs) = hex_digit (b / 16) ∷ hex_digit (b % 16) ∷ hex bs

-- What is written to the digest, in order.
abbrev pub boot_input : Bytes → Bytes → Bytes
boot_input pepper token = pepper ++ (0 ∷ [] ++ token)

abbrev pub api_input : Bytes → Bytes → Bytes
api_input pepper token = pepper ++ ((codes "apitoken" ++ 0 ∷ []) ++ token)

module _ (sha256 : Bytes → Bytes) where
  unfoldable pub hash_boot_token : Bytes → Bytes → Bytes
  unfolding hex
  hash_boot_token token pepper = codes "sha256:" ++ hex (sha256 (boot_input pepper token))

  unfoldable pub hash_api_token : Bytes → Bytes → Bytes
  unfolding hex
  hash_api_token token pepper = codes "sha256:" ++ hex (sha256 (api_input pepper token))

abbrev pub IsByteList : Bytes → Type 0
IsByteList = All (λ b. b < 256)

hex_digit-injective : (m n : ℕ) → m < 16 → n < 16 → hex_digit m ≡ hex_digit n → m ≡ n
unfolding hex_digit
hex_digit-injective m n h k e = ground arith

byte-injective :
    (m n : ℕ)
    → m < 256
    → n < 256
    → hex_digit (m / 16) ≡ hex_digit (n / 16)
    → hex_digit (m % 16) ≡ hex_digit (n % 16)
    → m ≡ n
byte-injective m n h k high low = omega (
  arith,
  hex_digit-injective (m / 16) (n / 16) (omega arith) (omega arith) high,
  hex_digit-injective (m % 16) (n % 16) (omega arith) (omega arith) low,
)

pub hex-injective : (a b : Bytes) → IsByteList a → IsByteList b → hex a ≡ hex b → a ≡ b
unfolding hex
hex-injective [] [] h k e = refl
hex-injective [] (y ∷ b) h k e = cc
hex-injective (x ∷ a) [] h k e = cc
hex-injective (x ∷ a) (y ∷ b) (hx, ha) (ky, kb) e =
    cc (byte-injective x y hx ky (cc) (cc), hex-injective a b ha kb (cc))

-- What is digested for a boot token is never what is digested for an API token under the same pepper,
-- whatever the two secrets are.
pub inputs_apart : (pepper token secret : Bytes) → boot_input pepper token ≢ api_input pepper secret
inputs_apart pepper token secret e = cc (append_cancel_left pepper _ _ e)
