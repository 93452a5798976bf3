-- ===== src/Tokens/Base64.antt =====
-- encoding/base64.RawURLEncoding, by which the services spell 32 random bytes as a token: the text of
-- a boot token (services/auth-broker/internal/codes/codes.go) and the secret of an API token
-- (services/api/cmd/api/apitokens.go).
use smart_deploy_linux.Prelude.{ℕ, ◌+◌, ◌*◌, ◌/◌, ◌%◌, [], ◌∷◌, Bytes, codes, get_or}

abbrev sextet : ℕ → ℕ
sextet n = get_or (codes "ABCDEFGHIJKLMNOPQRSTUVWXYZabcdefghijklmnopqrstuvwxyz0123456789-_") n 0

unfoldable pub base64url : Bytes → Bytes
base64url [] = []
base64url (a ∷ []) = sextet (a / 4) ∷ sextet (a % 4 * 16) ∷ []
base64url (a ∷ b ∷ []) = sextet (a / 4) ∷ sextet (a % 4 * 16 + b / 16) ∷ sextet (b % 16 * 4) ∷ []
base64url (a ∷ b ∷ c ∷ rest) =
    sextet (a / 4)
    ∷ sextet (a % 4 * 16 + b / 16)
    ∷ sextet (b % 16 * 4 + c / 64)
    ∷ sextet (c % 64)
    ∷ base64url rest
