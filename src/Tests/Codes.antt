-- ===== src/Tests/Codes.antt =====
-- Runs of services/auth-broker/internal/codes/codes.go and services/api/internal/tokens/tokens.go.
use smart_deploy_linux.Prelude.{◌≡◌, refl, arith, [], ◌∷◌, codes, Bytes}
use smart_deploy_linux.Schema.{ok, err, bad_character}
use smart_deploy_linux.Codes.{generate, normalize}
use smart_deploy_linux.Codes.Canonical.{IsCode}
use smart_deploy_linux.Codes.Generate.{normalize-generate, generate_total}

abbrev random : Bytes
random = 255 ∷ 8 ∷ 9 ∷ 248 ∷ 41 ∷ 0 ∷ 1 ∷ 2 ∷ []

generated : generate random ≡ ok (codes "ABC-234")
unfolding generate
generated = refl

normalized : normalize (codes " abc 234 ") ≡ ok (codes "ABC-234")
unfolding normalize
normalized = refl

refused : normalize (codes "ABI-234") ≡ err (bad_character b'I')
unfolding normalize
refused = refl

normalize-generate_example :
    IsCode (codes "ABC-234") × (normalize (codes "ABC-234") ≡ ok (codes "ABC-234"))
normalize-generate_example = normalize-generate random (codes "ABC-234") generated

generate_total_example : (c : Bytes) × (generate random ≡ ok c)
generate_total_example = generate_total random (ground arith)
