-- ===== src/Render.antt =====
-- Texts of services/api/cmd/api/render.go that end up in scripts of the machines: the layout of a restore
-- and the mirrored addresses.
use smart_deploy_linux.Prelude.{
  ℕ, ◌≡◌, ◌≢◌, ◌≤◌, ◌⊎◌, ◌↔◌, bytes_eq_iff, refl, Bool, true, not, ◌&&◌, ◌||◌, Option, none, some,
  [], ◌∷◌, ◌++◌, Bytes, bytes_eq, codes, has_prefix, leb, ◌==◌, if◌then◌else◌, All, arith,
  Bool-cases, inl, inr,
}
use smart_deploy_linux.Packs.Ingest.{strip_slashes}

abbrev pub is_letter_or_digit : ℕ → Bool
is_letter_or_digit c =
    leb b'a' c && leb c b'z' || leb b'A' c && leb c b'Z' || leb b'0' c && leb c b'9'

abbrev pub is_safe_char : ℕ → Bool
is_safe_char c = is_letter_or_digit c || c == b'-' || c == b'_' || c == b'.'

unfoldable pub all_safe : Bytes → Bool
all_safe [] = true
all_safe (c ∷ s) = is_safe_char c && all_safe s

unfoldable pub is_safe : Bytes → Bool
unfolding all_safe bytes_eq
is_safe s = all_safe s && not (bytes_eq s [])

-- The variables of the profile, as the JSON decoder fills them.
pub record RestoreVars : Type 0 where
  pub layout : Bytes
  pub vg : Bytes
  pub swap : Bytes

abbrev pub setting : Bytes → Bytes → Bytes
setting name value = if is_safe value then name ++ value else []

unfoldable pub restore_layout_env : RestoreVars → Bytes
unfolding is_safe bytes_eq
restore_layout_env vars =
    if bytes_eq vars.layout (codes "lvm")
    then codes "export DEPLOY_LAYOUT=lvm"
      ++ (setting (codes " DEPLOY_VG=") vars.vg ++ setting (codes " DEPLOY_SWAP=") vars.swap)
    else codes "export DEPLOY_LAYOUT=plain"

-- What a value that is exported is made of: the letters, the digits, "-", "_" and ".".
abbrev pub IsPlain : ℕ → Type 0
IsPlain c =
    ((97 ≤ c) × (c ≤ 122))
    ⊎ (((65 ≤ c) × (c ≤ 90)) ⊎ (((48 ≤ c) × (c ≤ 57)) ⊎ ((c ≡ 45) ⊎ ((c ≡ 95) ⊎ (c ≡ 46)))))

abbrev pub IsValue : Bytes → Type 0
IsValue s = (s ≢ []) × All IsPlain s

-- One setting: it is exported with the value as it is, or it is left out.
abbrev pub IsSetting : Bytes → Bytes → Bytes → Type 0
IsSetting name value out = ((out ≡ name ++ value) × IsValue value) ⊎ ((out ≡ []) × ¬ IsValue value)

safe_char_iff : (c : ℕ) → (is_safe_char c ≡ true) ↔ IsPlain c
safe_char_iff c = ground arith

all_safe_iff : (s : Bytes) → (all_safe s ≡ true) ↔ All IsPlain s
unfolding all_safe
all_safe_iff [] = ((λ h. tt), (λ h. refl))
all_safe_iff (c ∷ s) =
    let (from, to) = safe_char_iff c in
    let (each, all) = all_safe_iff s in
    ((λ h. (from (ground arith), each (ground arith))), (λ h. ground (arith, to h.0, all h.1)))

safe_iff : (s : Bytes) → (is_safe s ≡ true) ↔ IsValue s
unfolding is_safe
safe_iff s =
    let (each, all) = all_safe_iff s in
    let (same, refl') = bytes_eq_iff s [] in
    (
      (λ h. ((λ e. ground (arith, refl' e)), each (ground arith))),
      (λ h. ground (arith, all h.1, (λ (e : bytes_eq s [] ≡ true). h.0 (same e)))),
    )

setting_lem : (name value : Bytes) → IsSetting name value (setting name value)
unfolding is_safe
setting_lem name value = elim (Bool-cases (is_safe value)) [
  | inl safe ↦ rw (safe, is_safe) (inl (refl, (safe_iff value).0 safe))
  | inr unsafe ↦ rw (unsafe, is_safe) (inr (refl, (λ h. cc (unsafe, (safe_iff value).1 h))))
]

-- Where the layout of the profile is "lvm", the machine's script exports it with the volume group and
-- the swap, each exactly if its text is one or more letters, digits, dashes, underscores and dots, and
-- then as it is; any other layout is exported as "plain", with no other setting.
pub restore_layout_env_lem :
    (vars : RestoreVars)
    → ((vars.layout ≡ codes "lvm")
        × ((vg : Bytes) × (swap : Bytes) × IsSetting (codes " DEPLOY_VG=") vars.vg vg
            × IsSetting (codes " DEPLOY_SWAP=") vars.swap swap
            × (restore_layout_env vars ≡ codes "export DEPLOY_LAYOUT=lvm" ++ (vg ++ swap))))
      ⊎ ((vars.layout ≢ codes "lvm")
          × (restore_layout_env vars ≡ codes "export DEPLOY_LAYOUT=plain"))
unfolding restore_layout_env
restore_layout_env_lem vars = elim (Bool-cases (bytes_eq vars.layout (codes "lvm"))) [
  | inl lvm ↦ inl (
    (bytes_eq_iff vars.layout (codes "lvm")).0 lvm,
    (
      setting (codes " DEPLOY_VG=") vars.vg,
      setting (codes " DEPLOY_SWAP=") vars.swap,
      setting_lem (codes " DEPLOY_VG=") vars.vg,
      setting_lem (codes " DEPLOY_SWAP=") vars.swap,
      rw (lvm, restore_layout_env) refl,
    ),
  )
  | inr other ↦ inr (
    (λ e. cc (other, (bytes_eq_iff vars.layout (codes "lvm")).1 e)),
    rw (other, restore_layout_env) refl,
  )
]

-- url.Parse: host and path.
pub record MediaUrl : Type 0 where
  pub host : Bytes
  pub path : Bytes

module _ (parse_url : Bytes → Option MediaUrl) where
  abbrev pub is_mirrored : Bytes → MediaUrl → Bool
  is_mirrored fqdn url =
      bytes_eq url.host fqdn
      && (has_prefix (codes "/static/") url.path || has_prefix (codes "/blobs/") url.path)

  unfoldable pub mirror_rewrite : Bytes → Bytes → Bytes → Bytes
  unfolding strip_slashes has_prefix bytes_eq
  mirror_rewrite mirror fqdn raw =
      if bytes_eq mirror [] || bytes_eq raw [] then raw else elim (parse_url raw) [
        | none ↦ raw
        | some url ↦ if is_mirrored fqdn url then strip_slashes mirror ++ url.path else raw
      ]
