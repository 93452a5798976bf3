-- ===== src/Drivers/Applies.antt =====
-- What the rules of a driver pack mean, apart from the code of
-- services/api/internal/driverpack/match.go, and that Select goes by it.
use smart_deploy_linux.Prelude.Table.{count, select, any}
use smart_deploy_linux.Prelude.{
  ℕ, ◌≡◌, ◌≢◌, ◌≤◌, ◌⊎◌, ◌↔◌, inl, inr, refl, Bool, true, not, ◌&&◌, List, [], ◌∷◌, ◌++◌, map,
  Bytes, codes, bytes_eq, bytes_eq_iff, eq_iff, str_eq, String, has_prefix, ltb, if◌then◌else◌,
  arith, Bool-cases,
}
use smart_deploy_linux.Drivers.{
  Unicode, is_empty, PciId, Fingerprint, Rule, PackVersion, normalize, lower_text, pci_key,
  equal_fold, os_compatible, eval_rule, best_from, tier_no_match, select_packs,
}
use smart_deploy_linux.Drivers.Select.{applies, count-select_packs}

-- P holds of a member.
abbrev pub HasOne {ℓ} : {A : Type ℓ} → (A → Type 0) → List A → Type 0
HasOne P [] = ⊥
HasOne P (x ∷ xs) = P x ⊎ HasOne P xs

abbrev pub Begins : Bytes → Bytes → Type 0
Begins p s = (rest : Bytes) × (s ≡ p ++ rest)

-- `ys` are the members of `xs` of which P holds, in their order.
pub data Kept {ℓ} {A : Type ℓ} (P : A → Type 0) : List A → List A → Type ℓ where
  none_left : Kept P [] []
  keep : {x : A} {xs ys : List A} → P x → Kept P xs ys → Kept P (x ∷ xs) (x ∷ ys)
  drop : {x : A} {xs ys : List A} → ¬ P x → Kept P xs ys → Kept P (x ∷ xs) ys

prefix_from : (p s : Bytes) → has_prefix p s ≡ true → Begins p s
unfolding has_prefix
prefix_from [] s h = (s, refl)
prefix_from (c ∷ p) [] h = absurd (cc h)
prefix_from (c ∷ p) (d ∷ s) h =
    let (rest, e) = prefix_from p s (ground arith) in
    let same : c ≡ d = ground arith in (rest, cc (e, same))

prefix_to : (p rest : Bytes) → has_prefix p (p ++ rest) ≡ true
unfolding has_prefix
prefix_to [] rest = refl
prefix_to (c ∷ p) rest = ground (arith, prefix_to p rest)

has_prefix_iff : (p s : Bytes) → (has_prefix p s ≡ true) ↔ Begins p s
has_prefix_iff p s = (prefix_from p s, λ b. rw b.1 (prefix_to p b.0))

iff_trans : {A B C : Type 0} → A ↔ B → B ↔ C → A ↔ C
iff_trans f g = (λ a. g.0 (f.0 a), λ c. f.1 (g.1 c))

and_iff : {T A B : Type 0} → A ↔ B → (T × A) ↔ (T × B)
and_iff f = (λ h. (h.0, f.0 h.1), λ h. (h.0, f.1 h.1))

or_iff : {A B C D : Type 0} → A ↔ B → C ↔ D → (A ⊎ C) ↔ (B ⊎ D)
or_iff f g = (
  λ h. elim h [ inl a ↦ inl (f.0 a) | inr c ↦ inr (g.0 c) ],
  λ h. elim h [ inl b ↦ inl (f.1 b) | inr d ↦ inr (g.1 d) ],
)

-- A rule is of one type, and its tier is kept where its test holds.
pick :
    (type : String) (a b c d e f : Bool)
    → (◌≢◌ {A = ℕ}
        (if str_eq type "pci-vid-did"
          then (if a then 1 else 99)
          else if str_eq type "dmi-product"
          then (if b then 2 else 99)
          else if str_eq type "dmi-product-prefix"
          then (if c then 2 else 99)
          else if str_eq type "dmi-baseboard"
          then (if d then 3 else 99)
          else if str_eq type "dmi-vendor"
          then (if e then 5 else 99)
          else if str_eq type "os-version"
          then (if f then 4 else 99)
          else 99)
        99)
      ↔ (((type ≡ "pci-vid-did") × (a ≡ true))
          ⊎ (((type ≡ "dmi-product") × (b ≡ true))
              ⊎ (((type ≡ "dmi-product-prefix") × (c ≡ true))
                  ⊎ (((type ≡ "dmi-baseboard") × (d ≡ true))
                      ⊎ (((type ≡ "dmi-vendor") × (e ≡ true))
                          ⊎ ((type ≡ "os-version") × (f ≡ true)))))))
pick type a b c d e f = ground (
  arith,
  eq_iff type "pci-vid-did",
  eq_iff type "dmi-product",
  eq_iff type "dmi-product-prefix",
  eq_iff type "dmi-baseboard",
  eq_iff type "dmi-vendor",
  eq_iff type "os-version",
  eq_iff "pci-vid-did" "dmi-product",
  eq_iff "pci-vid-did" "dmi-product-prefix",
  eq_iff "pci-vid-did" "dmi-baseboard",
  eq_iff "pci-vid-did" "dmi-vendor",
  eq_iff "pci-vid-did" "os-version",
  eq_iff "dmi-product" "dmi-product-prefix",
  eq_iff "dmi-product" "dmi-baseboard",
  eq_iff "dmi-product" "dmi-vendor",
  eq_iff "dmi-product" "os-version",
  eq_iff "dmi-product-prefix" "dmi-baseboard",
  eq_iff "dmi-product-prefix" "dmi-vendor",
  eq_iff "dmi-product-prefix" "os-version",
  eq_iff "dmi-baseboard" "dmi-vendor",
  eq_iff "dmi-baseboard" "os-version",
  eq_iff "dmi-vendor" "os-version",
)

lower_best :
    (e best limit : ℕ) (A B C : Type 0)
    → e ≤ limit
    → best ≤ limit
    → (e ≢ limit) ↔ A
    → C ↔ (((if ltb e best then e else best) ≢ limit) ⊎ B)
    → C ↔ ((best ≢ limit) ⊎ (A ⊎ B))
lower_best e best limit A B C h k f g = ground arith

module _ (u : Unicode) (fp : Fingerprint) where
  -- The version is for the system: the family is the same but for its case, and the version is left
  -- open or begins that of the machine.
  abbrev pub Suits : PackVersion → Type 0
  Suits pv =
      (map u.fold pv.os_family ≡ map u.fold fp.os_family)
      × ((pv.os_version ≡ [])
          ⊎ ((pv.os_version ≡ codes "any") ⊎ Begins pv.os_version fp.os_version))

  -- What a rule asks of the machine.
  abbrev pub Holds : Rule → Type 0
  Holds r =
      ((r.type ≡ "pci-vid-did")
        × HasOne (λ p. map u.lower (p.vid ++ (b':' ∷ p.did)) ≡ map u.lower r.value) fp.pci_devices)
      ⊎ (((r.type ≡ "dmi-product")
            × ((normalize u fp.dmi_product ≢ [])
                × (normalize u r.value ≡ normalize u fp.dmi_product)))
          ⊎ (((r.type ≡ "dmi-product-prefix")
                × ((normalize u fp.dmi_product ≢ [])
                    × (r.value ≢ [])
                    × Begins (normalize u r.value) (normalize u fp.dmi_product)))
              ⊎ (((r.type ≡ "dmi-baseboard")
                    × ((normalize u fp.dmi_baseboard ≢ [])
                        × (normalize u r.value ≡ normalize u fp.dmi_baseboard)))
                  ⊎ (((r.type ≡ "dmi-vendor")
                        × ((normalize u fp.dmi_vendor ≢ [])
                            × (normalize u r.value ≡ normalize u fp.dmi_vendor)))
                      ⊎ ((r.type ≡ "os-version")
                          × ((fp.os_version ≢ []) × Begins r.value fp.os_version))))))

  abbrev pub Applies : PackVersion → Type 0
  Applies pv = Suits pv × HasOne Holds pv.rules

  os_compatible_iff : (pv : PackVersion) → (os_compatible u pv fp ≡ true) ↔ Suits pv
  unfolding os_compatible equal_fold
  os_compatible_iff pv = ground (
    arith,
    bytes_eq_iff (map u.fold pv.os_family) (map u.fold fp.os_family),
    bytes_eq_iff pv.os_version [],
    bytes_eq_iff pv.os_version (codes "any"),
    has_prefix_iff pv.os_version fp.os_version,
  )

  some_device :
      (value : Bytes) (ps : List PciId)
      → (any (λ p. bytes_eq (pci_key u p) (lower_text u value)) ps ≡ true)
        ↔ HasOne (λ p. map u.lower (p.vid ++ (b':' ∷ p.did)) ≡ map u.lower value) ps
  unfolding any lower_text
  some_device value [] = (λ h. absurd (cc h), λ h. absurd h)
  some_device value (p ∷ ps) =
      ground (arith, bytes_eq_iff (pci_key u p) (lower_text u value), some_device value ps)

  same_text :
      (text value : Bytes)
      → ((not (is_empty text) && bytes_eq value text) ≡ true) ↔ ((text ≢ []) × (value ≡ text))
  same_text text value = ground (arith, bytes_eq_iff text [], bytes_eq_iff value text)

  some_prefix :
      (text value own : Bytes)
      → ((not (is_empty text) && not (is_empty value) && has_prefix own text) ≡ true)
        ↔ ((text ≢ []) × (value ≢ []) × Begins own text)
  some_prefix text value own =
      ground (arith, bytes_eq_iff text [], bytes_eq_iff value [], has_prefix_iff own text)

  own_prefix :
      (text value : Bytes)
      → ((not (is_empty text) && has_prefix value text) ≡ true) ↔ ((text ≢ []) × Begins value text)
  own_prefix text value = ground (arith, bytes_eq_iff text [], has_prefix_iff value text)

  eval_rule_iff : (r : Rule) → (eval_rule u fp r ≢ tier_no_match) ↔ Holds r
  unfolding eval_rule
  eval_rule_iff r =
      let product = normalize u fp.dmi_product in
      let board = normalize u fp.dmi_baseboard in
      let vendor = normalize u fp.dmi_vendor in
      let value = normalize u r.value in
      iff_trans
        (pick r.type (any (λ p. bytes_eq (pci_key u p) (lower_text u r.value)) fp.pci_devices)
          (not (is_empty product) && bytes_eq value product)
          (not (is_empty product) && not (is_empty r.value) && has_prefix value product)
          (not (is_empty board) && bytes_eq value board)
          (not (is_empty vendor) && bytes_eq value vendor)
          (not (is_empty fp.os_version) && has_prefix r.value fp.os_version))
        (or_iff (and_iff (some_device r.value fp.pci_devices)) (
          or_iff (and_iff (same_text product value)) (
            or_iff (and_iff (some_prefix product r.value value)) (
              or_iff (and_iff (same_text board value)) (
                or_iff (and_iff (same_text vendor value))
                  (and_iff (own_prefix fp.os_version r.value)))))))

  eval_rule_bound : (r : Rule) → eval_rule u fp r ≤ tier_no_match
  unfolding eval_rule
  eval_rule_bound r = ground arith

  some_rule :
      (best : ℕ) (rs : List Rule)
      → best ≤ tier_no_match
      → (best_from u fp best rs ≢ tier_no_match) ↔ ((best ≢ tier_no_match) ⊎ HasOne Holds rs)
  unfolding best_from
  some_rule best [] h = ground arith
  some_rule best (r ∷ rs) h =
      let next = if ltb (eval_rule u fp r) best then eval_rule u fp r else best in
      lower_best (eval_rule u fp r) best tier_no_match (Holds r) (HasOne Holds rs) _
        (eval_rule_bound r) h (eval_rule_iff r)
        (some_rule next rs (ground (arith, eval_rule_bound r)))

  applies_iff : (pv : PackVersion) → (applies u fp pv ≡ true) ↔ Applies pv
  applies_iff pv =
      ground (arith, os_compatible_iff pv, some_rule tier_no_match pv.rules (omega arith))

  kept : (pvs : List PackVersion) → Kept Applies pvs (select (applies u fp) pvs)
  unfolding select
  kept [] = Kept.none_left
  kept (pv ∷ pvs) = elim (Bool-cases (applies u fp pv)) [
    | inl suits ↦ rw suits (Kept.keep ((applies_iff pv).0 suits) (kept pvs))
    | inr other ↦ rw other (Kept.drop (λ a. cc (other, (applies_iff pv).1 a)) (kept pvs))
  ]

  -- Select returns exactly the candidates that suit the operating system of the machine and of which at
  -- least one rule holds of it, each as often as it is a candidate: they are the members of one sublist
  -- of the candidates, and every test holds of as many of the one as of the other.
  pub select_packs-Kept :
      (candidates : List PackVersion)
      → (pvs : List PackVersion) × Kept Applies candidates pvs
        × ((p : PackVersion → Bool) → count p (select_packs u fp candidates) ≡ count p pvs)
  select_packs-Kept candidates =
      (select (applies u fp) candidates, kept candidates, λ p. count-select_packs u fp p candidates)
