-- ===== src/Drivers/Select.antt =====
-- What Select of services/api/internal/driverpack/match.go returns.
use smart_deploy_linux.Prelude.Table.{count, select, any}
use smart_deploy_linux.Prelude.{
  ℕ, ◌≤◌, ◌≡◌, ◌⊎◌, refl, ◌∙◌, Bool, true, false, not, ◌&&◌, ◌||◌, List, [], ◌∷◌, map,
  if◌then◌else◌, All, arith, Bool-cases, inl, inr, ltb, ◌==◌,
}
use smart_deploy_linux.Drivers.{
  Unicode, Fingerprint, Rule, PackVersion, Match, less, os_compatible, eval_rule, best_from,
  best_tier, tier_no_match, results, select_packs,
}
use smart_deploy_linux.Drivers.Sort.{
  stable_sort, IsSorted, count-stable_sort, stable_sort-IsSorted, All-insert,
}
use smart_deploy_linux.Drivers.Order.{less_asym, less_trans}

below_both : (e b c : ℕ) → c ≤ (if ltb e b then e else b) → (c ≤ b) × (c ≤ e)
below_both e b c h = ground arith

from_either :
    (e b c : ℕ) (rest : Bool)
    → (c ≡ (if ltb e b then e else b)) ⊎ (rest ≡ true)
    → (c ≡ b) ⊎ (((e == c) || rest) ≡ true)
from_either e b c rest h = ground arith

module _ (u : Unicode) (fp : Fingerprint) where
  best_from_lem :
      (best : ℕ) (rules : List Rule)
      → (best_from u fp best rules ≤ best)
        × All (λ r. best_from u fp best rules ≤ eval_rule u fp r) rules
        × ((best_from u fp best rules ≡ best)
            ⊎ (any (λ r. eval_rule u fp r == best_from u fp best rules) rules ≡ true))
  unfolding best_from any
  best_from_lem best [] = (omega arith, tt, inl refl)
  best_from_lem best (r ∷ rs) =
      let e = eval_rule u fp r in
      let next = if ltb e best then e else best in
      let (below, each, origin) = best_from_lem next rs in
      let (below_best, below_rule) = below_both e best (best_from u fp next rs) below in
      (below_best, (below_rule, each), from_either e best (best_from u fp next rs) _ origin)

  -- The tier of a version is that of its best rule: no rule of it is better, and it is the tier of one
  -- of its rules, or none of them holds.
  pub best_tier_lem :
      (pv : PackVersion)
      → All (λ r. best_tier u fp pv ≤ eval_rule u fp r) pv.rules
        × ((best_tier u fp pv ≡ tier_no_match)
            ⊎ (any (λ r. eval_rule u fp r == best_tier u fp pv) pv.rules ≡ true))
  best_tier_lem pv = let (_, each, origin) = best_from_lem tier_no_match pv.rules in (each, origin)

  -- A version is applied if it suits the operating system and some rule of it holds.
  abbrev pub applies : PackVersion → Bool
  applies pv = os_compatible u pv fp && not (best_tier u fp pv == tier_no_match)

  -- With its tier.
  abbrev pub ranked : PackVersion → Match
  ranked pv = record { version = pv; tier = best_tier u fp pv }

  count-results :
      (p : PackVersion → Bool) (pvs : List PackVersion)
      → count (λ m. p m.version) (results u fp pvs) ≡ count p (select applies pvs)
  unfolding results count select
  count-results p [] = refl
  count-results p (pv ∷ pvs) = ground (arith, count-results p pvs)

  count-map :
      (p : PackVersion → Bool) (ms : List Match)
      → count p (map (λ m. m.version) ms) ≡ count (λ m. p m.version) ms
  unfolding count
  count-map p [] = refl
  count-map p (m ∷ ms) = omega (arith, count-map p ms)

  -- Select returns exactly the candidates that suit the operating system and of which a rule holds,
  -- each as often as it is among the candidates: every test holds of as many.
  pub count-select_packs :
      (p : PackVersion → Bool) (candidates : List PackVersion)
      → count p (select_packs u fp candidates) ≡ count p (select applies candidates)
  unfolding select_packs
  count-select_packs p candidates =
      count-map p (stable_sort less (results u fp candidates))
      ∙ count-stable_sort less (λ m. p m.version) (results u fp candidates)
      ∙ count-results p candidates

  -- The order of two versions by their tiers, vendors, models and version tags.
  abbrev pub ahead : PackVersion → PackVersion → Bool
  ahead a b = less (ranked a) (ranked b)

  results-ranked : (pvs : List PackVersion) → All (λ m. m ≡ ranked m.version) (results u fp pvs)
  unfolding results
  results-ranked [] = tt
  results-ranked (pv ∷ pvs) = elim (Bool-cases (os_compatible u pv fp)) [
    | inr other ↦ rw other (results-ranked pvs)
    | inl suits ↦ elim (Bool-cases (best_tier u fp pv == tier_no_match)) [
      | inl unmatched ↦ rw (suits, unmatched) (results-ranked pvs)
      | inr matched ↦ rw (suits, matched) (refl, results-ranked pvs)
    ]
  ]

  sort-ranked :
      (ms : List Match)
      → All (λ m. m ≡ ranked m.version) ms
      → All (λ m. m ≡ ranked m.version) (stable_sort less ms)
  unfolding stable_sort
  sort-ranked [] h = tt
  sort-ranked (m ∷ ms) h =
      All-insert less (λ m. m ≡ ranked m.version) m (stable_sort less ms) h.0 (sort-ranked ms h.1)

  after_all :
      (m : Match) (ms : List Match)
      → m ≡ ranked m.version
      → All (λ m. m ≡ ranked m.version) ms
      → All (λ y. less y m ≡ false) ms
      → All (λ y. ahead y m.version ≡ false) (map (λ m. m.version) ms)
  after_all m [] e h k = tt
  after_all m (n ∷ ms) e h k = (cc (k.0, e, h.0), after_all m ms e h.1 k.1)

  IsSorted-versions :
      (ms : List Match)
      → All (λ m. m ≡ ranked m.version) ms
      → IsSorted less ms
      → IsSorted ahead (map (λ m. m.version) ms)
  IsSorted-versions [] h k = tt
  IsSorted-versions (m ∷ ms) h k = (after_all m ms h.0 h.1 k.0, IsSorted-versions ms h.1 k.1)

  -- Select returns the versions in order: no version comes before one of a better tier, or of the same
  -- tier and an earlier vendor, model or version tag.
  pub select_packs-IsSorted :
      (candidates : List PackVersion) → IsSorted ahead (select_packs u fp candidates)
  unfolding select_packs
  select_packs-IsSorted candidates =
      let found = results u fp candidates in
      IsSorted-versions (stable_sort less found) (sort-ranked found (results-ranked candidates))
        (stable_sort-IsSorted less less_asym less_trans found)
