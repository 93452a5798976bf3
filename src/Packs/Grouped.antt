-- ===== src/Packs/Grouped.antt =====
-- Which versions MatchDriverPacks of services/api/internal/store/store.go returns.
use smart_deploy_linux.Prelude.Table.{
  select, any, update, count, any-append, any-update, any-count, All-update,
}
use smart_deploy_linux.Prelude.{
  ℕ, ◌<◌, ◌≤◌, ◌≡◌, refl, ◌∙◌, Bool, true, false, not, ◌&&◌, ◌||◌, str_eq, List, [], ◌∷◌, ◌++◌, map,
  ltb, ◌==◌, ==_refl, if◌then◌else◌, arith, All, All-append, Bool-cases, inl, inr,
}
use smart_deploy_linux.Drivers.{
  Unicode, Fingerprint, Rule, PackVersion, os_compatible, eval_rule, best_tier, tier_no_match,
  select_packs,
}
use smart_deploy_linux.Drivers.Select.{applies, best_tier_lem, count-select_packs}
use smart_deploy_linux.Packs.Match.{
  Row, Candidate, new_candidate, add_rule, is_candidate, add_row, group, matched, suits,
}

pub or_left : (a b : Bool) → a ≡ true → (a || b) ≡ true
or_left a b h = ground arith

pub or_right : (a b : Bool) → b ≡ true → (a || b) ≡ true
or_right a b h = ground arith

any-updated :
    (p q : Candidate → Bool) (f : Candidate → Candidate) (cs : List Candidate)
    → ((c : Candidate) → p c ≡ true → q (f c) ≡ true)
    → any p cs ≡ true
    → any q (update p f cs) ≡ true
unfolding any update
any-updated p q f [] g h = cc
any-updated p q f (c ∷ cs) g h = ground (arith, g c, any-updated p q f cs g)

module _ (u : Unicode) (fp : Fingerprint) (id : ℕ) where
  -- A rule that holds of the fingerprint.
  abbrev pub hits : Rule → Bool
  hits r = not (str_eq r.type "") && ltb (eval_rule u fp r) tier_no_match

  abbrev pub is_hit_row : Row → Bool
  is_hit_row row = row.version.id == id && hits row.rule

  abbrev is_hit : Candidate → Bool
  is_hit c = is_candidate id c && any hits c.version.rules

  -- What is kept of a version suits the operating system.
  abbrev Suits : Candidate → Type 0
  Suits c = is_candidate id c ≡ true → os_compatible u c.version fp ≡ true

  abbrev pub RowSuits : Row → Type 0
  RowSuits row =
      (row.version.id == id) ≡ true → os_compatible u (new_candidate row).version fp ≡ true

  add_rule-is_hit : (r : Rule) (c : Candidate) → is_hit c ≡ true → is_hit (add_rule r c) ≡ true
  unfolding any
  add_rule-is_hit r c h = elim (Bool-cases (str_eq r.type "")) [
    | inl blank ↦ rw blank h
    | inr some_type ↦
        let both = any-append hits c.version.rules (r ∷ []) in rw some_type (ground (arith, both))
  ]

  add_rule-hits :
      (r : Rule) (c : Candidate) → hits r ≡ true → any hits (add_rule r c).version.rules ≡ true
  unfolding any
  add_rule-hits r c h = elim (Bool-cases (str_eq r.type "")) [
    | inl blank ↦ absurd (ground arith)
    | inr some_type ↦
        let both = any-append hits c.version.rules (r ∷ []) in
        let last : any hits (r ∷ []) ≡ true = ground arith in
        rw some_type (both ∙ or_right _ _ last)
  ]

  add_rule-Suits : (r : Rule) (c : Candidate) → Suits c → Suits (add_rule r c)
  unfolding os_compatible
  add_rule-Suits r c h = elim (Bool-cases (str_eq r.type "")) [
    | inl blank ↦ rw blank h
    | inr some_type ↦ rw some_type h
  ]

  add_rule-id : (r : Rule) (c : Candidate) → (add_rule r c).version.id ≡ c.version.id
  add_rule-id r c = ground arith

  -- One row: what was found stays, and a row that hits is found.
  abbrev known : List Candidate → Row → List Candidate
  known cs row = if any (is_candidate row.version.id) cs then cs else cs ++ new_candidate row ∷ []

  known_keeps :
      (p : Candidate → Bool) (cs : List Candidate) (row : Row)
      → any p cs ≡ true
      → any p (known cs row) ≡ true
  known_keeps p cs row h = elim (Bool-cases (any (is_candidate row.version.id) cs)) [
    | inl old ↦ rw old h
    | inr new ↦ rw new (any-append p cs (new_candidate row ∷ []) ∙ or_left _ _ h)
  ]

  known-any :
      (cs : List Candidate) (row : Row) → any (is_candidate row.version.id) (known cs row) ≡ true
  unfolding any
  known-any cs row = elim (Bool-cases (any (is_candidate row.version.id) cs)) [
    | inl old ↦ rw (old, old) refl
    | inr new ↦ rw new (
        any-append _ cs (new_candidate row ∷ [])
        ∙ or_right (any (is_candidate row.version.id) cs)
            (any (is_candidate row.version.id) (new_candidate row ∷ []))
            (ground (arith, ==_refl row.version.id)))
  ]

  add_row-keeps :
      (cs : List Candidate) (row : Row) → any is_hit cs ≡ true → any is_hit (add_row cs row) ≡ true
  unfolding add_row
  add_row-keeps cs row h =
      any-update is_hit (is_candidate row.version.id) (add_rule row.rule) (known cs row)
        (λ c hit. add_rule-is_hit row.rule c hit) (known_keeps is_hit cs row h)

  hit_same :
      (row : Row) (c : Candidate)
      → is_hit_row row ≡ true
      → is_candidate row.version.id c ≡ true
      → is_candidate id c ≡ true
  hit_same row c h k = ground arith

  add_row-hits :
      (cs : List Candidate) (row : Row) → is_hit_row row ≡ true → any is_hit (add_row cs row) ≡ true
  unfolding add_row
  add_row-hits cs row h =
      any-updated (is_candidate row.version.id) is_hit (add_rule row.rule) (known cs row)
        (λ c here.
          let rule = add_rule-hits row.rule c (ground arith) in
          let same = hit_same row c h here in rw (add_rule-id row.rule c, same, rule) refl)
        (known-any cs row)

  add_row-Suits :
      (cs : List Candidate) (row : Row) → All Suits cs → RowSuits row → All Suits (add_row cs row)
  unfolding add_row
  add_row-Suits cs row h k = elim (Bool-cases (any (is_candidate row.version.id) cs)) [
    | inl old ↦ rw old (All-update Suits _ _ cs (λ c here suits. add_rule-Suits row.rule c suits) h)
    | inr new ↦ rw new (
        All-update Suits _ _ (cs ++ new_candidate row ∷ [])
          (λ c here suits. add_rule-Suits row.rule c suits)
          (All-append Suits cs (new_candidate row ∷ []) h (k, tt)))
  ]

  group-keeps :
      (rows : List Row) (cs : List Candidate)
      → any is_hit cs ≡ true
      → any is_hit (group cs rows) ≡ true
  unfolding group
  group-keeps [] cs h = h
  group-keeps (row ∷ rows) cs h = group-keeps rows (add_row cs row) (add_row-keeps cs row h)

  group-hits :
      (rows : List Row) (cs : List Candidate)
      → any is_hit_row rows ≡ true
      → any is_hit (group cs rows) ≡ true
  unfolding group any
  group-hits [] cs h = cc
  group-hits (row ∷ rows) cs h = elim (Bool-cases (is_hit_row row)) [
    | inl here ↦ group-keeps rows (add_row cs row) (add_row-hits cs row here)
    | inr there ↦ group-hits rows (add_row cs row) (rw there at h)
  ]

  group-Suits :
      (rows : List Row) (cs : List Candidate)
      → All Suits cs
      → All RowSuits rows
      → All Suits (group cs rows)
  unfolding group
  group-Suits [] cs h k = h
  group-Suits (row ∷ rows) cs h k =
      group-Suits rows (add_row cs row) (add_row-Suits cs row h k.0) k.1

  hit_tier :
      (rs : List Rule) (best : ℕ)
      → any hits rs ≡ true
      → All (λ r. best ≤ eval_rule u fp r) rs
      → (best == tier_no_match) ≡ false
  unfolding any
  hit_tier [] best h each = cc
  hit_tier (r ∷ rs) best h each = elim (Bool-cases (hits r)) [
    | inl here ↦ ground arith
    | inr there ↦ hit_tier rs best (rw there at h) each.1
  ]

  -- A candidate that hits and suits is applied.
  chosen : (c : Candidate) → is_hit c ≡ true → Suits c → applies u fp c.version ≡ true
  chosen c h suits =
      let ok_os = suits (ground arith) in
      let (each, origin) = best_tier_lem u fp c.version in
      let low = hit_tier c.version.rules (best_tier u fp c.version) (ground arith) each in
      rw (ok_os, low) refl

  picked :
      (cs : List Candidate)
      → All Suits cs
      → any is_hit cs ≡ true
      → 0 < count (λ pv. pv.id == id) (select (applies u fp) (map (λ c. c.version) cs))
  unfolding any count select
  picked [] suit h = cc
  picked (c ∷ cs) suit h = elim (Bool-cases (is_hit c)) [
    | inl here ↦
        let mine : (c.version.id == id) ≡ true = ground arith in
        rw (chosen c here suit.0, mine) (omega arith)
    | inr there ↦
        let rest = picked cs suit.1 (rw there at h) in
        elim (Bool-cases (applies u fp c.version)) [
          | inl also ↦ rw also (omega arith)
          | inr not_it ↦ rw not_it rest
        ]
  ]

  any-matched :
      (cs : List Candidate) (pvs : List PackVersion)
      → any (λ pv. pv.id == id) pvs ≡ true
      → any (λ m. m.version_id == id) (map (matched cs) pvs) ≡ true
  unfolding any
  any-matched cs [] h = h
  any-matched cs (pv ∷ pvs) h = ground (arith, any-matched cs pvs)

  -- If the rows of the join hit and suit, the version is among the selected ones.
  pub group_selects :
      (rows : List Row)
      → any is_hit_row rows ≡ true
      → All RowSuits rows
      → any
          (λ m. m.version_id == id)
          (map (matched (group [] rows)) (select_packs u fp (map (λ c. c.version) (group [] rows))))
        ≡ true
  group_selects rows h suit =
      let cs = group [] rows in
      let enough = picked cs (group-Suits rows [] tt suit) (group-hits rows [] h) in
      let same = count-select_packs u fp (λ pv. pv.id == id) (map (λ c. c.version) cs) in
      any-matched cs _ ((any-count (λ pv. pv.id == id) _).1 (omega (arith, same, enough)))
