-- ===== src/Drivers/Order.antt =====
-- The order by which services/api/internal/driverpack/match.go sorts: tier, vendor, model, version tag.
use smart_deploy_linux.Prelude.{
  ℕ, ◌≡◌, sym, Bool, true, false, not, Bytes, bytes_eq, bytes_eq_iff, bytes_eq_refl, ltb, ◌==◌,
  if◌then◌else◌, lex_ltb, lex_asym, lex_irrefl, lex_trans, lex_total, arith, Bool-cases, inl, inr,
}
use smart_deploy_linux.Drivers.{Match, less}

-- One key of the comparison, and what the keys after it say.
then_by : Bytes → Bytes → Bool → Bool
then_by a b next = if not (bytes_eq a b) then lex_ltb a b else next

then_by_asym :
    (a b : Bytes) (m n : Bool)
    → (m ≡ true → n ≡ false)
    → then_by a b m ≡ true
    → then_by b a n ≡ false
unfolding then_by
then_by_asym a b m n next h = elim (Bool-cases (bytes_eq a b)) [
  | inl same ↦
      let a-b = (bytes_eq_iff a b).0 same in
      let same' : bytes_eq b a ≡ true = (bytes_eq_iff b a).1 (sym a-b) in
      rw same' (next (rw same at h))
  | inr other ↦
      let less_a = rw other at h in
      let b-a : bytes_eq b a ≡ false = ground (arith, bytes_eq_iff b a, bytes_eq_iff a b) in
      rw b-a (lex_asym a b less_a)
]

then_by_not_less : (a b : Bytes) (n : Bool) → then_by a b n ≡ false → lex_ltb a b ≡ false
unfolding then_by
then_by_not_less a b n h = elim (Bool-cases (bytes_eq a b)) [
  | inl same ↦ rw ((bytes_eq_iff a b).0 same) (lex_irrefl b)
  | inr other ↦ rw other at h
]

then_by_same : (a : Bytes) (n : Bool) → then_by a a n ≡ n
unfolding then_by
then_by_same a n = rw (bytes_eq_refl a)

then_by_trans :
    (a b c : Bytes) (l m n : Bool)
    → (l ≡ false → m ≡ false → n ≡ false)
    → then_by b a l ≡ false
    → then_by c b m ≡ false
    → then_by c a n ≡ false
unfolding then_by
then_by_trans a b c l m n next h k =
    let ba = then_by_not_less b a l h in
    let cb = then_by_not_less c b m k in
    elim (Bool-cases (bytes_eq c a)) [
      | inr other ↦ rw other (lex_trans a b c ba cb)
      | inl same ↦
          let c-a = (bytes_eq_iff c a).0 same in
          let a-b : a ≡ b = lex_total a b (cc (c-a, cb)) ba in
          rw same (next (cc (h, then_by_same a l, a-b)) (cc (k, then_by_same a m, a-b, c-a)))
    ]

tier_trans :
    (a b c : ℕ) (l m n : Bool)
    → (l ≡ false → m ≡ false → n ≡ false)
    → (if not (b == a) then ltb b a else l) ≡ false
    → (if not (c == b) then ltb c b else m) ≡ false
    → (if not (c == a) then ltb c a else n) ≡ false
tier_trans a b c l m n next h k = ground arith

pub less_asym : (x y : Match) → less x y ≡ true → less y x ≡ false
unfolding less then_by
less_asym x y h = elim (Bool-cases (x.tier == y.tier)) [
  | inr other ↦ ground arith
  | inl same ↦
      let same' : (y.tier == x.tier) ≡ true = ground arith in
      rw same' (
        then_by_asym x.version.vendor y.version.vendor _ _
          (then_by_asym x.version.model y.version.model _ _
            (lex_asym x.version.version_tag y.version.version_tag))
          (rw same at h))
]

pub less_trans : (x y z : Match) → less y x ≡ false → less z y ≡ false → less z x ≡ false
unfolding less then_by
less_trans x y z h k =
    let v = then_by_trans x.version.vendor y.version.vendor z.version.vendor _ _ _ (
      then_by_trans x.version.model y.version.model z.version.model _ _ _
        (lex_trans x.version.version_tag y.version.version_tag z.version.version_tag)) in
    tier_trans x.tier y.tier z.tier _ _ _ v h k
