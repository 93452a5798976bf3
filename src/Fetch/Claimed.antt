-- ===== src/Fetch/Claimed.antt =====
-- A download is claimed by one runner at a time: ClaimVendorFetchJob of
-- services/api/internal/store/store.go.
use smart_deploy_linux.Prelude.Table.{update, All-find, find-holds}
use smart_deploy_linux.Prelude.{
  ℕ, ◌≡◌, ◌≢◌, ◌≤◌, ◌+◌, refl, sym, ap, ◌∙◌, true, false, some, List, [], ◌∷◌, ◌==◌, ==_iff, arith,
  All, Bool-cases, Option-cases, inl, inr,
}
use smart_deploy_linux.Schema.{ok}
use smart_deploy_linux.Drivers.Sort.{All-stable_sort}
use smart_deploy_linux.Fetch.{
  VendorFetchJob, Faults, claim_job, ten_minutes, is_runnable, is_older, next_job, start,
  claim_vendor_fetch_job,
}

-- A job that was just started cannot run until ten minutes have passed.
abbrev Rests : ℕ → ℕ → VendorFetchJob → Type 0
Rests later id j = (j.id == id) ≡ true → is_runnable later j ≡ false

started_rests :
    (now later : ℕ) (j : VendorFetchJob)
    → later ≤ now + ten_minutes
    → is_runnable later (start now j) ≡ false
started_rests now later j soon = ground arith

claimed_rest :
    (now later id : ℕ) (jobs : List VendorFetchJob)
    → later ≤ now + ten_minutes
    → All (Rests later id) (update (λ j. j.id == id) (start now) jobs)
unfolding update
claimed_rest now later id [] soon = tt
claimed_rest now later id (j ∷ jobs) soon = elim (Bool-cases (j.id == id)) [
  | inl same ↦ rw same ((λ _. started_rests now later j soon), claimed_rest now later id jobs soon)
  | inr other ↦ rw other ((λ same. cc (other, same)), claimed_rest now later id jobs soon)
]

-- The outcome of a claim, where the statement gets through.
claim-ok :
    (fails : Faults) (now : ℕ) (jobs : List VendorFetchJob) (j : VendorFetchJob)
    → (claim_vendor_fetch_job fails now jobs).1 ≡ ok (some j)
    → (i : VendorFetchJob) × (next_job now jobs ≡ some i)
      × (start now i ≡ j)
      × ((claim_vendor_fetch_job fails now jobs).0 ≡ update (λ k. k.id == i.id) (start now) jobs)
unfolding claim_vendor_fetch_job
claim-ok fails now jobs j claimed = elim (Bool-cases (fails claim_job)) [
  | inl broke ↦ absurd (let e = rw broke at claimed in cc e)
  | inr works ↦ elim (Option-cases (next_job now jobs)) [
    | inl idle ↦ absurd (let e = rw (works, idle) at claimed in cc e)
    | inr (i, found) ↦
        rw (works, found) (i, refl, (let e = rw (works, found) at claimed in cc e), refl)
  ]
]

ids :
    (now later : ℕ) (k l j i : VendorFetchJob)
    → start now k ≡ j
    → start later l ≡ i
    → i.id ≡ j.id
    → (l.id == k.id) ≡ true
ids now later k l j i first second same = (==_iff l.id k.id).1 (
    ap (λ (v : VendorFetchJob). v.id) second ∙ same ∙ sym (ap (λ (v : VendorFetchJob). v.id) first))

-- Of two claims within ten minutes of each other, the second does not return the job that the first did.
pub claimed_once :
    (fails : Faults) (now later : ℕ) (jobs : List VendorFetchJob) (j i : VendorFetchJob)
    → later ≤ now + ten_minutes
    → (claim_vendor_fetch_job fails now jobs).1 ≡ ok (some j)
    → (claim_vendor_fetch_job fails later (claim_vendor_fetch_job fails now jobs).0).1 ≡ ok (some i)
    → i.id ≢ j.id
claimed_once fails now later jobs j i soon first second same =
    let out = claim-ok fails now jobs j first in
    let out' = claim-ok fails later _ i second in
    let rests : All (Rests later out.0.id) (claim_vendor_fetch_job fails now jobs).0 =
      rw out.3 (claimed_rest now later out.0.id jobs soon) in
    let idle : is_runnable later out'.0 ≡ false =
      All-find (Rests later out.0.id) (is_runnable later) _ (All-stable_sort is_older _ _ rests)
        out'.1 (ids now later out.0 out'.0 j i out.2 out'.2 same) in
    absurd (cc (idle, find-holds (is_runnable later) _ out'.1))
