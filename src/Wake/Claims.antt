-- ===== src/Wake/Claims.antt =====
-- A wake request is claimed once: ClaimDueWakeRequests of services/api/internal/store/store.go.
use smart_deploy_linux.Prelude.Table.{any, select, update}
use smart_deploy_linux.Prelude.{
  ℕ, zero, suc, ◌≡◌, refl, sym, ap, ◌∙◌, true, false, String, List, [], ◌∷◌, take, ◌==◌, ==_iff,
  if◌then◌else◌, All, arith, Bool-cases, inl, inr,
}
use smart_deploy_linux.Schema.{ok}
use smart_deploy_linux.Drivers.Sort.{All-stable_sort}
use smart_deploy_linux.Wake.{
  WakeRequest, is_due, is_earlier, due, has_id, claim, or_default, claim_due_wake_requests,
}

-- No row of the second list has the id of a row of the first.
abbrev pub IsDisjoint : List WakeRequest → List WakeRequest → Type 0
IsDisjoint first = All (λ w. has_id first w ≡ false)

All-take {κ} :
    (P : WakeRequest → Type κ) (n : ℕ) (ws : List WakeRequest) → All P ws → All P (take n ws)
All-take P zero ws h = tt
All-take P (suc n) [] h = tt
All-take P (suc n) (w ∷ ws) h = (h.0, All-take P n ws h.1)

claimed_not_due :
    (now later : ℕ) (site agent : String) (w : WakeRequest)
    → is_due later site (claim now agent w) ≡ false
claimed_not_due now later site agent w = ground arith

-- What is due after a claim has none of the ids that it took.
due-IsDisjoint :
    (now later : ℕ) (site agent : String) (taken queue : List WakeRequest)
    → IsDisjoint taken (select (is_due later site) (update (has_id taken) (claim now agent) queue))
unfolding select update
due-IsDisjoint now later site agent taken [] = tt
due-IsDisjoint now later site agent taken (w ∷ queue) =
    let rest = due-IsDisjoint now later site agent taken queue in
    elim (Bool-cases (has_id taken w)) [
      | inl took ↦ rw (took, claimed_not_due now later site agent w) rest
      | inr free ↦ elim (Bool-cases (is_due later site w)) [
        | inl ready ↦ rw (free, ready) (free, rest)
        | inr waits ↦ rw (free, waits) rest
      ]
    ]

has_id-same : (ws : List WakeRequest) (v w : WakeRequest) → v.id ≡ w.id → has_id ws v ≡ has_id ws w
has_id-same ws v w same = ap (λ n. any (λ u. u.id == n) ws) same

disjoint_here :
    (taken vs : List WakeRequest) (w : WakeRequest)
    → IsDisjoint taken vs
    → has_id vs w ≡ true
    → has_id taken w ≡ false
unfolding any
disjoint_here taken [] w h hit = cc
disjoint_here taken (v ∷ vs) w h hit = elim (Bool-cases (v.id == w.id)) [
  | inl here ↦ sym (has_id-same taken v w ((==_iff v.id w.id).0 here)) ∙ h.0
  | inr there ↦ disjoint_here taken vs w h.1 (rw there at hit)
]

not_delivered :
    (taken queue : List WakeRequest) (w : WakeRequest)
    → has_id taken w ≡ false
    → has_id (select (has_id taken) queue) w ≡ false
unfolding select any
not_delivered taken [] w h = refl
not_delivered taken (v ∷ queue) w h = elim (Bool-cases (has_id taken v)) [
  | inr passed ↦ rw passed (not_delivered taken queue w h)
  | inl took ↦ elim (Bool-cases (v.id == w.id)) [
    | inl same ↦ absurd (cc (took, has_id-same taken v w ((==_iff v.id w.id).0 same), h))
    | inr other ↦ rw (took, other) (not_delivered taken queue w h)
  ]
]

delivered-IsDisjoint :
    (first second queue queue' : List WakeRequest)
    → IsDisjoint first second
    → IsDisjoint (select (has_id first) queue) (select (has_id second) queue')
unfolding select
delivered-IsDisjoint first second queue [] h = tt
delivered-IsDisjoint first second queue (w ∷ queue') h = elim (Bool-cases (has_id second w)) [
  | inr passed ↦ rw passed (delivered-IsDisjoint first second queue queue' h)
  | inl took ↦ rw took (
    not_delivered first queue w (disjoint_here first second w h took),
    delivered-IsDisjoint first second queue queue' h,
  )
]

-- Of two claims for one site, one after the other, by any agents at any times and of any sizes, no
-- request is delivered by both.
pub claims-IsDisjoint :
    (now later limit limit' : ℕ) (site agent agent' : String) (queue : List WakeRequest)
    (first second : List WakeRequest)
    → (claim_due_wake_requests false now queue site agent limit).1 ≡ ok first
    → (claim_due_wake_requests false later
        (claim_due_wake_requests false now queue site agent limit).0
        site
        agent'
        limit').1
      ≡ ok second
    → IsDisjoint first second
unfolding claim_due_wake_requests
claims-IsDisjoint now later limit limit' site agent agent' queue first second h k =
    let home = or_default site "default" in
    let size = λ (n : ℕ). if n == 0 then 50 else n in
    let taken = due now home (size limit) queue in
    let queue' = update (has_id taken) (claim now agent) queue in
    let again = due later home (size limit') queue' in
    let apart = due-IsDisjoint now later home agent taken queue in
    let apart' : IsDisjoint taken again =
      All-take _ (size limit') _ (All-stable_sort is_earlier _ _ apart) in
    let both =
      delivered-IsDisjoint taken again queue' (update (has_id again) (claim later agent') queue')
        apart' in
    let e : select (has_id taken) queue' ≡ first = cc h in
    let f : select (has_id again) (update (has_id again) (claim later agent') queue') ≡ second =
      cc k in
    rw (← e, ← f) both
