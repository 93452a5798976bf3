-- ===== src/Broker/Checks.antt =====
-- The checks of the input in handleIssueCode of services/auth-broker/internal/broker/broker.go and
-- their answers.
use smart_deploy_linux.Prelude.{ℕ, ◌≡◌, ◌≢◌, ◌⊎◌, inl, inr, refl, Option, none, some, Bytes, arith}
use smart_deploy_linux.Broker.{Config}
use smart_deploy_linux.Broker.Issue.{
  IssueReq, Reply, issued, bad_machine_id, bad_profile_id, bad_issued_by, Parsers, Checked, ◌>>=◌,
  need, fine, refuse, check_kind, check_ttl, check_binding, check_order,
}

pub Checked-cases :
    {A : Type 0} (c : Checked A) → ((a : A) × (c ≡ fine a)) ⊎ ((e : Reply) × (c ≡ refuse e))
Checked-cases (fine a) = inl (a, refl)
Checked-cases (refuse e) = inr (e, refl)

-- A check that hands out no code.
abbrev pub IsCheck : {A : Type 0} → Checked A → Type 0
IsCheck c = (code : Bytes) (until : ℕ) → c ≢ refuse (issued code until)

fine-IsCheck : {A : Type 0} (a : A) → IsCheck (fine a)
fine-IsCheck a code until h = cc h

bind-IsCheck :
    {A B : Type 0} (c : Checked A) (f : A → Checked B)
    → IsCheck c
    → ((a : A) → IsCheck (f a))
    → IsCheck (c >>= f)
bind-IsCheck (fine a) f h k = k a
bind-IsCheck (refuse e) f h k = λ code until z. h code until (cc z)

need-IsCheck :
    {A : Type 0} (o : Option A) (e : Reply)
    → ((code : Bytes) (until : ℕ) → e ≢ issued code until)
    → IsCheck (need o e)
need-IsCheck none e h = λ code until z. h code until (cc z)
need-IsCheck (some a) e h = λ code until z. cc z

module _ (cfg : Config) (parse : Parsers) (req : IssueReq) where
  check_kind-IsCheck : IsCheck (check_kind parse req)
  unfolding check_kind
  check_kind-IsCheck code until h = ground arith

  check_ttl-IsCheck : IsCheck (check_ttl cfg req)
  unfolding check_ttl
  check_ttl-IsCheck code until h = ground arith

  check_binding-IsCheck : IsCheck (check_binding parse req)
  unfolding check_binding
  check_binding-IsCheck code until h = ground arith

  pub check_order-IsCheck : IsCheck (check_order cfg parse req)
  unfolding check_order
  check_order-IsCheck =
      bind-IsCheck (need (parse.uuid req.machine_id) bad_machine_id) _
        (need-IsCheck _ _ (λ c u z. cc z))
        (λ m.
          bind-IsCheck (need (parse.uuid req.profile_id) bad_profile_id) _
            (need-IsCheck _ _ (λ c u z. cc z))
            (λ p.
              bind-IsCheck (need (parse.uuid req.issued_by) bad_issued_by) _
                (need-IsCheck _ _ (λ c u z. cc z))
                (λ i. bind-IsCheck (check_kind parse req) _ check_kind-IsCheck (λ kinds.
                  bind-IsCheck (check_ttl cfg req) _ check_ttl-IsCheck (λ ttl.
                    bind-IsCheck (check_binding parse req) _ check_binding-IsCheck
                      (λ binding. fine-IsCheck _))))))
