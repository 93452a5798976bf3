-- ===== src/Broker/Lifetime.antt =====
-- How long a code lives that handleIssueCode of services/auth-broker/internal/broker/broker.go hands out.
use smart_deploy_linux.Prelude.{ℕ, ◌≡◌, ◌⊎◌, ◌≤◌, ◌<◌, ◌+◌, ◌*◌, some, Bytes, arith, subst}
use smart_deploy_linux.Prelude.Duration.{add_duration, times-small, second}
use smart_deploy_linux.Schema.{Db}
use smart_deploy_linux.Broker.{Config, Hashes}
use smart_deploy_linux.Broker.Issue.{
  IssueReq, Parsers, Order, Request, issued, fine, check_ttl, check_order, require_internal_secret,
}
use smart_deploy_linux.Broker.Issued.{issue_success}

-- The lifetime of a code that is issued at `now` for `seconds` and expires at `until`: the one of the
-- configuration for no seconds, or as asked and at most a week; beyond the signed range of
-- nanoseconds it has passed already, and beyond 64 bits anything is possible.
abbrev pub IsLifetime : ℕ → ℕ → ℕ → ℕ → Type 0
IsLifetime default now seconds until =
    ((seconds ≡ 0) × (until ≡ add_duration now default))
    ⊎ (((0 < seconds) × (seconds ≤ 604_800) × (until ≡ now + seconds * 1_000_000_000))
        ⊎ (((9_223_372_036 < seconds) × (seconds ≤ 18_446_744_073) × (until ≤ now))
            ⊎ (18_446_744_073 < seconds)))

check_order-ttl :
    (cfg : Config) (parse : Parsers) (req : IssueReq) (o : Order)
    → check_order cfg parse req ≡ fine o
    → check_ttl cfg req ≡ fine o.ttl
unfolding check_order
check_order-ttl cfg parse req o h = ground arith

ttl-IsLifetime :
    (cfg : Config) (req : IssueReq) (now ttl : ℕ)
    → check_ttl cfg req ≡ fine ttl
    → IsLifetime cfg.default_code_ttl now req.ttl_seconds (add_duration now ttl)
unfolding check_ttl
ttl-IsLifetime cfg req now ttl h = ground (arith, times-small req.ttl_seconds second)

-- If a request to issue a code is answered with the code `code` until `until`, then the lifetime is the
-- one of the configuration where no positive number of seconds is asked for, and else it is the asked
-- one and at most 604800 seconds, or more than 9223372036 seconds were asked for, of which the
-- nanoseconds overflow int64; up to 18446744073 seconds such a code has expired when it is issued.
pub issued-IsLifetime :
    (k : Hashes) (cfg : Config) (parse : Parsers) (r : Request) (req : IssueReq) (db : Db)
    (code : Bytes) (until : ℕ)
    → r.body ≡ some req
    → (require_internal_secret k cfg parse r db).1 ≡ issued code until
    → IsLifetime cfg.default_code_ttl r.now req.ttl_seconds until
issued-IsLifetime k cfg parse r req db code until body h =
    let i = (issue_success k cfg parse r db code until h).1 in
    let same : i.req ≡ req = cc (body, i.asked) in
    let ttl = check_order-ttl cfg parse i.req i.order i.checked in
    let life = ttl-IsLifetime cfg i.req r.now i.order.ttl ttl in
    rw i.expiry (
      subst
        (λ q. IsLifetime cfg.default_code_ttl r.now q.ttl_seconds (add_duration r.now i.order.ttl))
        same life)
