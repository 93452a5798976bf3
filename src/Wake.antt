-- ===== src/Wake.antt =====
-- The wake-on-LAN queue: CreateWakeRequest and ClaimDueWakeRequests of
-- services/api/internal/store/store.go, the handlers of services/api/cmd/api/wake.go, and the packet of
-- services/edge-agent/cmd/edge-agent/wol.go. Parsed values come from outside.
pub mod Claims
use smart_deploy_linux.Prelude.Table.{any, select, update}
use smart_deploy_linux.Prelude.{
  ℕ, zero, suc, Bool, true, false, not, ◌&&◌, Option, none, some, String, str_eq, List, [], ◌∷◌,
  ◌++◌, map, Bytes, bytes_eq, take, length, ltb, leb, ◌==◌, if◌then◌else◌, is_none,
}
use smart_deploy_linux.Schema.{Error, db_error, Result, ok, err}
use smart_deploy_linux.Drivers.Sort.{stable_sort}

pub record WakeRequest : Type 0 where
  pub id : ℕ
  pub machine_id : ℕ
  pub mac : String
  pub site : String
  pub scheduled_at : ℕ
  pub requested_by : Option ℕ
  pub claimed_at : Option ℕ
  pub claimed_by : Option String
  pub created_at : ℕ

-- An empty text stands for a default.
abbrev pub or_default : String → String → String
or_default s default = if str_eq s "" then default else s

-- `at` is none for the zero time.
unfoldable pub create_wake_request :
    Bool
    → ℕ
    → ℕ
    → List WakeRequest
    → ℕ
    → String
    → String
    → Option ℕ
    → Option ℕ
    → List WakeRequest × Result ℕ
create_wake_request fails now id queue machine_id mac site at by =
    if fails then (queue, err db_error) else (
      queue
          ++ record {
            id = id;
            machine_id = machine_id;
            mac = mac;
            site = or_default site "default";
            scheduled_at = elim at [ none ↦ now | some t ↦ t ];
            requested_by = by;
            claimed_at = none;
            claimed_by = none;
            created_at = now;
          }
            ∷ [],
      ok id,
    )

abbrev pub is_due : ℕ → String → WakeRequest → Bool
is_due now site w = str_eq w.site site && is_none w.claimed_at && leb w.scheduled_at now

abbrev pub is_earlier : WakeRequest → WakeRequest → Bool
is_earlier a b = ltb a.scheduled_at b.scheduled_at

-- The subquery `due`.
abbrev pub due : ℕ → String → ℕ → List WakeRequest → List WakeRequest
due now site limit queue = take limit (stable_sort is_earlier (select (is_due now site) queue))

abbrev pub has_id : List WakeRequest → WakeRequest → Bool
has_id ws w = any (λ v. v.id == w.id) ws

abbrev pub claim : ℕ → String → WakeRequest → WakeRequest
claim now agent w = record w { claimed_at = some now; claimed_by = some agent }

-- ClaimDueWakeRequests; SKIP LOCKED matters only to claims that overlap.
unfoldable pub claim_due_wake_requests :
    Bool → ℕ → List WakeRequest → String → String → ℕ → List WakeRequest × Result (List WakeRequest)
unfolding stable_sort select any update
claim_due_wake_requests fails now queue site agent limit =
    let site' = or_default site "default" in
    let limit' = if limit == 0 then 50 else limit in
    let claimable = due now site' limit' queue in
    let queue' = update (has_id claimable) (claim now agent) queue in
    if fails then (queue, err db_error) else (queue', ok (select (has_id claimable) queue'))

pub data WakeReply : Type 0 where
  forbidden bad_id bad_json machine_not_found no_mac bad_time queue_error : WakeReply
  queued : ℕ → String → WakeReply

-- What wakeMachine reads of the request, the machine and the user.
pub record WakeCall : Type 0 where
  pub now : ℕ
  pub fails : Bool
  pub has_perm : Bool
  pub machine_id : Option ℕ
  pub body : Option (Option (Option ℕ) × String)  -- `at` (absent, or as it parses) and `site`
  pub machine : Option (Option String × String)  -- the primary MAC and the site of the attributes
  pub user : Option ℕ
  pub wake_id : ℕ

unfoldable pub queue_wake :
    WakeCall → List WakeRequest → ℕ → String → Option ℕ → String → List WakeRequest × WakeReply
unfolding create_wake_request
queue_wake c queue machine_id mac at site =
    let (queue', made) =
      create_wake_request c.fails c.now c.wake_id queue machine_id mac site at c.user in
    elim made [
      | err _ ↦ (queue', queue_error)
      | ok id ↦ (queue', queued id (or_default site "default"))
    ]

unfoldable pub wake_machine : WakeCall → List WakeRequest → List WakeRequest × WakeReply
unfolding queue_wake
wake_machine c queue = if not c.has_perm then (queue, forbidden) else elim c.machine_id [
  | none ↦ (queue, bad_id)
  | some machine_id ↦ elim c.body [
    | none ↦ (queue, bad_json)
    | some (at, site) ↦ elim c.machine [
      | none ↦ (queue, machine_not_found)
      | some (none, _) ↦ (queue, no_mac)
      | some (some mac, home) ↦ if str_eq mac "" then (queue, no_mac) else elim at [
        | some none ↦ (queue, bad_time)
        | some (some t) ↦ queue_wake c queue machine_id mac (some t) (or_default site home)
        | none ↦ queue_wake c queue machine_id mac none (or_default site home)
      ]
    ]
  ]
]

pub data QueueReply : Type 0 where
  not_found claim_error : QueueReply
  wakes : List (ℕ × ℕ × String) → QueueReply

-- edgeWakeQueue, with the token of the environment and the one of the header.
unfoldable pub edge_wake_queue :
    Bytes → Bytes → Bool → ℕ → List WakeRequest → String → String → List WakeRequest × QueueReply
unfolding claim_due_wake_requests bytes_eq
edge_wake_queue token sent fails now queue site agent =
    if bytes_eq token []
    then (queue, not_found)
    else if not (bytes_eq sent token)
    then (queue, not_found)
    else (let (queue', claimed) =
          claim_due_wake_requests fails now queue site (or_default agent "edge") 50 in
        elim claimed [
          | err _ ↦ (queue', claim_error)
          | ok ws ↦ (queue', wakes (map (λ w. (w.id, w.machine_id, w.mac)) ws))
        ])

-- The loop of buildMagicPacket, on an address that net.ParseMAC accepts.
unfoldable pub repeat_address : ℕ → Bytes → Bytes
repeat_address zero hw = []
repeat_address (suc n) hw = hw ++ repeat_address n hw

unfoldable pub build_magic_packet : Option Bytes → Option Bytes
unfolding repeat_address
build_magic_packet none = none
build_magic_packet (some hw) =
    if not (length hw == 6)
    then none
    else some (255 ∷ 255 ∷ 255 ∷ 255 ∷ 255 ∷ 255 ∷ repeat_address 16 hw)
