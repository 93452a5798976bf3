-- ===== src/Bus.antt =====
-- The event bus of services/api/internal/eventbus/eventbus.go. A channel is its number and its buffer;
-- the lock makes every call one step.
pub mod Delivery
use smart_deploy_linux.Prelude.Table.{any, count, delete, update}
use smart_deploy_linux.Prelude.{
  ℕ, Bool, true, false, not, ◌||◌, String, List, [], ◌∷◌, ◌++◌, length, ltb, ◌==◌, if◌then◌else◌,
}

pub record Event : Type 0 where
  pub job_id : ℕ
  pub phase : String
  pub message : String
  pub state : String
  pub at : ℕ

-- A member of the set of a job's subscribers.
pub record Subscriber : Type 0 where
  pub channel : ℕ
  pub job_id : ℕ
  pub buffer : List Event

-- `closed` are the channels that close has been called on.
pub record Bus : Type 0 where
  pub subs : List Subscriber
  pub closed : List ℕ

abbrev pub new : Bus
new = record { subs = []; closed = [] }

abbrev pub buffer_size : ℕ
buffer_size = 16

unfoldable pub subscribe : ℕ → ℕ → Bus → Bus
subscribe channel job_id b = record b {
  subs = b.subs ++ record { channel = channel; job_id = job_id; buffer = [] } ∷ [];
}

-- The send that does not block.
abbrev pub offer : Event → Subscriber → Subscriber
offer ev s =
    if ltb (length s.buffer) buffer_size then record s { buffer = s.buffer ++ ev ∷ [] } else s

unfoldable pub publish : Event → Bus → Bus
publish ev b = record b { subs = update (λ s. s.job_id == ev.job_id) (offer ev) b.subs }

pub data Cancelled : Type 0 where
  cancelled : Bus → Cancelled
  panic : Cancelled  -- close of a closed channel

unfoldable pub cancel : ℕ → Bus → Cancelled
unfolding any
cancel channel b =
    if any (λ c. c == channel) b.closed
    then panic
    else cancelled
        (record { subs = delete (λ s. s.channel == channel) b.subs; closed = channel ∷ b.closed })

unfoldable pub sub_count : ℕ → Bus → ℕ
sub_count job_id b = count (λ s. s.job_id == job_id) b.subs
