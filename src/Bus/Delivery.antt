-- ===== src/Bus/Delivery.antt =====
-- Every history of calls on the bus of services/api/internal/eventbus/eventbus.go.
use smart_deploy_linux.Prelude.Table.{any, delete, select, All-update}
use smart_deploy_linux.Prelude.{
  ℕ, ◌<◌, ◌≤◌, ◌≡◌, Bool, true, false, ◌||◌, List, [], ◌∷◌, length, length-append, ltb, ◌==◌, All,
  All-append, arith, Bool-cases, inl, inr,
}
use smart_deploy_linux.Bus.{
  Event, Subscriber, Bus, new, buffer_size, subscribe, offer, publish, cancelled, cancel,
}

-- The calls that users of the bus make: a channel that make returns is new.
infix 40 ◌⇒◌
pub data ◌⇒◌ (b : Bus) : Bus → Type 0 where
  subscribes :
      (channel job_id : ℕ)
      → any (λ c. c == channel) b.closed ≡ false
      → b ⇒ subscribe channel job_id b
  publishes : (ev : Event) → b ⇒ publish ev b
  cancels : (channel : ℕ) (left : Bus) → cancel channel b ≡ cancelled left → b ⇒ left

infix 40 ◌⇒*◌
pub data ◌⇒*◌ : Bus → Bus → Type 0 where
  stay : {b : Bus} → b ⇒* b
  step : {a b c : Bus} → a ⇒ b → b ⇒* c → a ⇒* c

-- A subscriber whose channel is open and whose buffer is not over its size.
abbrev pub IsServed : List ℕ → Subscriber → Type 0
IsServed closed s = (any (λ c. c == s.channel) closed ≡ false) × (length s.buffer ≤ buffer_size)

abbrev pub IsSafe : Bus → Type 0
IsSafe b = All (IsServed b.closed) b.subs

room_left : (n : ℕ) → ltb n buffer_size ≡ true → n < buffer_size
room_left n h = ground arith

length-offer :
    (ev : Event) (s : Subscriber)
    → length s.buffer ≤ buffer_size
    → length (offer ev s).buffer ≤ buffer_size
length-offer ev s h = elim (Bool-cases (ltb (length s.buffer) buffer_size)) [
  | inl room ↦
      rw room (omega (arith, length-append s.buffer (ev ∷ []), room_left (length s.buffer) room))
  | inr full ↦ rw full h
]

apart :
    (channel c : ℕ) (rest : Bool)
    → (c == channel) ≡ false
    → rest ≡ false
    → (channel == c || rest) ≡ false
apart channel c rest h k = ground arith

offer-IsServed :
    (closed : List ℕ) (ev : Event) (s : Subscriber)
    → IsServed closed s
    → IsServed closed (offer ev s)
offer-IsServed closed ev s (open_channel, few) =
    elim (Bool-cases (ltb (length s.buffer) buffer_size)) [
      | inl room ↦ (rw room open_channel, length-offer ev s few)
      | inr full ↦ (rw full open_channel, length-offer ev s few)
    ]

open_others :
    (channel : ℕ) (closed : List ℕ) (subs : List Subscriber)
    → All (IsServed closed) subs
    → All (IsServed (channel ∷ closed)) (delete (λ s. s.channel == channel) subs)
unfolding delete select any
open_others channel closed [] h = tt
open_others channel closed (s ∷ subs) h = elim (Bool-cases (s.channel == channel)) [
  | inl gone ↦ rw gone (open_others channel closed subs h.1)
  | inr kept ↦
      rw kept ((apart channel s.channel _ kept h.0.0, h.0.1), open_others channel closed subs h.1)
]

step-IsSafe : {a b : Bus} → a ⇒ b → IsSafe a → IsSafe b
unfolding subscribe publish cancel
step-IsSafe {a} (subscribes channel job_id fresh) h =
    All-append (IsServed a.closed) a.subs _ h ((fresh, omega arith), tt)
step-IsSafe {a} (publishes ev) h =
    All-update (IsServed a.closed) _ (offer ev) a.subs
      (λ s hit served. offer-IsServed a.closed ev s served) h
step-IsSafe {a} (cancels channel left e) h = elim (Bool-cases (any (λ c. c == channel) a.closed)) [
  | inl twice ↦ absurd (let f = rw twice at e in cc f)
  | inr once ↦
      let f = rw once at e in
      let same : left ≡ record {
        subs = delete (λ s. s.channel == channel) a.subs;
        closed = channel ∷ a.closed;
      } =
        cc f in
      rw same (open_others channel a.closed a.subs h)
]

from_IsSafe : {a b : Bus} → a ⇒* b → IsSafe a → IsSafe b
from_IsSafe stay h = h
from_IsSafe (step s rest) h = from_IsSafe rest (step-IsSafe s h)

-- After any calls, no subscriber that Publish could send to has a closed channel, and no buffer holds
-- more than sixteen events: Publish never sends on a closed channel.
pub reachable-IsSafe : (b : Bus) → new ⇒* b → IsSafe b
reachable-IsSafe b path = from_IsSafe path tt
