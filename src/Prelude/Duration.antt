-- ===== src/Prelude/Duration.antt =====
-- time.Duration: an int64 of nanoseconds, kept as its 64-bit pattern, and times in nanoseconds.
use smart_deploy_linux.Prelude.Tests.{ltb, if◌then◌else◌}
use Prim.Native.Nat.{ℕ, ◌+◌, ◌-◌, ◌*◌, ◌%◌, ◌^◌, ◌<◌}
use mathlib.Core.Path.{◌≡◌}
use mathlib.Core.Bool.{Bool, not}
use native.Mathlib.Nat.{mod-eq_of_lt}

abbrev pub word : ℕ
word = 2 ^ 64

abbrev pub sign_bit : ℕ
sign_bit = 2 ^ 63

abbrev pub second : ℕ
second = 1_000_000_000

abbrev pub hour : ℕ
hour = 3600 * second

abbrev pub day : ℕ
day = 24 * hour

-- time.Duration(n) * unit, for an n that is not negative.
unfoldable pub times : ℕ → ℕ → ℕ
times n unit = n * unit % word

abbrev pub is_negative : ℕ → Bool
is_negative d = not (ltb d sign_bit)

-- A time and a duration; a time before the first one stops there.
abbrev pub add_duration : ℕ → ℕ → ℕ
add_duration t d = if is_negative d then t - (word - d) else t + d

pub times-small : (n unit : ℕ) → n * unit < word → times n unit ≡ n * unit
unfolding times
times-small n unit h = mod-eq_of_lt h
