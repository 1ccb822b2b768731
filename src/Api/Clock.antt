-- ===== src/Api/Clock.antt =====
-- What internal/api uses of the package time. A time is the count of nanoseconds since the zero
-- time, and a duration is a count of nanoseconds.
use wrtdeck.Prelude.{ltb, ℕ, ◌+◌, ◌*◌, ◌/◌, Bool}

abbrev pub second : ℕ
second = 1000000000

abbrev pub minute : ℕ
minute = 60 * second

abbrev pub hour : ℕ
hour = 60 * minute

-- `now.After(t)`
abbrev pub after : ℕ → ℕ → Bool
after now t = ltb t now

-- `now.Before(t)`
abbrev pub before : ℕ → ℕ → Bool
before now t = ltb now t

-- `now.Sub(t) > d`; the difference that `Sub` computes is negative where `now` precedes `t`.
abbrev pub sub_exceeds : ℕ → ℕ → ℕ → Bool
sub_exceeds now t d = ltb (t + d) now

-- `int(d.Seconds())`
abbrev pub seconds : ℕ → ℕ
seconds d = d / second
