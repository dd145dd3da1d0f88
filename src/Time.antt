-- ===== src/Time.antt =====
-- The parts of Go's package `time` that the program calls. A `time.Time` is the number of
-- nanoseconds since Go's zero time, the first of January of the year 1 in UTC; a `time.Duration`
-- is an `int64` of nanoseconds.
pub mod Calendar
use kovern.Prelude.{ℕ, zero, ◌+◌, ◌*◌, ◌-◌, ◌^◌, Bool, arith, ltb, leb, ◌==◌, if◌then◌else◌}
use kovern.Prelude.Int.{ℤ, pos, negsuc, pos_part, neg_part, ◌+ℤ◌, ◌*ℤ◌, sub_ℕ, wrap64}

abbrev pub Time : Type 0
Time = ℕ

abbrev pub Duration : Type 0
Duration = ℤ

abbrev pub nano_per_second : ℕ
nano_per_second = 1_000_000_000

-- `time.Unix(0, 0)`.
abbrev pub unix_epoch : ℕ
unix_epoch = 62_135_596_800 * nano_per_second

-- `t.IsZero()`.
abbrev pub is_zero : Time → Bool
is_zero t = t == 0

-- `t.After(u)`.
abbrev pub after : Time → Time → Bool
after t u = ltb u t

-- `t.Add(d)`; the times of the program stay after the zero time.
unfoldable pub add : Time → Duration → Time
unfolding ◌+ℤ◌
add t d = pos_part (pos t +ℤ d)

-- `t.Sub(u)`, which stops at the ends of a duration.
unfoldable pub sub : Time → Time → Duration
sub t u =
    if leb u t
    then (if ltb (t - u) (2 ^ 63) then pos (t - u) else pos (2 ^ 63 - 1))
    else (if leb (u - t) (2 ^ 63) then negsuc (u - t - 1) else negsuc (2 ^ 63 - 1))

-- `time.Unix(0, ns)`.
unfoldable pub unix : ℤ → Time
unfolding ◌+ℤ◌
unix ns = pos_part (pos unix_epoch +ℤ ns)

-- `time.Duration(n) * time.Second`, and `-time.Duration(n) * time.Second`.
unfoldable pub seconds : ℤ → Duration
unfolding ◌*ℤ◌ wrap64
seconds n = wrap64 (n *ℤ pos nano_per_second)
