-- ===== src/Approvals/Times.antt =====
-- Instants as the search of approvals computes with them: nanoseconds since the zero time of Go, the
-- year 1. An instant of the clock is not before it; one that a cursor names may be. Go's wrap-around,
-- which begins 292 billion years away, is left out.
use dingtalk_oa_attachment_b.Prelude.{ℕ, ◌+◌, ◌*◌, ◌/◌}
use dingtalk_oa_attachment_b.Prelude.Int.{ℤ, pos, negsuc, minus}

abbrev pub second : ℕ
second = 1000000000

abbrev pub millisecond : ℕ
millisecond = 1000000

abbrev pub minute : ℕ
minute = 60 * 1000000000

abbrev pub hour : ℕ
hour = 3600 * 1000000000

abbrev pub day : ℕ
day = 24 * 3600 * 1000000000

-- The seconds from the zero time to 1970.
abbrev pub unix_epoch : ℕ
unix_epoch = 62135596800

-- Time.Unix
abbrev pub unix : ℕ → ℤ
unix now = minus (now / second) unix_epoch

-- Time.UnixMilli
abbrev pub unix_milli : ℤ → ℤ
unix_milli (pos n) = minus (n / millisecond) (unix_epoch * 1000)
unix_milli (negsuc n) = negsuc (n / millisecond + unix_epoch * 1000)

-- time.Unix(s, 0)
abbrev pub unix_time : ℤ → ℤ
unix_time (pos s) = pos ((unix_epoch + s) * second)
unix_time (negsuc s) = minus (unix_epoch * second) ((s + 1) * second)

-- time.UnixMilli(m)
abbrev pub unix_milli_time : ℤ → ℤ
unix_milli_time (pos m) = pos ((unix_epoch * 1000 + m) * millisecond)
unix_milli_time (negsuc m) = minus (unix_epoch * second) ((m + 1) * millisecond)
