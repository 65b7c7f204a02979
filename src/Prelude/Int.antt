-- ===== src/Prelude/Int.antt =====
-- Go's int64 where the source may meet a negative value. Overflow does not occur in what is done with
-- these values: they are compared and stored.
use Prim.Native.Nat.{ℕ}
use Prim.Native.Nat.{◌+◌, ◌-◌}
use mathlib.Core.Bool.{Bool, true, false, not}
use dingtalk_oa_attachment_b.Prelude.Tests.{leb, eqb, if◌then◌else◌}

pub data ℤ : Type 0 where
  pos negsuc : ℕ → ℤ

abbrev pub is_negative : ℤ → Bool
is_negative (pos n) = false
is_negative (negsuc n) = true

-- `a <= b`
abbrev pub leb_int : ℤ → ℤ → Bool
leb_int (pos a) (pos b) = leb a b
leb_int (pos a) (negsuc b) = false
leb_int (negsuc a) (pos b) = true
leb_int (negsuc a) (negsuc b) = leb b a

-- `a < b`
abbrev pub ltb_int : ℤ → ℤ → Bool
ltb_int a b = not (leb_int b a)

-- `a == b`
abbrev pub eqb_int : ℤ → ℤ → Bool
eqb_int (pos a) (pos b) = eqb a b
eqb_int (pos a) (negsuc b) = false
eqb_int (negsuc a) (pos b) = false
eqb_int (negsuc a) (negsuc b) = eqb a b

-- `a - b`, of two numbers that are not negative.
abbrev pub minus : ℕ → ℕ → ℤ
minus a b = if leb b a then pos (a - b) else negsuc (b - a - 1)

-- `a + n`
abbrev pub plus : ℤ → ℕ → ℤ
plus (pos a) n = pos (a + n)
plus (negsuc a) n = minus n (a + 1)

-- `a - n`
abbrev pub less : ℤ → ℕ → ℤ
less (pos a) n = minus a n
less (negsuc a) n = negsuc (a + n)

-- The number, where it is not negative.
abbrev pub to_nat : ℤ → ℕ
to_nat (pos n) = n
to_nat (negsuc n) = 0
