-- ===== src/Base/Int.antt =====
-- Signed integers over the native numbers: Go's `int`, whose range the model does not bound.
use Prim.Native.Nat.{ℕ, suc, ◌+◌, ◌-◌}
use mathlib.Core.Bool.{Bool}
use libvegas.Base.Tests.{leb, nat_beq, if◌then◌else◌}

-- `negsuc n` is -(n + 1).
pub data ℤ : Type 0 where
  pos : ℕ → ℤ
  negsuc : ℕ → ℤ

-- n++
unfoldable pub inc : ℤ → ℤ
inc (pos n) = pos (suc n)
inc (negsuc n) = if nat_beq n 0 then pos 0 else negsuc (n - 1)

-- n--
unfoldable pub dec : ℤ → ℤ
dec (pos n) = if nat_beq n 0 then negsuc 0 else pos (n - 1)
dec (negsuc n) = negsuc (suc n)

-- a <= b
unfoldable pub leb_ℤ : ℤ → ℤ → Bool
leb_ℤ (pos a) (pos b) = leb a b
leb_ℤ (pos a) (negsuc b) = Bool.false
leb_ℤ (negsuc a) (pos b) = Bool.true
leb_ℤ (negsuc a) (negsuc b) = leb b a

unfoldable pub eqb_ℤ : ℤ → ℤ → Bool
eqb_ℤ (pos a) (pos b) = nat_beq a b
eqb_ℤ (pos a) (negsuc b) = Bool.false
eqb_ℤ (negsuc a) (pos b) = Bool.false
eqb_ℤ (negsuc a) (negsuc b) = nat_beq a b

-- max (a - b, 0), for a number `a`
unfoldable pub sub_to_zero : ℕ → ℤ → ℕ
sub_to_zero a (pos b) = a - b
sub_to_zero a (negsuc b) = a + suc b

-- max (a - b, 0), for a number `b`
unfoldable pub less_to_zero : ℤ → ℕ → ℕ
less_to_zero (pos a) b = a - b
less_to_zero (negsuc a) b = 0
