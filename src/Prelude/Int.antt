-- ===== src/Prelude/Int.antt =====
-- Signed integers over the native numbers, under the library's names (its ℤ stands on the unary ℕ).
use Prim.Native.Nat.{ℕ, zero, suc, ◌+◌, ◌-◌, ◌<◌}
use mathlib.Core.Bool.{Bool}
use native.Mathlib.Omega.{arith}
use package.go_php.Prelude.Tests.{ltb, leb, if◌then◌else◌}

-- `negsuc n` is -(n + 1).
pub data ℤ : Type 0 where
  pos : ℕ → ℤ
  negsuc : ℕ → ℤ

abbrev pub pos_part : ℤ → ℕ
pos_part (pos n) = n
pos_part (negsuc n) = 0

abbrev pub neg_part : ℤ → ℕ
neg_part (pos n) = 0
neg_part (negsuc n) = suc n

-- a - b, as an integer.
abbrev pub sub_ℕ : ℕ → ℕ → ℤ
sub_ℕ a b = if leb b a then pos (a - b) else negsuc (b - a - 1)

infixl 65 ◌+ℤ◌
infix 50 ◌<ℤ◌
abbrev pub ◌+ℤ◌ : ℤ → ℤ → ℤ
a +ℤ b = sub_ℕ (pos_part a + pos_part b) (neg_part a + neg_part b)

abbrev pub ◌<ℤ◌ : ℤ → ℤ → Type 0
a <ℤ b = pos_part a + neg_part b < pos_part b + neg_part a

abbrev pub ltb_ℤ : ℤ → ℤ → Bool
ltb_ℤ a b = ltb (pos_part a + neg_part b) (pos_part b + neg_part a)

-- `Math.max(a, b)` of two integers.
abbrev pub max_ℤ : ℤ → ℤ → ℤ
max_ℤ a b = if ltb_ℤ a b then b else a

pub max_ℤ-lt_left : (a b c : ℤ) → max_ℤ a b <ℤ c → a <ℤ c
max_ℤ-lt_left a b c h = ground arith

pub max_ℤ-lt_right : (a b c : ℤ) → max_ℤ a b <ℤ c → b <ℤ c
max_ℤ-lt_right a b c h = ground arith

pub lt-add_one : (a : ℤ) → a <ℤ a +ℤ pos 1
lt-add_one a = ground arith

-- A limit that is not positive is replaced.
abbrev pub limit_or : ℕ → ℤ → ℕ
limit_or default (negsuc n) = default
limit_or default (pos zero) = default
limit_or default (pos (suc n)) = suc n

pub limit_or-le : (default : ℕ) (n : ℤ) → 0 < default → 0 < limit_or default n
limit_or-le default (negsuc n) h = h
limit_or-le default (pos zero) h = h
limit_or-le default (pos (suc n)) h = omega arith
