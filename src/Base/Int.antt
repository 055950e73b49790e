-- ===== src/Base/Int.antt =====
-- The results of type `int` and `long` that may be negative.
use Prim.Native.Nat.{ℕ, ◌+◌, ◌-◌, ◌%◌, ◌^◌, ◌<◌}
use mathlib.Core.Path.{◌≡◌}
use native.Mathlib.Omega.{arith}
use osc_riscv.Base.Tests.{leb, ltb, if◌then◌else◌}

-- `negsuc n` is -(n + 1).
pub data ℤ : Type 0 where
  pos : ℕ → ℤ
  negsuc : ℕ → ℤ

-- a - b, where the difference may be negative.
abbrev pub sub_ℕ : ℕ → ℕ → ℤ
sub_ℕ a b = if leb b a then pos (a - b) else negsuc (b - a - 1)

pub sub_ℕ-eq-zero : (a b : ℕ) → sub_ℕ a b ≡ pos 0 → a ≡ b
sub_ℕ-eq-zero a b h = ground arith

pub sub_ℕ_self : (a : ℕ) → sub_ℕ a a ≡ pos 0
sub_ℕ_self a = ground arith

-- A word taken as an `int` and widened to 64 bits.
abbrev pub widen : ℕ → ℕ
widen w = if ltb (w % 2 ^ 32) (2 ^ 31) then w % 2 ^ 32 else w % 2 ^ 32 + (2 ^ 64 - 2 ^ 32)

pub widen_small : (n : ℕ) → n < 2 ^ 31 → widen n ≡ n
widen_small n h = ground arith
