-- ===== src/Prelude/Floats.antt =====
-- float64 as an interface: the operations that the code uses, and the laws of IEEE 754 arithmetic on
-- the non-negative numbers that its theorems use. Nothing is assumed of rounding beyond these.
use Prim.Native.Nat.{ℕ, ◌+◌, ◌*◌, ◌≤◌}
use mathlib.Core.Path.{◌≡◌}
use mathlib.Core.Bool.{Bool, true}
use native.Mathlib.Omega.{arith}
use glovebox.Prelude.Tests.{leb, leb→le}

pub record Floats : Type 1 where
  pub Num : Type 0
  pub zero : Num
  pub one : Num
  pub add : Num → Num → Num
  pub mul : Num → Num → Num
  -- a <= b
  pub le : Num → Num → Bool

-- On the non-negative values, NaN left out: `le` is an order, and sums and products are monotone in
-- both arguments, since rounding is monotone.
pub record IsMonotone (f : Floats) : Type 0 where
  pub le_refl : (a : f.Num) → f.le a a ≡ true
  pub le_trans : (a b c : f.Num) → f.le a b ≡ true → f.le b c ≡ true → f.le a c ≡ true
  pub le-add : (a b : f.Num) → f.le f.zero b ≡ true → f.le a (f.add a b) ≡ true
  pub le-mul : (a b : f.Num) → f.le f.one b ≡ true → f.le a (f.mul a b) ≡ true
  pub add_mono :
      (a b c d : f.Num) → f.le a b ≡ true → f.le c d ≡ true → f.le (f.add a c) (f.add b d) ≡ true
  pub mul_mono : (w a b : f.Num) → f.le a b ≡ true → f.le (f.mul w a) (f.mul w b) ≡ true
  pub nonneg : (a : f.Num) → f.le f.zero a ≡ true

-- The numbers of hundredths, enough for the weights and thresholds of a test.
abbrev pub naturals : Floats
naturals = record { Num = ℕ; zero = 0; one = 1; add = λ a b. a + b; mul = λ a b. a * b; le = leb }

test_le : (a b : ℕ) → a ≤ b → leb a b ≡ true
test_le a b h = ground arith

pub naturals-IsMonotone : IsMonotone naturals
naturals-IsMonotone = record {
  le_refl = λ a. ground arith;
  le_trans = λ a b c h k. ground arith;
  le-add = λ a b h. ground arith;
  le-mul = λ a b h. test_le a (a * b) (grind (arith, leb→le 1 b h));
  add_mono = λ a b c d h k. ground arith;
  mul_mono = λ w a b h. test_le (w * a) (w * b) (grind (arith, leb→le a b h));
  nonneg = λ a. ground arith;
}
