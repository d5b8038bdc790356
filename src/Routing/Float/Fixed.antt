-- ===== src/Routing/Float/Fixed.antt =====
-- A concrete arithmetic with the laws of `Floats`: numbers of at least 0 with nine decimal places.
use native.Mathlib.Nat.{mul-le-mul_left}
use tao_gateway.Base.{ℕ, zero, suc, ◌+◌, ◌-◌, ◌*◌, ◌/◌, ◌≤◌, ◌≡◌, refl, true, false, leb, arith}
use tao_gateway.Routing.Float.{Floats}

abbrev pub unit : ℕ
unit = 1_000_000_000

abbrev pub ten : ℕ → ℕ
ten zero = 1
ten (suc k) = 10 * ten k

abbrev pub fixed_mul : ℕ → ℕ → ℕ
fixed_mul a b = a * b / unit

pub mul_mono : (a b c : ℕ) → leb b c ≡ true → leb (fixed_mul a b) (fixed_mul a c) ≡ true
mul_mono a b c h = ground (arith, mul-le-mul_left a (below h))
  where
    below : leb b c ≡ true → b ≤ c
    below e = ground arith

pub mul_one : (a : ℕ) → fixed_mul a unit ≡ a
mul_one a = omega arith

pub law_total : (a b : ℕ) → leb a b ≡ false → leb b a ≡ true
law_total a b h = ground arith

pub law_trans : (a b c : ℕ) → leb a b ≡ true → leb b c ≡ true → leb a c ≡ true
law_trans a b c h k = ground arith

pub law_add : (a b c d : ℕ) → leb a b ≡ true → leb c d ≡ true → leb (a + c) (b + d) ≡ true
law_add a b c d h k = ground arith

pub law_least : (a : ℕ) → leb 0 a ≡ true
law_least a = ground arith

pub law_zero : (a : ℕ) → fixed_mul a 0 ≡ 0
law_zero a = omega arith

pub law_sub : (a : ℕ) → leb (unit - a) unit ≡ true
law_sub a = ground arith

pub law_complement : (a : ℕ) → leb a unit ≡ true → leb (a + (unit - a)) unit ≡ true
law_complement a h = ground arith

abbrev pub fixed : Floats
fixed = record {
  F = ℕ;
  zero = 0;
  one = unit;
  add = λ a b. a + b;
  sub = λ a b. a - b;
  mul = fixed_mul;
  div = λ a b. a * unit / b;
  decimal = λ n k. n * ten (9 - k);
  leb = leb;
  leb_total = law_total;
  leb_trans = law_trans;
  zero_le_one = refl;
  add_mono = law_add;
  add_zero = refl;
  mul_mono = λ a b c p h. mul_mono a b c h;
  mul_zero = λ a p. law_zero a;
  mul_one = mul_one;
  sub_nonneg = λ a h. law_least (unit - a);
  sub_le_one = λ a h. law_sub a;
  add_complement = λ a p h. law_complement a h;
  div_nonneg = λ a b p h. law_least (a * unit / b);
  decimal_nonneg = λ n k. law_least (n * ten (9 - k));
  weights_le_one = refl;
  tiny_positive = refl;
}
