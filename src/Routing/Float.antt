-- ===== src/Routing/Float.antt =====
-- Python's floats, as far as the routing computes with them. They are no part of the program: a
-- parameter, with what IEEE 754 gives for finite values (no NaN): the order is total, and each
-- rounded operation is monotone.
pub mod Fixed
use tao_gateway.Base.{ℕ, ◌≡◌, refl, Bool, true, false, if◌then◌else◌, Bool-cases, inl, inr, arith}

pub record Floats : Type 1 where
  pub F : Type 0
  pub zero : F
  pub one : F
  pub add : F → F → F
  pub sub : F → F → F
  pub mul : F → F → F
  pub div : F → F → F
  -- `decimal n k` is the literal n / 10^k.
  pub decimal : ℕ → ℕ → F
  pub leb : F → F → Bool
  pub leb_total : (x y : F) → leb x y ≡ false → leb y x ≡ true
  pub leb_trans : (x y z : F) → leb x y ≡ true → leb y z ≡ true → leb x z ≡ true
  pub zero_le_one : leb zero one ≡ true
  pub add_mono : (x y u v : F) → leb x y ≡ true → leb u v ≡ true → leb (add x u) (add y v) ≡ true
  pub add_zero : add zero zero ≡ zero
  pub mul_mono : (a x y : F) → leb zero a ≡ true → leb x y ≡ true → leb (mul a x) (mul a y) ≡ true
  pub mul_zero : (a : F) → leb zero a ≡ true → mul a zero ≡ zero
  pub mul_one : (a : F) → mul a one ≡ a
  pub sub_nonneg : (a : F) → leb a one ≡ true → leb zero (sub one a) ≡ true
  pub sub_le_one : (a : F) → leb zero a ≡ true → leb (sub one a) one ≡ true
  pub add_complement :
      (a : F) → leb zero a ≡ true → leb a one ≡ true → leb (add a (sub one a)) one ≡ true
  pub div_nonneg : (x y : F) → leb zero x ≡ true → leb y zero ≡ false → leb zero (div x y) ≡ true
  pub decimal_nonneg : (n k : ℕ) → leb zero (decimal n k) ≡ true
  -- 0.5 + 0.3 + 0.2 is at most 1.0, and 1e-9 is positive.
  pub weights_le_one : leb (add (add (decimal 5 1) (decimal 3 1)) (decimal 2 1)) one ≡ true
  pub tiny_positive : leb (decimal 1 9) zero ≡ false

module _ (x : Floats) where
  open x use {F, zero, one, add, sub, mul, leb}

  -- Python's `max`, which keeps the first of two equal arguments.
  abbrev pub maximum : F → F → F
  maximum a b = if leb b a then a else b

  pub leb_refl : (a : F) → leb a a ≡ true
  leb_refl a = elim (Bool-cases (leb a a)) [ inl h ↦ h | inr h ↦ x.leb_total a a h ]

  -- Between 0.0 and 1.0.
  pub record IsUnit (a : F) : Type 0 where
    pub nonneg : leb zero a ≡ true
    pub le_one : leb a one ≡ true

  pub add_nonneg : (a b : F) → leb zero a ≡ true → leb zero b ≡ true → leb zero (add a b) ≡ true
  add_nonneg a b ha hb = rw x.add_zero at (x.add_mono zero a zero b ha hb)

  pub mul_nonneg : (a b : F) → leb zero a ≡ true → leb zero b ≡ true → leb zero (mul a b) ≡ true
  mul_nonneg a b ha hb = rw (x.mul_zero a ha) at (x.mul_mono a zero b ha hb)

  pub mul_le : (a b : F) → leb zero a ≡ true → leb b one ≡ true → leb (mul a b) a ≡ true
  mul_le a b ha hb = rw (x.mul_one a) at (x.mul_mono a b one ha hb)
