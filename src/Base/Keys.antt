-- ===== src/Base/Keys.antt =====
-- Keys of a dictionary: types with a Boolean equality.
use Prim.Native.Nat.{ℕ}
use Prim.Native.String.{String}
use mathlib.Core.Path.{◌≡◌}
use mathlib.Core.Logic.{◌↔◌}
use mathlib.Core.Bool.{Bool, true, ◌&&◌}
use native.Mathlib.Omega.{arith}
use text.Mathlib.Text.{◌==◌ as str_eq}
use text.Mathlib.TextEquality.{eq_iff}
use tao_gateway.Base.Tests.{nat_beq, nat_beq_iff}

-- The test of a type, and that it decides equality.
pub record Key {ℓ} (K : Type ℓ) : Type ℓ where
  pub same : K → K → Bool
  pub same_iff : (j k : K) → (same j k ≡ true) ↔ (j ≡ k)

-- A key `(netuid, hotkey)`.
abbrev pub pair_beq : ℕ × String → ℕ × String → Bool
pair_beq (a, s) (b, t) = nat_beq a b && str_eq s t

pub pair_beq_iff : (p q : ℕ × String) → (pair_beq p q ≡ true) ↔ (p ≡ q)
pair_beq_iff (a, s) (b, t) = ground (arith, eq_iff s t)

instance abbrev pub pair_eq : Key (ℕ × String)
pair_eq = record { same = pair_beq; same_iff = pair_beq_iff }

instance abbrev pub string_eq : Key String
string_eq = record { same = str_eq; same_iff = eq_iff }

infix 50 ◌==◌
abbrev pub ◌==◌ {ℓ} : {K : Type ℓ} ⦃e : Key K⦄ → K → K → Bool
◌==◌ ⦃e⦄ j k = e.same j k

instance abbrev pub nat_eq : Key ℕ
nat_eq = record { same = nat_beq; same_iff = nat_beq_iff }
