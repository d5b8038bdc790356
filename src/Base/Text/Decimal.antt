-- ===== src/Base/Text/Decimal.antt =====
-- Python's `int(s)` of a text of digits, and that it reads what `str` writes.
use Prim.Native.Nat.{ℕ, zero, suc, ◌+◌, ◌-◌, ◌*◌, ◌/◌, ◌%◌, ◌≤◌, ◌<◌}
use Prim.Native.Char.{code}
use Prim.Native.String.{String, ◌++◌}
use text.Mathlib.TextLemmas.{nil-append, cons-append}
use mathlib.Core.Path.{◌≡◌, refl, ap, ◌∙◌}
use mathlib.Core.Logic.{inl, inr}
use native.Mathlib.Omega.{arith}
use tao_gateway.Base.Tests.{ltb, Bool-cases}
use tao_gateway.Base.Text.{str, str_fuel, char_text, digit_chars}

-- The digits of a text, after a number.
value_from : ℕ → String → ℕ
value_from n String.[] = n
value_from n (String.◌∷◌ c s) = value_from (10 * n + (code c - 48)) s

unfoldable pub int_of : String → ℕ
unfolding value_from
int_of s = value_from 0 s

value_from-append : (n : ℕ) (s t : String) → value_from n (s ++ t) ≡ value_from (value_from n s) t
unfolding value_from
value_from-append n String.[] t = rw (nil-append t) refl
value_from-append n (String.◌∷◌ c s) t =
    rw (cons-append c s t) (value_from-append (10 * n + (code c - 48)) s t)

value_from-digit : (n d : ℕ) → d < 10 → value_from n (char_text digit_chars d) ≡ 10 * n + d
unfolding value_from char_text
value_from-digit n zero h = omega arith
value_from-digit n (suc zero) h = omega arith
value_from-digit n (suc (suc zero)) h = omega arith
value_from-digit n (suc (suc (suc zero))) h = omega arith
value_from-digit n (suc (suc (suc (suc zero)))) h = omega arith
value_from-digit n (suc (suc (suc (suc (suc zero))))) h = omega arith
value_from-digit n (suc (suc (suc (suc (suc (suc zero)))))) h = omega arith
value_from-digit n (suc (suc (suc (suc (suc (suc (suc zero))))))) h = omega arith
value_from-digit n (suc (suc (suc (suc (suc (suc (suc (suc zero)))))))) h = omega arith
value_from-digit n (suc (suc (suc (suc (suc (suc (suc (suc (suc zero))))))))) h = omega arith
value_from-digit n (suc (suc (suc (suc (suc (suc (suc (suc (suc (suc d)))))))))) h =
    absurd (omega arith)

value_from-str_fuel : (f n : ℕ) → n ≤ f → value_from 0 (str_fuel f n) ≡ n
unfolding str_fuel
value_from-str_fuel zero n h = omega (arith, value_from-digit 0 (n % 10) (omega arith))
value_from-str_fuel (suc f) n h = elim (Bool-cases (ltb n 10)) [
  | inl e ↦ rw e (omega (arith, value_from-digit 0 n (ground arith)))
  | inr e ↦ rw e (
      value_from-append 0 (str_fuel f (n / 10)) (char_text digit_chars (n % 10))
      ∙ ap (λ m. value_from m (char_text digit_chars (n % 10)))
          (value_from-str_fuel f (n / 10) (ground arith))
      ∙ omega (arith, value_from-digit (n / 10) (n % 10) (omega arith)))
]

-- A number written is read as itself.
pub int_of-str : (n : ℕ) → int_of (str n) ≡ n
unfolding int_of str
int_of-str n = value_from-str_fuel n n (omega arith)
