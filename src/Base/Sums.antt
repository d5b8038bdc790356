-- ===== src/Base/Sums.antt =====
-- Sums over lists.
use Prim.Native.Nat.{ℕ, ◌+◌}
use mathlib.Core.Path.{◌≡◌, refl}
use mathlib.Core.Logic.{inl, inr}
use mathlib.Core.Bool.{Bool, true, false, ◌&&◌}
use mathlib.Core.List.{List, [], ◌∷◌, ◌++◌, map}
use native.Mathlib.Omega.{arith}
use tao_gateway.Base.Tests.{if◌then◌else◌, Bool-cases}
use tao_gateway.Base.Lists.{All, keep, length}

module _ {ℓ} {A : Type ℓ} where
  -- SUM of a column.
  abbrev pub sum_by : (A → ℕ) → List A → ℕ
  sum_by f [] = 0
  sum_by f (a ∷ l) = f a + sum_by f l

  pub sum_by-append : (f : A → ℕ) (l m : List A) → sum_by f (l ++ m) ≡ sum_by f l + sum_by f m
  sum_by-append f [] m = omega arith
  sum_by-append f (a ∷ l) m = omega (arith, sum_by-append f l m)

  pub sum_by-keep :
      (f : A → ℕ) (p : A → Bool) (l : List A)
      → sum_by f (keep p l) ≡ sum_by (λ a. if p a then f a else 0) l
  sum_by-keep f p [] = refl
  sum_by-keep f p (a ∷ l) = elim (Bool-cases (p a)) [
    | inl h ↦ rw h (omega (arith, sum_by-keep f p l))
    | inr h ↦ rw h (omega (arith, sum_by-keep f p l))
  ]

  pub sum_by-ext : (f g : A → ℕ) (l : List A) → All (λ a. f a ≡ g a) l → sum_by f l ≡ sum_by g l
  sum_by-ext f g [] h = refl
  sum_by-ext f g (a ∷ l) h = omega (arith, h.0, sum_by-ext f g l h.1)

  pub sum_by-add : (f g : A → ℕ) (l : List A) → sum_by (λ a. f a + g a) l ≡ sum_by f l + sum_by g l
  sum_by-add f g [] = omega arith
  sum_by-add f g (a ∷ l) = omega (arith, sum_by-add f g l)

pub sum_by-map {ℓ κ} :
    {A : Type ℓ} {B : Type κ} (f : B → ℕ) (g : A → B) (l : List A)
    → sum_by f (map g l) ≡ sum_by (λ a. f (g a)) l
sum_by-map f g [] = refl
sum_by-map f g (a ∷ l) = omega (arith, sum_by-map f g l)

module _ {ℓ} {A : Type ℓ} where
  pub length-sum_by : (l : List A) → length l ≡ sum_by (λ a. 1) l
  length-sum_by [] = refl
  length-sum_by (a ∷ l) = omega (arith, length-sum_by l)

  -- A constant summed is the constant times the length; a test picks all or none.
  pub sum_by-if :
      (b : Bool) (l : List A) → sum_by (λ a. if b then 1 else 0) l ≡ (if b then length l else 0)
  sum_by-if true [] = refl
  sum_by-if true (a ∷ l) = omega (arith, sum_by-if true l)
  sum_by-if false [] = refl
  sum_by-if false (a ∷ l) = omega (arith, sum_by-if false l)

  -- A selection in two parts.
  pub length-keep_split :
      (p q r : A → Bool) (l : List A)
      → ((a : A) → (if p a then 1 else 0) + (if q a then 1 else 0) ≡ (if r a then 1 else 0))
      → length (keep p l) + length (keep q l) ≡ length (keep r l)
  length-keep_split p q r [] h = omega arith
  length-keep_split p q r (a ∷ l) h = ground (arith, h a, length-keep_split p q r l h)

  pub length-keep-keep :
      (p q : A → Bool) (l : List A) → length (keep p (keep q l)) ≡ length (keep (λ a. q a && p a) l)
  length-keep-keep p q [] = refl
  length-keep-keep p q (a ∷ l) = ground (arith, length-keep-keep p q l)

  pub length-keep_sum :
      (p : A → Bool) (l : List A) → length (keep p l) ≡ sum_by (λ a. if p a then 1 else 0) l
  length-keep_sum p [] = refl
  length-keep_sum p (a ∷ l) = ground (arith, length-keep_sum p l)
