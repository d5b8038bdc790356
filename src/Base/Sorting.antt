-- ===== src/Base/Sorting.antt =====
-- Python's `sorted` and `list.sort`: a stable sort. `le x y` says that `x` may stand before `y`.
use Prim.Native.Nat.{ℕ, suc, ◌+◌}
use mathlib.Core.Path.{◌≡◌, refl, ap, ◌∙◌}
use mathlib.Core.Bool.{Bool, true, false}
use mathlib.Core.Logic.{inl, inr}
use mathlib.Core.List.{List, [], ◌∷◌, Perm}
use mathlib.Core.List.Perm
use native.Mathlib.Omega.{arith}
use tao_gateway.Base.Tests.{if◌then◌else◌, Bool-cases}
use tao_gateway.Base.Lists.{All, length}
use tao_gateway.Base.Sums.{sum_by}

module _ {ℓ} {A : Type ℓ} (le : A → A → Bool) where
  abbrev pub insert_sorted : A → List A → List A
  insert_sorted x [] = x ∷ []
  insert_sorted x (y ∷ ys) = if le x y then x ∷ y ∷ ys else y ∷ insert_sorted x ys

  abbrev pub sorted : List A → List A
  sorted [] = []
  sorted (x ∷ xs) = insert_sorted x (sorted xs)

  abbrev pub IsSorted : List A → Type ℓ
  IsSorted [] = Unit
  IsSorted (x ∷ xs) = All (λ y. le x y ≡ true) xs × IsSorted xs

module _ {ℓ} {A : Type ℓ} (le : A → A → Bool) where
  insert_sorted-perm : (x : A) (ys : List A) → Perm (insert_sorted le x ys) (x ∷ ys)
  insert_sorted-perm x [] = Perm.refl _
  insert_sorted-perm x (y ∷ ys) = elim (Bool-cases (le x y)) [
    | inl h ↦ rw h (Perm.refl _)
    | inr h ↦ rw h (Perm.trans (Perm.cons y (insert_sorted-perm x ys)) (Perm.swap x y ys))
  ]

  pub sorted-perm : (xs : List A) → Perm (sorted le xs) xs
  sorted-perm [] = Perm.refl _
  sorted-perm (x ∷ xs) =
      Perm.trans (insert_sorted-perm x (sorted le xs)) (Perm.cons x (sorted-perm xs))

  sum_by-insert_sorted :
      (f : A → ℕ) (x : A) (ys : List A) → sum_by f (insert_sorted le x ys) ≡ f x + sum_by f ys
  sum_by-insert_sorted f x [] = refl
  sum_by-insert_sorted f x (y ∷ ys) = ground (arith, sum_by-insert_sorted f x ys)

  pub sum_by-sorted : (f : A → ℕ) (xs : List A) → sum_by f (sorted le xs) ≡ sum_by f xs
  sum_by-sorted f [] = refl
  sum_by-sorted f (x ∷ xs) =
      omega (arith, sum_by-insert_sorted f x (sorted le xs), sum_by-sorted f xs)

  length-insert_sorted : (x : A) (ys : List A) → length (insert_sorted le x ys) ≡ suc (length ys)
  length-insert_sorted x [] = refl
  length-insert_sorted x (y ∷ ys) = ground (arith, length-insert_sorted x ys)

  pub length-sorted : (xs : List A) → length (sorted le xs) ≡ length xs
  length-sorted [] = refl
  length-sorted (x ∷ xs) = length-insert_sorted x (sorted le xs) ∙ ap suc (length-sorted xs)

module _ {ℓ κ} {A : Type ℓ} (le : A → A → Bool) (P : A → Type κ) where
  All-insert_sorted : (x : A) (ys : List A) → P x → All P ys → All P (insert_sorted le x ys)
  All-insert_sorted x [] p h = (p, tt)
  All-insert_sorted x (y ∷ ys) p h = elim (Bool-cases (le x y)) [
    | inl e ↦ rw e (p, h)
    | inr e ↦ rw e (h.0, All-insert_sorted x ys p h.1)
  ]

  pub All-sorted : (xs : List A) → All P xs → All P (sorted le xs)
  All-sorted [] h = tt
  All-sorted (x ∷ xs) h = All-insert_sorted x (sorted le xs) h.0 (All-sorted xs h.1)

module _ {ℓ} {A : Type ℓ} (le : A → A → Bool) (total : (x y : A) → le x y ≡ false → le y x ≡ true)
    (trans : (x y z : A) → le x y ≡ true → le y z ≡ true → le x z ≡ true) where
  All-le_trans :
      (x y : A) (ys : List A)
      → le x y ≡ true
      → All (λ z. le y z ≡ true) ys
      → All (λ z. le x z ≡ true) ys
  All-le_trans x y [] h a = tt
  All-le_trans x y (z ∷ ys) h a = (trans x y z h a.0, All-le_trans x y ys h a.1)

  insert_sorted-IsSorted :
      (x : A) (ys : List A) → IsSorted le ys → IsSorted le (insert_sorted le x ys)
  insert_sorted-IsSorted x [] s = (tt, tt)
  insert_sorted-IsSorted x (y ∷ ys) s = elim (Bool-cases (le x y)) [
    | inl h ↦ rw h ((h, All-le_trans x y ys h s.0), s)
    | inr h ↦ rw h (
      All-insert_sorted le (λ z. le y z ≡ true) x ys (total x y h) s.0,
      insert_sorted-IsSorted x ys s.1,
    )
  ]

  pub sorted-IsSorted : (xs : List A) → IsSorted le (sorted le xs)
  sorted-IsSorted [] = tt
  sorted-IsSorted (x ∷ xs) = insert_sorted-IsSorted x (sorted le xs) (sorted-IsSorted xs)
