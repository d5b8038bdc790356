-- ===== src/Base/Dict/Unique.antt =====
-- Dictionaries with one entry to a key, as Python's are: what that gives for removal and sorting.
use Prim.Native.Nat.{ℕ, zero, suc, ◌+◌}
use mathlib.Core.Path.{◌≡◌, refl, sym, ap, ◌∙◌}
use mathlib.Core.Bool.{Bool, false}
use mathlib.Core.Logic.{◌≢◌, inl, inr}
use mathlib.Core.List.{[], ◌∷◌}
use mathlib.Core.Option.{none, some}
use native.Mathlib.Omega.{arith}
use tao_gateway.Base.Tests.{if◌then◌else◌, Bool-cases}
use tao_gateway.Base.Lists.{All, length, keep, take}
use tao_gateway.Base.Keys.{Key, ◌==◌}
use tao_gateway.Base.Dict.{
  Dict, lookup, insert, erase, lookup-erase, lookup-insert, lookup-here, beq_self,
}
use tao_gateway.Base.Sorting.{insert_sorted, sorted}
use tao_gateway.Base.Sums.{sum_by}

module _ {ℓ κ} {K : Type ℓ} {V : Type κ} ⦃e : Key K⦄ where
  abbrev pub IsUnique : Dict K V → Type κ
  IsUnique [] = Unit
  IsUnique ((k, v) ∷ d) = (lookup k d ≡ none) × IsUnique d

  insert-none :
      (k j : K) (v : V) (d : Dict K V)
      → lookup j d ≡ none
      → (k == j) ≡ false
      → lookup j (insert k v d) ≡ none
  insert-none k j v d h n = ground (arith, lookup-insert k j v d)

  pub insert-IsUnique : (k : K) (v : V) (d : Dict K V) → IsUnique d → IsUnique (insert k v d)
  insert-IsUnique k v [] u = (refl, tt)
  insert-IsUnique k v ((j, w) ∷ d) u = elim (Bool-cases (j == k)) [
    | inl h ↦ rw h u
    | inr h ↦ rw h (
      insert-none k j v d u.0 (ground (arith, e.same_iff j k, e.same_iff k j)),
      insert-IsUnique k v d u.1,
    )
  ]

  pub erase_absent : (k : K) (d : Dict K V) → lookup k d ≡ none → erase k d ≡ d
  erase_absent k [] h = refl
  erase_absent k ((j, w) ∷ d) h = ground (arith, erase_absent k d)

  pub erase-IsUnique : (k : K) (d : Dict K V) → IsUnique d → IsUnique (erase k d)
  erase-IsUnique k [] u = tt
  erase-IsUnique k ((j, w) ∷ d) u = elim (Bool-cases (j == k)) [
    | inl h ↦ rw h (erase-IsUnique k d u.1)
    | inr h ↦ rw h (ground (arith, lookup-erase k j d, u.0), erase-IsUnique k d u.1)
  ]

  pub length-erase :
      (k : K) (d : Dict K V) → IsUnique d → lookup k d ≢ none → suc (length (erase k d)) ≡ length d
  length-erase k [] u h = absurd (h refl)
  length-erase k ((j, w) ∷ d) u h = elim (Bool-cases (j == k)) [
    | inl same ↦
        rw same (ap (λ l. suc (length l)) (erase_absent k d (ground (arith, e.same_iff j k, u.0))))
    | inr other ↦ rw other (ap suc (length-erase k d u.1 (rw other at h)))
  ]

  lookup-keep-none :
      (p : K × V → Bool) (k : K) (d : Dict K V) → lookup k d ≡ none → lookup k (keep p d) ≡ none
  lookup-keep-none p k [] h = refl
  lookup-keep-none p k ((j, w) ∷ d) h = ground (arith, lookup-keep-none p k d)

  pub keep-IsUnique : (p : K × V → Bool) (d : Dict K V) → IsUnique d → IsUnique (keep p d)
  keep-IsUnique p [] u = tt
  keep-IsUnique p ((j, w) ∷ d) u = elim (Bool-cases (p (j, w))) [
    | inl h ↦ rw h (lookup-keep-none p j d u.0, keep-IsUnique p d u.1)
    | inr h ↦ rw h (keep-IsUnique p d u.1)
  ]

  lookup-take-none : (n : ℕ) (k : K) (d : Dict K V) → lookup k d ≡ none → lookup k (take n d) ≡ none
  lookup-take-none zero k d h = refl
  lookup-take-none (suc n) k [] h = refl
  lookup-take-none (suc n) k ((j, w) ∷ d) h = ground (arith, lookup-take-none n k d)

  pub take-IsUnique : (n : ℕ) (d : Dict K V) → IsUnique d → IsUnique (take n d)
  take-IsUnique zero d u = tt
  take-IsUnique (suc n) [] u = tt
  take-IsUnique (suc n) ((j, w) ∷ d) u = (lookup-take-none n j d u.0, take-IsUnique n d u.1)

  -- No entry of `d` has the key `k`.
  pub absent-All : (k : K) (d : Dict K V) → lookup k d ≡ none → All (λ x. (k == x.0) ≡ false) d
  absent-All k [] h = tt
  absent-All k ((j, w) ∷ d) h =
      (ground (arith, e.same_iff j k, e.same_iff k j), absent-All k d (ground arith))

  there : (k j : K) (v : V) (d : Dict K V) → (k == j) ≡ false → lookup j ((k, v) ∷ d) ≡ lookup j d
  there k j v d n = rw n

  weaken :
      (k : K) (v : V) (d l : Dict K V)
      → All (λ x. (k == x.0) ≡ false) l
      → All (λ x. lookup x.0 d ≡ some x.1) l
      → All (λ x. lookup x.0 ((k, v) ∷ d) ≡ some x.1) l
  weaken k v d [] a h = tt
  weaken k v d (x ∷ l) a h = (rw (a.0) h.0, weaken k v d l a.1 h.1)

  -- Each entry is the one that its key finds.
  pub IsUnique-finds : (d : Dict K V) → IsUnique d → All (λ x. lookup x.0 d ≡ some x.1) d
  IsUnique-finds [] u = tt
  IsUnique-finds ((k, v) ∷ d) u =
      (rw (beq_self k), weaken k v d d (absent-All k d u.0) (IsUnique-finds d u.1))

module _ {ℓ κ} {K : Type ℓ} {V : Type κ} ⦃e : Key K⦄ (le : K × V → K × V → Bool) where
  lookup-insert_sorted :
      (k j : K) (v : V) (d : Dict K V)
      → lookup k d ≡ none
      → lookup j (insert_sorted le (k, v) d) ≡ (if k == j then some v else lookup j d)
  lookup-insert_sorted k j v [] h = refl
  lookup-insert_sorted k j v ((i, w) ∷ d) h =
      ground (arith, e.same_iff i k, e.same_iff i j, e.same_iff k j, lookup-insert_sorted k j v d)

  insert_sorted-IsUnique :
      (k : K) (v : V) (d : Dict K V)
      → lookup k d ≡ none
      → IsUnique d
      → IsUnique (insert_sorted le (k, v) d)
  insert_sorted-IsUnique k v [] h u = (refl, tt)
  insert_sorted-IsUnique k v ((i, w) ∷ d) h u = elim (Bool-cases (le (k, v) (i, w))) [
    | inl first ↦ rw first (h, u)
    | inr later ↦ rw later (
      ground (arith, e.same_iff i k, e.same_iff k i, lookup-insert_sorted k i v d, u.0),
      insert_sorted-IsUnique k v d (ground arith) u.1,
    )
  ]

  lookup-sorted_step :
      (k j : K) (v : V) (s d : Dict K V)
      → lookup k s ≡ lookup k d
      → lookup k d ≡ none
      → lookup j s ≡ lookup j d
      → lookup j (insert_sorted le (k, v) s) ≡ lookup j ((k, v) ∷ d)
  lookup-sorted_step k j v s d p h q = ground (arith, lookup-insert_sorted k j v s)

  pub lookup-sorted : (j : K) (d : Dict K V) → IsUnique d → lookup j (sorted le d) ≡ lookup j d
  lookup-sorted j [] u = refl
  lookup-sorted j ((k, v) ∷ d) u =
      lookup-sorted_step k j v (sorted le d) d (lookup-sorted k d u.1) u.0 (lookup-sorted j d u.1)

  pub sorted-IsUnique : (d : Dict K V) → IsUnique d → IsUnique (sorted le d)
  sorted-IsUnique [] u = tt
  sorted-IsUnique ((k, v) ∷ d) u =
      insert_sorted-IsUnique k v (sorted le d) (lookup-sorted k d u.1 ∙ u.0) (sorted-IsUnique d u.1)

module _ {ℓ κ μ} {K : Type ℓ} {V : Type κ} ⦃e : Key K⦄ (P : K × V → Type μ) where
  pub All-lookup : (k : K) (v : V) (d : Dict K V) → All P d → lookup k d ≡ some v → P (k, v)
  All-lookup k v [] a h = cc
  All-lookup k v ((j, w) ∷ d) a h = elim (Bool-cases (j == k)) [
    | inl same ↦ ground (arith, e.same_iff j k, a.0)
    | inr other ↦ All-lookup k v d a.1 (rw other at h)
  ]

  pub All-insert : (k : K) (v : V) (d : Dict K V) → P (k, v) → All P d → All P (insert k v d)
  All-insert k v [] p a = (p, tt)
  All-insert k v ((j, w) ∷ d) p a = elim (Bool-cases (j == k)) [
    | inl same ↦ rw same (rw (sym ((e.same_iff j k).0 same)) at p, a.1)
    | inr other ↦ rw other (a.0, All-insert k v d p a.1)
  ]

module _ {ℓ κ} {K : Type ℓ} {V : Type κ} ⦃e : Key K⦄ where
  -- A selection by the key.
  pub lookup-keep_key :
      (p : K → Bool) (k : K) (d : Dict K V)
      → lookup k (keep (λ x. p x.0) d) ≡ (if p k then lookup k d else none)
  lookup-keep_key p k [] = ground arith
  lookup-keep_key p k ((j, v) ∷ d) = elim (Bool-cases (j == k)) [
    | inl h ↦
        let same : j ≡ k = (e.same_iff j k).0 h in
        elim (Bool-cases (p k)) [
          | inl q ↦ rw (same, q, beq_self k) refl
          | inr q ↦ rw (same, q) (rw q at (lookup-keep_key p k d))
        ]
    | inr h ↦ elim (Bool-cases (p j)) [
      | inl q ↦ rw (q, h) (lookup-keep_key p k d)
      | inr q ↦ rw (q, h) (lookup-keep_key p k d)
    ]
  ]

  erase-sum :
      (w : K × V → ℕ) (k : K) (v : V) (d : Dict K V)
      → IsUnique d
      → lookup k d ≡ some v
      → sum_by w d ≡ w (k, v) + sum_by w (erase k d)
  erase-sum w k v [] u h = cc
  erase-sum w k v ((j, x) ∷ d) u h = elim (Bool-cases (j == k)) [
    | inl s ↦
        let same : j ≡ k = (e.same_iff j k).0 s in
        let gone : erase k d ≡ d = erase_absent k d (ap (λ i. lookup i d) (sym same) ∙ u.0) in
        let found : some x ≡ some v = (rw s at h) in
        let one : w (j, x) ≡ w (k, v) = cc in rw s (omega (arith, one, ap (sum_by w) gone))
    | inr o ↦ rw o (omega (arith, erase-sum w k v d u.1 (rw o at h)))
  ]

  same_rest :
      (k j : K) (v : V) (c d : Dict K V)
      → lookup k c ≡ none
      → lookup j ((k, v) ∷ c) ≡ lookup j d
      → lookup j c ≡ lookup j (erase k d)
  same_rest k j v c d n h = ground (arith, lookup-erase k j d, e.same_iff k j)

  -- Dictionaries that find the same have the same sums.
  pub sum_by-same :
      (w : K × V → ℕ) (c d : Dict K V)
      → IsUnique c
      → IsUnique d
      → ((k : K) → lookup k c ≡ lookup k d)
      → sum_by w c ≡ sum_by w d
  sum_by-same w [] [] u t h = refl
  sum_by-same w [] ((k, v) ∷ d) u t h = absurd (cc (h k, lookup-here k v d))
  sum_by-same w ((k, v) ∷ c) d u t h =
      let here : lookup k d ≡ some v = sym (h k) ∙ lookup-here k v c in
      let rest : (j : K) → lookup j c ≡ lookup j (erase k d) = λ j. same_rest k j v c d u.0 (h j) in
      omega (
        arith,
        erase-sum w k v d t here,
        sum_by-same w c (erase k d) u.1 (erase-IsUnique k d t) rest,
      )
