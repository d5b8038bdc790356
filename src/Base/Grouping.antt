-- ===== src/Base/Grouping.antt =====
-- SQL's GROUP BY: the groups of a list by a key, and sums over dictionaries.
use Prim.Native.Nat.{ℕ, ◌+◌}
use mathlib.Core.Path.{◌≡◌, refl, ap}
use mathlib.Core.Logic.{inl, inr}
use mathlib.Core.Option.{Option, none, some}
use mathlib.Core.List.{List, [], ◌∷◌}
use native.Mathlib.Omega.{arith}
use tao_gateway.Base.Tests.{Bool-cases}
use tao_gateway.Base.Lists.{All, keep}
use tao_gateway.Base.Keys.{Key, ◌==◌}
use tao_gateway.Base.Sums.{sum_by}
use tao_gateway.Base.Dict.{Dict, lookup, insert, lookup-insert}
use tao_gateway.Base.Dict.Unique.{IsUnique, insert-IsUnique, All-insert}

module _ {ℓ κ} {K : Type ℓ} {V : Type κ} ⦃e : Key K⦄ where
  abbrev pub weight_of : (K × V → ℕ) → K → Option V → ℕ
  weight_of w k none = 0
  weight_of w k (some v) = w (k, v)

  -- A write adds the new value and takes the old one away.
  pub sum_by-insert :
      (w : K × V → ℕ) (k : K) (v : V) (d : Dict K V)
      → sum_by w (insert k v d) + weight_of w k (lookup k d) ≡ sum_by w d + w (k, v)
  sum_by-insert w k v [] = omega arith
  sum_by-insert w k v ((j, u) ∷ d) = elim (Bool-cases (j == k)) [
    | inl h ↦ let same : j ≡ k = (e.same_iff j k).0 h in rw (h, same) (omega arith)
    | inr h ↦ rw h (omega (arith, sum_by-insert w k v d))
  ]

  -- The dictionary with another value at each key.
  abbrev pub map_values {μ} : {W : Type μ} → (K × V → W) → Dict K V → Dict K W
  map_values f [] = []
  map_values f ((k, v) ∷ d) = (k, f (k, v)) ∷ map_values f d

  abbrev pub value_at {μ} : {W : Type μ} → (K × V → W) → K → Option V → Option W
  value_at f k none = none
  value_at f k (some v) = some (f (k, v))

  pub lookup-map_values {μ} :
      {W : Type μ} (f : K × V → W) (k : K) (d : Dict K V)
      → lookup k (map_values f d) ≡ value_at f k (lookup k d)
  lookup-map_values f k [] = refl
  lookup-map_values f k ((j, v) ∷ d) = elim (Bool-cases (j == k)) [
    | inl h ↦ let same : j ≡ k = (e.same_iff j k).0 h in rw (h, same) refl
    | inr h ↦ rw h (lookup-map_values f k d)
  ]

module _ {ℓ} {A : Type ℓ} where
  abbrev pub or_empty : Option (List A) → List A
  or_empty none = []
  or_empty (some l) = l

  abbrev pub non_empty : List A → Option (List A)
  non_empty [] = none
  non_empty (a ∷ l) = some (a ∷ l)

  or_empty-non_empty : (l : List A) → or_empty (non_empty l) ≡ l
  or_empty-non_empty [] = refl
  or_empty-non_empty (a ∷ l) = refl

module _ {ℓ κ} {A : Type ℓ} {K : Type κ} ⦃e : Key K⦄ (f : A → K) where
  -- The groups by the key `f`.
  abbrev pub group_by : List A → Dict K (List A)
  group_by [] = []
  group_by (a ∷ l) = let g = group_by l in insert (f a) (a ∷ or_empty (lookup (f a) g)) g

  pub group_by-IsUnique : (l : List A) → IsUnique (group_by l)
  group_by-IsUnique [] = tt
  group_by-IsUnique (a ∷ l) = insert-IsUnique (f a) _ (group_by l) (group_by-IsUnique l)

  -- The group of a key is what has the key, in the order of the list; there is no empty group.
  pub lookup-group_by :
      (k : K) (l : List A) → lookup k (group_by l) ≡ non_empty (keep (λ a. f a == k) l)
  lookup-group_by k [] = refl
  lookup-group_by k (a ∷ l) =
      let g = group_by l in
      elim (Bool-cases (f a == k)) [
        | inl h ↦
            let same : f a ≡ k = (e.same_iff (f a) k).0 h in
            rw
              (
                lookup-insert (f a) k (a ∷ or_empty (lookup (f a) g)) g,
                h,
                same,
                lookup-group_by k l,
              )
              (ap (λ m. some (a ∷ m)) (or_empty-non_empty (keep (λ b. f b == k) l)))
        | inr h ↦
            rw (lookup-insert (f a) k (a ∷ or_empty (lookup (f a) g)) g, h) (lookup-group_by k l)
      ]

  weight-or_empty :
      (w : K → A → ℕ) (k : K) (o : Option (List A))
      → weight_of (λ g. sum_by (w g.0) g.1) k o ≡ sum_by (w k) (or_empty o)
  weight-or_empty w k none = refl
  weight-or_empty w k (some l) = refl

  -- A sum over the groups of sums over their members is the sum over the list.
  pub sum_by-group_by :
      (w : K → A → ℕ) (l : List A)
      → sum_by (λ g. sum_by (w g.0) g.1) (group_by l) ≡ sum_by (λ a. w (f a) a) l
  sum_by-group_by w [] = refl
  sum_by-group_by w (a ∷ l) =
      let g = group_by l in
      omega (
        arith,
        sum_by-insert (λ g. sum_by (w g.0) g.1) (f a) (a ∷ or_empty (lookup (f a) g)) g,
        weight-or_empty w (f a) (lookup (f a) g),
        sum_by-group_by w l,
      )

  -- What holds of the members' keys holds of the groups' keys.
  pub All-group_by {μ} :
      (P : K → Type μ) (l : List A) → All (λ a. P (f a)) l → All (λ g. P g.0) (group_by l)
  All-group_by P [] h = tt
  All-group_by P (a ∷ l) h = All-insert (λ g. P g.0) (f a) _ (group_by l) h.0 (All-group_by P l h.1)
