-- ===== src/Base/Dict.antt =====
-- A Python `dict`, in insertion order: a write to a key that is there keeps its place.
pub mod Unique
use mathlib.Core.Path.{◌≡◌, refl}
use mathlib.Core.Bool.{true, false}
use mathlib.Core.List.{List, [], ◌∷◌}
use mathlib.Core.Option.{Option, none, some}
use native.Mathlib.Omega.{arith}
use tao_gateway.Base.Tests.{if◌then◌else◌}
use tao_gateway.Base.Keys.{Key, ◌==◌}

abbrev pub Dict {ℓ κ} : Type ℓ → Type κ → Type (ℓ ⊔ κ)
Dict K V = List (K × V)

pub beq_self {ℓ} : {K : Type ℓ} ⦃e : Key K⦄ (k : K) → (k == k) ≡ true
beq_self ⦃e⦄ k = (e.same_iff k k).1 refl

-- The first answer, or else the second.
abbrev pub or_else {κ} : {V : Type κ} → Option V → Option V → Option V
or_else (some v) o = some v
or_else none o = o

module _ {ℓ κ} {K : Type ℓ} {V : Type κ} ⦃e : Key K⦄ where
  -- `d.get(k)`
  abbrev pub lookup : K → Dict K V → Option V
  lookup k [] = none
  lookup k ((j, v) ∷ d) = if j == k then some v else lookup k d

  -- `d[k] = v`
  abbrev pub insert : K → V → Dict K V → Dict K V
  insert k v [] = (k, v) ∷ []
  insert k v ((j, w) ∷ d) = if j == k then (j, v) ∷ d else (j, w) ∷ insert k v d

  -- `del d[k]`
  abbrev pub erase : K → Dict K V → Dict K V
  erase k [] = []
  erase k ((j, w) ∷ d) = if j == k then erase k d else (j, w) ∷ erase k d

  pub lookup-insert :
      (k j : K) (v : V) (d : Dict K V)
      → lookup j (insert k v d) ≡ (if k == j then some v else lookup j d)
  lookup-insert k j v [] = refl
  lookup-insert k j v ((i, w) ∷ d) =
      ground (arith, e.same_iff k j, e.same_iff i k, e.same_iff i j, lookup-insert k j v d)

  pub lookup-erase :
      (k j : K) (d : Dict K V) → lookup j (erase k d) ≡ (if k == j then none else lookup j d)
  lookup-erase k j [] = ground arith
  lookup-erase k j ((i, w) ∷ d) =
      ground (arith, lookup-erase k j d, e.same_iff i k, e.same_iff i j, e.same_iff k j)

  pub lookup-insert_self : (k : K) (v : V) (d : Dict K V) → lookup k (insert k v d) ≡ some v
  lookup-insert_self k v d = ground (arith, lookup-insert k k v d, beq_self k)

  pub lookup-here : (k : K) (v : V) (d : Dict K V) → lookup k ((k, v) ∷ d) ≡ some v
  lookup-here k v d = rw (beq_self k) refl

  pub lookup-there :
      (k j : K) (v : V) (d : Dict K V) → (j == k) ≡ false → lookup k ((j, v) ∷ d) ≡ lookup k d
  lookup-there k j v d h = rw h refl

  -- To write an entry that is not among later ones is to put it before these.
  pub lookup-insert_later :
      (k j : K) (v : V) (rows d : Dict K V)
      → lookup j rows ≡ none
      → or_else (lookup k rows) (lookup k (insert j v d))
        ≡ or_else (lookup k ((j, v) ∷ rows)) (lookup k d)
  lookup-insert_later k j v rows d h = ground (arith, lookup-insert j k v d, e.same_iff j k)
