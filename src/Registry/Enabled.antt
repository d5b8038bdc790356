-- ===== src/Registry/Enabled.antt =====
-- Which models an enabled list of subnets serves.
use tao_gateway.Base.{
  ℕ, ◌≡◌, refl, ◌∙◌, ap, ◌⊎◌, inl, inr, String, true, false, none, some, List, [], ◌∷◌, any,
  nat_beq, nat_eq, string_eq, arith, if◌then◌else◌, Bool-cases,
}
use tao_gateway.Errors.{GatewayError, status_code, subnet_unavailable_error, ok, err}
use tao_gateway.Base.Dict.{Dict, lookup, insert, lookup-insert}
use tao_gateway.Registry.{
  empty_registry, no_adapter, add_models, register, get_by_model, AdapterClass, sn1_text,
  sn19_image, sn22_search, sn32_detection, sn62_code, adapter_factory, get_model_names, Settings,
  class_config, Registered, register_known, register_enabled,
}

-- The netuid of a class in the map, and its model.
abbrev pub map_netuid : AdapterClass → ℕ
map_netuid sn1_text = 1
map_netuid sn19_image = 19
map_netuid sn22_search = 22
map_netuid sn32_detection = 32
map_netuid sn62_code = 62

abbrev pub map_model : AdapterClass → String
map_model sn1_text = "tao-sn1"
map_model sn19_image = "tao-sn19"
map_model sn22_search = "tao-sn22"
map_model sn32_detection = "tao-sn32"
map_model sn62_code = "tao-sn62"

-- A netuid is that of a class, or of none.
pub factory-cases :
    (n : ℕ)
    → ((c : AdapterClass) × (n ≡ map_netuid c))
      ⊎ ((adapter_factory n ≡ none) × ((c : AdapterClass) → nat_beq n (map_netuid c) ≡ false))
unfolding adapter_factory
factory-cases n = elim (Bool-cases (nat_beq n 1)) [
  | inl e ↦ inl (sn1_text, ground arith)
  | inr a ↦ elim (Bool-cases (nat_beq n 19)) [
    | inl e ↦ inl (sn19_image, ground arith)
    | inr b ↦ elim (Bool-cases (nat_beq n 22)) [
      | inl e ↦ inl (sn22_search, ground arith)
      | inr c ↦ elim (Bool-cases (nat_beq n 32)) [
        | inl e ↦ inl (sn32_detection, ground arith)
        | inr d ↦ elim (Bool-cases (nat_beq n 62)) [
          | inl e ↦ inl (sn62_code, ground arith)
          | inr f ↦ inr (ground arith, none_of n a b c d f)
        ]
      ]
    ]
  ]
]
  where
    none_of :
        (n : ℕ)
        → nat_beq n 1 ≡ false
        → nat_beq n 19 ≡ false
        → nat_beq n 22 ≡ false
        → nat_beq n 32 ≡ false
        → nat_beq n 62 ≡ false
        → (c : AdapterClass) → nat_beq n (map_netuid c) ≡ false
    none_of n a b c d f sn1_text = a
    none_of n a b c d f sn19_image = b
    none_of n a b c d f sn22_search = c
    none_of n a b c d f sn32_detection = d
    none_of n a b c d f sn62_code = f

pub model-insert :
    (c k : AdapterClass) (d : Dict String AdapterClass)
    → lookup (map_model c) (insert (map_model k) k d)
      ≡ (if nat_beq (map_netuid k) (map_netuid c) then some c else lookup (map_model c) d)
model-insert sn1_text sn1_text d =
    lookup-insert (map_model sn1_text) (map_model sn1_text) sn1_text d
model-insert sn1_text k d = lookup-insert (map_model k) (map_model sn1_text) k d
model-insert sn19_image sn1_text d =
    lookup-insert (map_model sn1_text) (map_model sn19_image) sn1_text d
model-insert sn19_image k d = lookup-insert (map_model k) (map_model sn19_image) k d
model-insert sn22_search sn1_text d =
    lookup-insert (map_model sn1_text) (map_model sn22_search) sn1_text d
model-insert sn22_search k d = lookup-insert (map_model k) (map_model sn22_search) k d
model-insert sn32_detection sn1_text d =
    lookup-insert (map_model sn1_text) (map_model sn32_detection) sn1_text d
model-insert sn32_detection k d = lookup-insert (map_model k) (map_model sn32_detection) k d
model-insert sn62_code sn1_text d =
    lookup-insert (map_model sn1_text) (map_model sn62_code) sn1_text d
model-insert sn62_code k d = lookup-insert (map_model k) (map_model sn62_code) k d

module _ (settings : Settings) where
  register_class :
      (k : AdapterClass) (r : Registered settings)
      → (register_known settings (map_netuid k) (adapter_factory (map_netuid k)) r).by_model
        ≡ insert (map_model k) k r.by_model
  unfolding register add_models adapter_factory get_model_names
  register_class sn1_text r = refl
  register_class k r = refl

  model-step :
      (c : AdapterClass) (n : ℕ) (r : Registered settings)
      → lookup (map_model c) (register_known settings n (adapter_factory n) r).by_model
        ≡ (if nat_beq n (map_netuid c) then some c else lookup (map_model c) r.by_model)
  model-step c n r = elim (factory-cases n) [
    | inl (k, e) ↦
        rw e (ap (lookup (map_model c)) (register_class k r) ∙ model-insert c k r.by_model)
    | inr (e, other) ↦ rw (e, other c) refl
  ]

  enabled-lookup :
      (c : AdapterClass) (enabled : List ℕ) (r : Registered settings)
      → lookup (map_model c) (register_enabled settings enabled r).by_model ≡ (
          if any (λ n. nat_beq n (map_netuid c)) enabled
          then some c
          else lookup (map_model c) r.by_model)
  unfolding register_enabled
  enabled-lookup c [] r = refl
  enabled-lookup c (n ∷ enabled) r =
      let r' = register_known settings n (adapter_factory n) r in
      ground (arith, enabled-lookup c enabled r', model-step c n r)

  -- The model of a class is served, by an adapter of that class, exactly where the list of enabled
  -- subnets has the netuid of the class; else the request fails with an error of the status 503.
  get_by_model_enabled :
      (c : AdapterClass) (enabled : List ℕ)
      → let found = get_by_model AdapterClass (class_config settings) (map_model c) (
          register_enabled settings enabled
            (empty_registry AdapterClass (class_config settings))) in
        ((any (λ n. nat_beq n (map_netuid c)) enabled ≡ true) × (found ≡ ok c))
        ⊎ ((e : GatewayError) × (any (λ n. nat_beq n (map_netuid c)) enabled ≡ false)
            × (found ≡ err e)
            × (status_code e ≡ 503))
  unfolding get_by_model status_code
  get_by_model_enabled c enabled =
      let r = empty_registry AdapterClass (class_config settings) in
      let found = enabled-lookup c enabled r in
      elim (Bool-cases (any (λ n. nat_beq n (map_netuid c)) enabled)) [
        | inl e ↦ inl (e, rw (found, e, get_by_model) refl)
        | inr e ↦ inr (
          subnet_unavailable_error (map_model c) (no_adapter (map_model c)),
          e,
          rw (found, e, get_by_model) refl,
          refl,
        )
      ]
