-- ===== src/Registry/Models/Served.antt =====
-- The models that gateway/api/models.py lists, against the registry.
use tao_gateway.Base.{
  ℕ, ◌≡◌, refl, ◌∙◌, inl, inr, Bool, true, false, Option, some, List, [], ◌∷◌, All, All-map, map,
  nat_beq, nat_eq, string_eq, arith, if◌then◌else◌, Bool-cases,
}
use tao_gateway.Errors.{ok}
use tao_gateway.Base.Dict.{Dict, lookup, insert, lookup-insert, lookup-insert_self}
use tao_gateway.Base.Dict.Unique.{IsUnique, insert-IsUnique, IsUnique-finds}
use tao_gateway.Routing.Metagraph.{Subnets}
use tao_gateway.Registry.{
  empty_registry, add_models, register, get_by_model, info_of, list_all, AdapterClass, sn1_text,
  sn19_image, sn22_search, sn32_detection, sn62_code, adapter_factory, get_model_names, Settings,
  class_config, Registered, register_known, register_enabled,
}
use tao_gateway.Registry.Enabled.{map_netuid, map_model, factory-cases, model-insert}
use tao_gateway.Registry.Models.{
  SubnetModelInfo, capability_of, parameters_of, model_info, list_models,
}

module _ (settings : Settings) where
  abbrev netuid_of : AdapterClass → ℕ
  netuid_of c = (class_config settings c).netuid

  -- An entry of the registry: the class of the netuid, with its one model.
  abbrev IsEntry : Registered settings → ℕ → AdapterClass → Type 0
  IsEntry r n c =
      (n ≡ netuid_of c)
      × (lookup n r.model_names ≡ some (map_model c ∷ []))
      × (lookup (map_model c) r.by_model ≡ some c)

  abbrev IsRouted : Registered settings → Type 0
  IsRouted r =
      IsUnique r.by_netuid
      × ((n : ℕ) (c : AdapterClass) → lookup n r.by_netuid ≡ some c → IsEntry r n c)

  abbrev with_class : AdapterClass → Registered settings → Registered settings
  with_class k r = record {
    by_netuid = insert (netuid_of k) k r.by_netuid;
    by_model = insert (map_model k) k r.by_model;
    model_names = insert (netuid_of k) (map_model k ∷ []) r.model_names;
  }

  register_whole :
      (k : AdapterClass) (r : Registered settings)
      → register_known settings (map_netuid k) (adapter_factory (map_netuid k)) r ≡ with_class k r
  unfolding register add_models adapter_factory get_model_names
  register_whole sn1_text r = refl
  register_whole sn19_image r = refl
  register_whole sn22_search r = refl
  register_whole sn32_detection r = refl
  register_whole sn62_code r = refl

  some_if :
      (b : Bool) (c : AdapterClass) (o : Option AdapterClass)
      → o ≡ some c
      → (if b then some c else o) ≡ some c
  some_if true c o h = refl
  some_if false c o h = h

  class_new :
      (k : AdapterClass) (r : Registered settings) → IsEntry (with_class k r) (netuid_of k) k
  class_new k r = (
    refl,
    lookup-insert_self (netuid_of k) (map_model k ∷ []) r.model_names,
    lookup-insert_self (map_model k) k r.by_model,
  )

  -- Another entry keeps its names, and its model, which is that of no class but its own.
  class_kept :
      (k : AdapterClass) (r : Registered settings) (n : ℕ) (c : AdapterClass)
      → nat_beq (netuid_of k) n ≡ false
      → IsEntry r n c
      → IsEntry (with_class k r) n c
  class_kept k r n c other h = (
    h.0,
    lookup-insert (netuid_of k) n (map_model k ∷ []) r.model_names ∙ rw other (h.1),
    model-insert c k r.by_model
        ∙ some_if (nat_beq (map_netuid k) (map_netuid c)) c (lookup (map_model c) r.by_model) h.2,
  )

  with_class-IsEntry :
      (k : AdapterClass) (r : Registered settings)
      → IsRouted r
      → (n : ℕ) (c : AdapterClass) → lookup n (with_class k r).by_netuid ≡ some c
      → IsEntry (with_class k r) n c
  with_class-IsEntry k r h n c found = elim (Bool-cases (nat_beq (netuid_of k) n)) [
    | inl same ↦
        let at : n ≡ netuid_of k = ground arith in
        let is : c ≡ k = ground (arith, lookup-insert (netuid_of k) n k r.by_netuid) in
        rw (at, is) (class_new k r)
    | inr other ↦
        class_kept k r n c other
          (h.1 n c (ground (arith, lookup-insert (netuid_of k) n k r.by_netuid)))
  ]

  with_class-IsRouted :
      (k : AdapterClass) (r : Registered settings) → IsRouted r → IsRouted (with_class k r)
  with_class-IsRouted k r h =
      (insert-IsUnique (netuid_of k) k r.by_netuid h.0, with_class-IsEntry k r h)

  known-IsRouted :
      (n : ℕ) (r : Registered settings)
      → IsRouted r
      → IsRouted (register_known settings n (adapter_factory n) r)
  known-IsRouted n r h = elim (factory-cases n) [
    | inl (k, e) ↦ rw (e, register_whole k r) (with_class-IsRouted k r h)
    | inr (e, other) ↦ rw e h
  ]

  enabled-IsRouted :
      (enabled : List ℕ) (r : Registered settings)
      → IsRouted r
      → IsRouted (register_enabled settings enabled r)
  unfolding register_enabled
  enabled-IsRouted [] r h = h
  enabled-IsRouted (n ∷ enabled) r h =
      enabled-IsRouted enabled (register_known settings n (adapter_factory n) r)
        (known-IsRouted n r h)

-- The model is served by an adapter of the subnet that it names, and shows that adapter's texts.
abbrev pub IsServed : (s : Settings) → Registered s → SubnetModelInfo → Type 0
IsServed s r info =
    (c : AdapterClass) × (get_by_model AdapterClass (class_config s) info.id r ≡ ok c)
    × (info.subnet_id ≡ (class_config s c).netuid)
    × (info.capability ≡ capability_of c)
    × (info.parameters ≡ parameters_of c)

module _ (M : Type 0) (size_of : M → ℕ) (settings : Settings) where
  rows_all :
      (r : Registered settings) (manager : Option (Subnets M)) (created : ℕ)
      (rows : Dict ℕ AdapterClass)
      → All (λ x. IsEntry settings r x.0 x.1) rows
      → All (IsServed settings r) (
          map
            (model_info M size_of settings manager created)
            (map (info_of AdapterClass (class_config settings) r) rows))
  unfolding get_by_model
  rows_all r manager created [] h = tt
  rows_all r manager created ((n, c) ∷ rows) h =
      let (at, names, by_model) = h.0 in
      (
        (c, rw names (rw (get_by_model, by_model) refl), refl, refl, refl),
        rows_all r manager created rows h.1,
      )

  -- For any enabled subnets and any settings, each model that the endpoint lists is served: a request
  -- with its id gets an adapter, whose netuid, capability and parameters are those listed.
  pub list_models-IsServed :
      (enabled : List ℕ) (manager : Option (Subnets M)) (created : ℕ)
      → let r =
          register_enabled settings enabled (empty_registry AdapterClass (class_config settings)) in
        All (IsServed settings r) (list_models M size_of settings r manager created)
  unfolding list_models list_all
  list_models-IsServed enabled manager created =
      let none_yet = empty_registry AdapterClass (class_config settings) in
      let r = register_enabled settings enabled none_yet in
      let h = enabled-IsRouted settings enabled none_yet (tt, λ n c e. cc) in
      rows_all r manager created r.by_netuid (
        All-map (λ x. lookup x.0 r.by_netuid ≡ some x.1) (λ x. IsEntry settings r x.0 x.1)
          (λ x. h.1 x.0 x.1) r.by_netuid (IsUnique-finds r.by_netuid h.0))
