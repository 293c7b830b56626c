-- ===== src/Build/Deployment/Storage/Backed.antt =====
-- The ConfigMaps that the Deployment's volumes name (pkg/gateway/deployment.go), against the
-- Gateway's own (pkg/gateway/config/config.go, pkg/controllers/gateway/controller.go).
use layer7_operator.Prelude.{
  String, ◌<>◌, Bool, true, false, ◌≡◌, refl, ◌⊎◌, inl, inr, List, [], ◌∷◌, ◌++◌, map, arith, All,
  All-append, All-imp, elem, eq_refl, Bool-cases, if◌then◌else◌, ◌==◌,
}
use layer7_operator.Kube.Pods.{
  KeyToPath, Volume, VolumeMount, VolumeSource, secret, config_map, empty_dir, csi, Container,
}
use layer7_operator.Api.Settings.{Bundle}
use layer7_operator.Api.Gateway.{Gateway}
use layer7_operator.Runtime.{Runtime}
use layer7_operator.Build.Config.Entries.{Provides, Provides-system, Provides-hazelcast}
use layer7_operator.Build.Deployment.Repository.{uses_repository_init, repository_init}
use layer7_operator.Build.Deployment.Storage.{
  Storage, attach, config_map_is_set, csi_is_zero, empty_volume, config_map_bundle, secret_bundle,
  add_bundle, add_bundles, add_container_mounts, add_containers, add_repository, base_storage,
  add_cluster_properties, add_listen_ports, add_restman, add_graphman, add_hazelcast, storage,
}

-- The names of the Gateway's own ConfigMaps.
abbrev pub config_map_names : Gateway → List String
config_map_names gw =
    gw.meta.name
    ∷ (gw.meta.name <> "-system")
    ∷ ((if gw.spec.app.cluster_properties.enabled then (gw.meta.name <> "-cwp-bundle") ∷ [] else [])
        ++ (if gw.spec.app.listen_ports.harden
            then (gw.meta.name <> "-listen-port-bundle") ∷ []
            else []))

-- The bundles of the spec that are ConfigMaps.
abbrev pub bundle_config_maps : List Bundle → List String
bundle_config_maps [] = []
bundle_config_maps (b ∷ bs) =
    if b.type == "configMap" then b.name ∷ bundle_config_maps bs else bundle_config_maps bs

elem-bundle_config_maps :
    (b : Bundle) (bs : List Bundle) (name : String)
    → elem name (bundle_config_maps bs) ≡ true
    → elem name (bundle_config_maps (b ∷ bs)) ≡ true
elem-bundle_config_maps b bs name h = elim (Bool-cases (b.type == "configMap")) [
  | inl e ↦ rw e (ground (arith, h))
  | inr e ↦ rw e h
]

cwp-elem :
    (gw : Gateway)
    → gw.spec.app.cluster_properties.enabled ≡ true
    → elem (gw.meta.name <> "-cwp-bundle") (config_map_names gw) ≡ true
cwp-elem gw on = rw on (ground (arith, eq_refl (gw.meta.name <> "-cwp-bundle")))

listen_port-elem :
    (gw : Gateway)
    → gw.spec.app.listen_ports.harden ≡ true
    → elem (gw.meta.name <> "-listen-port-bundle") (config_map_names gw) ≡ true
listen_port-elem gw on = elim (Bool-cases gw.spec.app.cluster_properties.enabled) [
  | inl e ↦ rw (on, e) (ground (arith, eq_refl (gw.meta.name <> "-listen-port-bundle")))
  | inr e ↦ rw (on, e) (ground (arith, eq_refl (gw.meta.name <> "-listen-port-bundle")))
]

-- Every ConfigMap bundle is listed.
bundles-listed :
    (bs : List Bundle)
    → All (λ b. (b.type == "configMap") ≡ true → elem b.name (bundle_config_maps bs) ≡ true) bs
bundles-listed [] = tt
bundles-listed (b ∷ bs) = (
  λ e. rw (e, eq_refl) refl,
  All-imp (λ c h e. elem-bundle_config_maps b bs c.name (h e)) bs (bundles-listed bs),
)

module _ (R : Runtime) (gw : Gateway) where
  -- A ConfigMap volume takes one of the Gateway's own ConfigMaps, with a value for each key that
  -- the volume projects, or one that the spec lists as a bundle.
  abbrev pub IsBacked : VolumeSource → Type 0
  IsBacked (config_map c) =
      ((elem c.name (config_map_names gw) ≡ true)
        × All (λ (k : KeyToPath). Provides R gw c.name k.key) c.entries)
      ⊎ (elem c.name (bundle_config_maps gw.spec.app.bundle) ≡ true)
  IsBacked (secret s) = Unit
  IsBacked empty_dir = Unit
  IsBacked (csi c) = Unit

  abbrev Backed : Storage → Type 0
  Backed st = All (λ (v : Volume). IsBacked v.source) st.volumes

  append-Backed :
      (v : Volume) (vs : List Volume)
      → IsBacked v.source
      → All (λ (w : Volume). IsBacked w.source) vs
      → All (λ (w : Volume). IsBacked w.source) (vs ++ v ∷ [])
  append-Backed v vs new h = All-append (λ (w : Volume). IsBacked w.source) vs (v ∷ []) h (new, tt)

  attach_if-Backed :
      (flag : Bool) (m : VolumeMount) (v : Volume) (st : Storage)
      → (flag ≡ true → IsBacked v.source)
      → Backed st
      → Backed (if flag then attach m v st else st)
  attach_if-Backed true m v st new h = append-Backed v st.volumes (new refl) h
  attach_if-Backed false m v st new h = h

  base_storage-Backed : Backed (base_storage gw)
  unfolding base_storage
  base_storage-Backed = (
    tt,
    (inl (ground (arith, eq_refl (gw.meta.name <> "-system")), (Provides-system R gw, tt)), tt),
  )

  add_cluster_properties-Backed : (st : Storage) → Backed st → Backed (add_cluster_properties gw st)
  unfolding add_cluster_properties
  add_cluster_properties-Backed st h = attach_if-Backed _ _ _ st (λ on. inl (cwp-elem gw on, tt)) h

  add_listen_ports-Backed : (st : Storage) → Backed st → Backed (add_listen_ports gw st)
  unfolding add_listen_ports
  add_listen_ports-Backed st h =
      attach_if-Backed _ _ _ st (λ on. inl (listen_port-elem gw on, tt)) h

  add_restman-Backed : (st : Storage) → Backed st → Backed (add_restman gw st)
  unfolding add_restman
  add_restman-Backed st h = attach_if-Backed _ _ _ st (λ on. tt) h

  add_graphman-Backed : (st : Storage) → Backed st → Backed (add_graphman gw st)
  unfolding add_graphman
  add_graphman-Backed st h = attach_if-Backed _ _ _ st (λ on. tt) h

  add_hazelcast-Backed : (st : Storage) → Backed st → Backed (add_hazelcast gw st)
  unfolding add_hazelcast
  add_hazelcast-Backed st h =
      attach_if-Backed _ _ _ st
        (λ on. inl (ground (arith, eq_refl gw.meta.name), (Provides-hazelcast R gw on, tt))) h

  config_map_bundle-IsBacked :
      (b : Bundle)
      → elem b.name (bundle_config_maps gw.spec.app.bundle) ≡ true
      → IsBacked (config_map_bundle b).source
  unfolding config_map_bundle
  config_map_bundle-IsBacked b listed = elim (Bool-cases (config_map_is_set b.config_map)) [
    | inl e ↦ rw e (inr listed)
    | inr e ↦ rw e (inr listed)
  ]

  secret_bundle-IsBacked : (b : Bundle) → IsBacked (secret_bundle b).source
  unfolding secret_bundle
  secret_bundle-IsBacked b = elim (Bool-cases (csi_is_zero b.csi)) [
    | inl e ↦ rw e tt
    | inr e ↦ rw e tt
  ]

  abbrev IsListed : Bundle → Type 0
  IsListed b =
      (b.type == "configMap") ≡ true → elem b.name (bundle_config_maps gw.spec.app.bundle) ≡ true

  add_bundle-Backed :
      (b : Bundle) (st : Storage) → IsListed b → Backed st → Backed (add_bundle b st)
  unfolding add_bundle
  add_bundle-Backed b st listed h = elim (Bool-cases (b.type == "configMap")) [
    | inl e ↦ rw e (append-Backed _ st.volumes (config_map_bundle-IsBacked b (listed e)) h)
    | inr e ↦ rw e (elim (Bool-cases (b.type == "secret")) [
      | inl f ↦ rw f (append-Backed _ st.volumes (secret_bundle-IsBacked b) h)
      | inr f ↦ rw f h
    ])
  ]

  add_bundles-Backed :
      (bs : List Bundle) (st : Storage) → All IsListed bs → Backed st → Backed (add_bundles bs st)
  unfolding add_bundles
  add_bundles-Backed [] st listed h = h
  add_bundles-Backed (b ∷ bs) st listed h =
      add_bundles-Backed bs _ listed.1 (add_bundle-Backed b st listed.0 h)

  empty_volumes-IsBacked :
      (ms : List VolumeMount) → All (λ (v : Volume). IsBacked v.source) (map empty_volume ms)
  empty_volumes-IsBacked [] = tt
  empty_volumes-IsBacked (m ∷ ms) = (tt, empty_volumes-IsBacked ms)

  add_container_mounts-Backed :
      (c : Container) (st : Storage) → Backed st → Backed (add_container_mounts c st)
  unfolding add_container_mounts
  add_container_mounts-Backed c st h =
      All-append (λ (v : Volume). IsBacked v.source) st.volumes (map empty_volume c.volume_mounts) h
        (empty_volumes-IsBacked c.volume_mounts)

  add_containers-Backed :
      (cs : List Container) (st : Storage) → Backed st → Backed (add_containers cs st)
  unfolding add_containers
  add_containers-Backed [] st h = h
  add_containers-Backed (c ∷ cs) st h =
      add_containers-Backed cs _ (add_container_mounts-Backed c st h)

  add_repository-Backed : (st : Storage) → Backed st → Backed (add_repository gw st)
  unfolding add_repository
  add_repository-Backed st h = elim (Bool-cases (uses_repository_init gw)) [
    | inl e ↦ rw e (add_container_mounts-Backed (repository_init gw) st h)
    | inr e ↦ rw e h
  ]

  ruleset backed_steps = (
    base_storage-Backed, add_cluster_properties-Backed, add_listen_ports-Backed, add_restman-Backed,
    add_graphman-Backed, add_hazelcast-Backed, bundles-listed, add_bundles-Backed,
    add_containers-Backed, add_repository-Backed,
  )

  pub storage-Backed : All (λ (v : Volume). IsBacked v.source) (storage gw).volumes
  unfolding storage
  storage-Backed = search backed_steps depth 12
