-- ===== src/Build/Deployment/Storage/Paired.antt =====
-- The volumes and the gateway's mounts that `NewDeployment` of pkg/gateway/deployment.go collects are
-- appended in pairs.
use mathlib.Core.List.{map-append}
use layer7_operator.Prelude.{
  String, Bool, true, false, ◌≡◌, refl, ap, List, [], ◌∷◌, map, arith, Bool-cases, inl, inr,
  if◌then◌else◌, ◌==◌,
}
use layer7_operator.Kube.Pods.{Volume, VolumeMount, Container}
use layer7_operator.Api.Settings.{Bundle}
use layer7_operator.Api.Gateway.{Gateway}
use layer7_operator.Build.Deployment.Repository.{uses_repository_init, repository_init}
use layer7_operator.Build.Deployment.Storage.{
  Storage, attach, empty_volume, add_bundle, add_bundles, add_container_mounts, add_containers,
  storage, config_map_bundle, secret_bundle, base_storage, add_cluster_properties, add_listen_ports,
  add_restman, add_graphman, add_hazelcast, add_repository,
}

abbrev pub volume_names : List Volume → List String
volume_names = map (λ v. v.name)

abbrev pub mount_names : List VolumeMount → List String
mount_names = map (λ m. m.name)

-- The volumes and the mounts go by the same names, in the same order.
abbrev IsPaired : Storage → Type 0
IsPaired st = volume_names st.volumes ≡ mount_names st.mounts

attach-IsPaired :
    (m : VolumeMount) (v : Volume) (st : Storage)
    → m.name ≡ v.name
    → IsPaired st
    → IsPaired (attach m v st)
attach-IsPaired m v st e h = simp (map-append, h, e)

-- An empty directory for each mount.
pub names-map-empty_volume :
    (ms : List VolumeMount) → volume_names (map empty_volume ms) ≡ mount_names ms
names-map-empty_volume [] = refl
names-map-empty_volume (m ∷ ms) = ap (λ names. m.name ∷ names) (names-map-empty_volume ms)

add_container_mounts-IsPaired :
    (c : Container) (st : Storage) → IsPaired st → IsPaired (add_container_mounts c st)
unfolding add_container_mounts
add_container_mounts-IsPaired c st h = simp (map-append, h, names-map-empty_volume)

add_containers-IsPaired :
    (cs : List Container) (st : Storage) → IsPaired st → IsPaired (add_containers cs st)
unfolding add_containers
add_containers-IsPaired [] st h = h
add_containers-IsPaired (c ∷ cs) st h =
    add_containers-IsPaired cs _ (add_container_mounts-IsPaired c st h)

config_map_bundle-name : (b : Bundle) → b.name ≡ (config_map_bundle b).name
unfolding config_map_bundle
config_map_bundle-name b = ground arith

secret_bundle-name : (b : Bundle) → b.name ≡ (secret_bundle b).name
unfolding secret_bundle
secret_bundle-name b = ground arith

add_bundle-IsPaired : (b : Bundle) (st : Storage) → IsPaired st → IsPaired (add_bundle b st)
unfolding add_bundle
add_bundle-IsPaired b st h = elim (Bool-cases (b.type == "configMap")) [
  | inl e ↦ rw e (attach-IsPaired _ _ st (config_map_bundle-name b) h)
  | inr e ↦ rw e (elim (Bool-cases (b.type == "secret")) [
    | inl e' ↦ rw e' (attach-IsPaired _ _ st (secret_bundle-name b) h)
    | inr e' ↦ rw e' h
  ])
]

add_bundles-IsPaired :
    (bs : List Bundle) (st : Storage) → IsPaired st → IsPaired (add_bundles bs st)
unfolding add_bundles
add_bundles-IsPaired [] st h = h
add_bundles-IsPaired (b ∷ bs) st h = add_bundles-IsPaired bs _ (add_bundle-IsPaired b st h)

-- A pair that one flag adds.
attach_if-IsPaired :
    (flag : Bool) (m : VolumeMount) (v : Volume) (st : Storage)
    → m.name ≡ v.name
    → IsPaired st
    → IsPaired (if flag then attach m v st else st)
attach_if-IsPaired true m v st e h = attach-IsPaired m v st e h
attach_if-IsPaired false m v st e h = h

module _ (gw : Gateway) (st : Storage) (h : IsPaired st) where
  add_cluster_properties-IsPaired : IsPaired (add_cluster_properties gw st)
  unfolding add_cluster_properties
  add_cluster_properties-IsPaired = attach_if-IsPaired _ _ _ st refl h

  add_listen_ports-IsPaired : IsPaired (add_listen_ports gw st)
  unfolding add_listen_ports
  add_listen_ports-IsPaired = attach_if-IsPaired _ _ _ st refl h

  add_restman-IsPaired : IsPaired (add_restman gw st)
  unfolding add_restman
  add_restman-IsPaired = attach_if-IsPaired _ _ _ st refl h

  add_graphman-IsPaired : IsPaired (add_graphman gw st)
  unfolding add_graphman
  add_graphman-IsPaired = attach_if-IsPaired _ _ _ st refl h

  add_hazelcast-IsPaired : IsPaired (add_hazelcast gw st)
  unfolding add_hazelcast
  add_hazelcast-IsPaired = attach_if-IsPaired _ _ _ st refl h

  add_repository-IsPaired : IsPaired (add_repository gw st)
  unfolding add_repository
  add_repository-IsPaired = elim (Bool-cases (uses_repository_init gw)) [
    | inl e ↦ rw e (add_container_mounts-IsPaired (repository_init gw) st h)
    | inr e ↦ rw e h
  ]

base_storage-IsPaired : (gw : Gateway) → IsPaired (base_storage gw)
unfolding base_storage
base_storage-IsPaired gw = refl

ruleset paired_steps = (
  base_storage-IsPaired, add_cluster_properties-IsPaired, add_listen_ports-IsPaired,
  add_restman-IsPaired, add_graphman-IsPaired, add_hazelcast-IsPaired, add_bundles-IsPaired,
  add_containers-IsPaired, add_repository-IsPaired,
)

-- The pod declares one volume for each mount of the gateway container, in the same order and by the
-- same names.
pub storage-IsPaired :
    (gw : Gateway) → volume_names (storage gw).volumes ≡ mount_names (storage gw).mounts
unfolding storage
storage-IsPaired gw = search paired_steps depth 10
