-- ===== src/Build/Deployment/Storage/Covers.antt =====
-- Every mount of another container of the pod has a volume (`NewDeployment` of
-- pkg/gateway/deployment.go).
use mathlib.Core.List.{map-append}
use layer7_operator.Prelude.{
  String, true, ◌≡◌, refl, List, [], ◌∷◌, ◌||◌, arith, Bool-cases, inl, inr, All, All-imp, elem,
  elem-append, eq_refl,
}
use layer7_operator.Kube.Pods.{VolumeMount, Container}
use layer7_operator.Api.Gateway.{Gateway}
use layer7_operator.Build.Deployment.Repository.{uses_repository_init, repository_init}
use layer7_operator.Build.Deployment.Storage.{
  Storage, add_container_mounts, add_containers, add_repository, storage,
}
use layer7_operator.Build.Deployment.Storage.Paired.{
  volume_names, mount_names, names-map-empty_volume, storage-IsPaired,
}

-- There is a volume of that name.
abbrev pub Declares : Storage → String → Type 0
Declares st name = elem name (volume_names st.volumes) ≡ true

-- There is a volume for each mount of the container.
abbrev pub Covers : Storage → Container → Type 0
Covers st c = All (λ m. Declares st m.name) c.volume_mounts

elem-mount_names : (ms : List VolumeMount) → All (λ m. elem m.name (mount_names ms) ≡ true) ms
elem-mount_names [] = tt
elem-mount_names (m ∷ ms) =
    (rw eq_refl refl, All-imp (λ m' h. ground (arith, h)) ms (elem-mount_names ms))

module _ (c : Container) (st : Storage) where
  elem-add_container_mounts :
      (name : String)
      → elem name (volume_names (add_container_mounts c st).volumes)
        ≡ (elem name (volume_names st.volumes) || elem name (mount_names c.volume_mounts))
  unfolding add_container_mounts
  elem-add_container_mounts name = simp (map-append, elem-append, names-map-empty_volume)

  add_container_mounts-Declares :
      (name : String) → Declares st name → Declares (add_container_mounts c st) name
  add_container_mounts-Declares name h = rw (elem-add_container_mounts name, h) refl

  add_container_mounts-Covers : Covers (add_container_mounts c st) c
  add_container_mounts-Covers =
      All-imp (λ m h. rw (elem-add_container_mounts m.name) (ground (arith, h))) c.volume_mounts
        (elem-mount_names c.volume_mounts)

add_containers-Declares :
    (cs : List Container) (st : Storage) (name : String)
    → Declares st name
    → Declares (add_containers cs st) name
unfolding add_containers
add_containers-Declares [] st name h = h
add_containers-Declares (c ∷ cs) st name h =
    add_containers-Declares cs _ name (add_container_mounts-Declares c st name h)

add_repository-Declares :
    (gw : Gateway) (st : Storage) (name : String)
    → Declares st name
    → Declares (add_repository gw st) name
unfolding add_repository
add_repository-Declares gw st name h = elim (Bool-cases (uses_repository_init gw)) [
  | inl e ↦ rw e (add_container_mounts-Declares (repository_init gw) st name h)
  | inr e ↦ rw e h
]

add_repository-Covers :
    (gw : Gateway) (st : Storage)
    → uses_repository_init gw ≡ true
    → Covers (add_repository gw st) (repository_init gw)
unfolding add_repository
add_repository-Covers gw st e = rw e (add_container_mounts-Covers (repository_init gw) st)

add_containers-Covers :
    (cs : List Container) (st : Storage) → All (Covers (add_containers cs st)) cs
unfolding add_containers
add_containers-Covers [] st = tt
add_containers-Covers (c ∷ cs) st = (
  All-imp (λ m h. add_containers-Declares cs (add_container_mounts c st) m.name h) c.volume_mounts
      (add_container_mounts-Covers c st),
  add_containers-Covers cs _,
)

module _ (gw : Gateway) where
  -- What holds before the last two steps holds at the end.
  pub sidecars-Covers : All (Covers (storage gw)) gw.spec.app.sidecars
  unfolding storage
  sidecars-Covers =
      All-imp (λ c h. All-imp (λ m d. add_repository-Declares gw _ m.name d) c.volume_mounts h)
        gw.spec.app.sidecars (add_containers-Covers gw.spec.app.sidecars _)

  pub init_containers-Covers : All (Covers (storage gw)) gw.spec.app.init_containers
  unfolding storage
  init_containers-Covers =
      All-imp
        (λ c h.
          All-imp
            (λ m d.
              add_repository-Declares gw _ m.name
                (add_containers-Declares gw.spec.app.sidecars _ m.name d))
            c.volume_mounts h)
        gw.spec.app.init_containers (add_containers-Covers gw.spec.app.init_containers _)

  pub repository_init-Covers :
      uses_repository_init gw ≡ true → Covers (storage gw) (repository_init gw)
  unfolding storage
  repository_init-Covers e = add_repository-Covers gw _ e

  pub gateway-Covers : All (λ m. Declares (storage gw) m.name) (storage gw).mounts
  gateway-Covers = rw storage-IsPaired (elem-mount_names (storage gw).mounts)
