-- ===== src/Build/Deployment/Pod.antt =====
-- The pod of the Deployment as a whole (pkg/gateway/deployment.go).
use layer7_operator.Prelude.{◌≡◌, true, [], ◌∷◌, ◌++◌, All, All-append, elem, Bool-cases, inl, inr}
use layer7_operator.Kube.Pods.{Container, PodSpec, Volume}
use layer7_operator.Api.Gateway.{Gateway}
use layer7_operator.Build.Deployment.{new_deployment}
use layer7_operator.Build.Deployment.Repository.{uses_repository_init, repository_init}
use layer7_operator.Build.Deployment.Storage.{storage}
use layer7_operator.Build.Deployment.Storage.Paired.{volume_names, mount_names, storage-IsPaired}
use layer7_operator.Build.Deployment.Storage.Covers.{
  Covers, sidecars-Covers, init_containers-Covers, repository_init-Covers, gateway-Covers,
}
use layer7_operator.Runtime.{Runtime}
use layer7_operator.Build.Deployment.Storage.Backed.{IsBacked, storage-Backed}
use layer7_operator.Build.Deployment.Containers.{containers, init_containers, gateway_container}

-- Every mount of a container goes by the name of a volume of the pod.
abbrev pub Resolves : PodSpec → Container → Type 0
Resolves pod c = All (λ m. elem m.name (volume_names pod.volumes) ≡ true) c.volume_mounts

init_containers-Covers-All : (gw : Gateway) → All (Covers (storage gw)) (init_containers gw)
unfolding init_containers
init_containers-Covers-All gw = elim (Bool-cases (uses_repository_init gw)) [
  | inl e ↦ rw e (
      All-append (Covers (storage gw)) gw.spec.app.init_containers (repository_init gw ∷ [])
        (init_containers-Covers gw) (repository_init-Covers gw e, tt))
  | inr e ↦ rw e (init_containers-Covers gw)
]

-- In the Deployment of every Gateway, each volume mount of each container, of the gateway, the
-- sidecars, the init containers and the container that clones the repository, names a volume that the
-- pod declares.
pub pod-Resolves :
    (gw : Gateway)
    → let pod = (new_deployment gw).template.spec in
      All (Resolves pod) (pod.containers ++ pod.init_containers)
unfolding new_deployment containers gateway_container
pod-Resolves gw = (
  gateway-Covers gw,
  All-append (Covers (storage gw)) gw.spec.app.sidecars (init_containers gw) (sidecars-Covers gw)
      (init_containers-Covers-All gw),
)

-- The pod's volumes go, in order, by the names of the gateway container's mounts.
pub volumes-gateway_mounts :
    (gw : Gateway)
    → volume_names (new_deployment gw).template.spec.volumes
      ≡ mount_names (gateway_container gw).volume_mounts
unfolding new_deployment gateway_container
volumes-gateway_mounts gw = storage-IsPaired gw

-- Every ConfigMap volume of the Deployment takes one of the Gateway's own ConfigMaps, in which each key
-- that the volume projects has a value whatever random bytes are drawn, or a ConfigMap that the spec
-- lists as a bundle.
pub volumes-IsBacked :
    (R : Runtime) (gw : Gateway)
    → All (λ (v : Volume). IsBacked R gw v.source) (new_deployment gw).template.spec.volumes
unfolding new_deployment
volumes-IsBacked R gw = storage-Backed R gw
