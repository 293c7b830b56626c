-- ===== src/Controller/Leader.antt =====
-- `tagManagementPod` and `getPodNames` of controller.go.
pub mod Elected
use layer7_operator.Prelude.{
  from_result, String, Bool, List, [], ◌∷◌, ◌&&◌, not, ◌==◌, if◌then◌else◌,
}
use layer7_operator.Prelude.Exec.{Exec, lift, pure, ◌>>=◌, ◌>>◌}
use layer7_operator.Kube.Pods.{Pod}
use layer7_operator.Api.Gateway.{Gateway}
use layer7_operator.Runtime.{Runtime}
use layer7_operator.Labels.{default_labels, contains}
use layer7_operator.Controller.Client.{Client}
use layer7_operator.Controller.Run.{Run, on_cluster, read, ask, modify_gateway, update_status}

unfoldable pub get_pod_names : List Pod → List String
get_pod_names [] = []
get_pod_names (pod ∷ pods) = pod.meta.name ∷ get_pod_names pods

abbrev pub leader_patch : String
leader_patch = "{\"metadata\":{\"labels\":{\"management-access\": \"leader\"}}}"

abbrev pub set_management_pod : String → Gateway → Gateway
set_management_pod name gw = record gw { status = record gw.status { management_pod = name } }

-- The status names a pod, and the pod is there.
unfoldable pub has_leader : Gateway → List Pod → Bool
has_leader gw pods =
    not (gw.status.management_pod == "") && contains (get_pod_names pods) gw.status.management_pod

module _ {R : Runtime} {C : Client} where
  -- The loop acts on the first pod alone.
  unfoldable pub tag_first : List Pod → Exec (Run R C) (Unit {0})
  tag_first [] = pure tt
  tag_first (pod ∷ pods) = do
    on_cluster (C.patch_pod pod leader_patch)
    modify_gateway (set_management_pod pod.meta.name)
    update_status

  unfoldable pub tag_management_pod : Exec (Run R C) (Unit {0})
  unfolding tag_first
  tag_management_pod = do
    gw ← ask (λ gw. gw)
    listed ← read (C.list_pods gw.meta.namespace (default_labels gw))
    pods ← lift (from_result listed)
    if has_leader gw pods then pure tt else tag_first pods
