-- ===== src/Controller/Status.antt =====
-- `updateGatewayStatus` of controller.go.
pub mod Report
pub mod Compared
use layer7_operator.Prelude.{
  from_result, String, Bool, false, Error, Outcome, ok, err, panic, Option, none, some, List, [],
  ◌∷◌, not, ◌==◌, if◌then◌else◌,
}
use layer7_operator.Prelude.Int.{int_eq}
use layer7_operator.Prelude.Exec.{Exec, raise, lift, pure, ◌>>=◌, ◌>>◌}
use layer7_operator.Kube.Pods.{Deployment, Pod, ContainerStatus}
use layer7_operator.Api.Gateway.{Gateway, GatewayState, GatewayStatus, status_equal}
use layer7_operator.Runtime.{Runtime}
use layer7_operator.Labels.{default_labels}
use layer7_operator.Controller.Client.{Client}
use layer7_operator.Controller.Zero.{zero_deployment}
use layer7_operator.Controller.Run.{
  Run, is_not_found, found_or, read, ask, modify_gateway, when, update_status,
}

-- The loop over a pod's containers: the last one that runs the image decides, and without one the
-- flag stays as it was.
unfoldable pub container_ready : String → List ContainerStatus → Bool → Bool
container_ready image [] ready = ready
container_ready image (cs ∷ statuses) ready =
    container_ready image statuses (if cs.image == image then cs.ready else ready)

-- The entry of a pod. `StartTime.String()` on a nil time panics.
unfoldable pub gateway_state : Pod → Bool → Option String → Outcome GatewayState
gateway_state pod ready none = panic
gateway_state pod ready (some start_time) = ok (record {
  name = pod.meta.name;
  phase = pod.phase;
  response_time = "";
  ready = ready;
  start_time = start_time;
})

unfoldable pub append_state :
    Outcome GatewayState → Outcome (List GatewayState) → Outcome (List GatewayState)
append_state (ok state) (ok states) = ok (state ∷ states)
append_state (ok state) (err e) = err e
append_state (ok state) panic = panic
append_state (err e) states = err e
append_state panic states = panic

-- The loop over the pods. The flag `ready` is declared outside it.
unfoldable pub gateway_states : String → List Pod → Bool → Outcome (List GatewayState)
unfolding gateway_state append_state
gateway_states image [] ready = ok []
gateway_states image (pod ∷ pods) ready =
    let now = container_ready image pod.container_statuses ready in
    append_state (gateway_state pod now pod.start_time) (gateway_states image pods now)

-- The status before the pods are added.
unfoldable pub deployment_status : Gateway → Deployment → GatewayStatus
deployment_status gw dep = record gw.status {
  host = gw.spec.app.management.cluster.hostname;
  image = gw.spec.app.image;
  version = gw.spec.version;
  gateway = some [];
  replicas = dep.status.replicas;
  ready = dep.status.ready_replicas;
  state = if int_eq dep.status.ready_replicas dep.status.replicas then "ready" else "initializing";
  conditions = dep.status.conditions;
}

module _ {R : Runtime} {C : Client} where
  abbrev fail_if : Option Error → Exec (Run R C) (Unit {0})
  fail_if none = pure tt
  fail_if (some e) = raise e

  unfoldable pub update_gateway_status : Exec (Run R C) (Unit {0})
  update_gateway_status = do
    gw ← ask (λ gw. gw)
    got ← read (C.deployments.get gw.meta.namespace gw.meta.name)
    fail_if (is_not_found got)
    listed ← read (C.list_pods gw.meta.namespace (default_labels gw))
    pods ← lift (from_result listed)
    states ← lift (gateway_states gw.spec.app.image pods false)
    let status : GatewayStatus = record (deployment_status gw (found_or zero_deployment got)) {
      gateway = some states;
    }
    when (not (status_equal status gw.status))
        (modify_gateway (λ g. record g { status = status }) >> update_status)
