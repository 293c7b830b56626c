-- ===== src/Controller/Status/Report.antt =====
-- What `updateGatewayStatus` of controller.go reports.
use mathlib.Core.Bool.{false≢true}
use layer7_operator.Prelude.{
  String, Bool, true, false, ◌≡◌, refl, ap, ok, panic, none, some, Option, List, [], ◌∷◌, map,
  arith, ◌==◌, ◌&&◌, ◌||◌, not, if◌then◌else◌, Result, value, Option-cases, inl, inr, sym,
}
use layer7_operator.Prelude.Int.{int_eq}
use layer7_operator.Prelude.Exec.{◌>>◌}
use layer7_operator.Kube.Pods.{Deployment, Pod, ContainerStatus}
use layer7_operator.Api.Gateway.{GatewayState, GatewayStatus, status_equal}
use layer7_operator.Runtime.{Runtime}
use layer7_operator.Labels.{default_labels}
use layer7_operator.Controller.Client.{Client}
use layer7_operator.Controller.Zero.{zero_deployment}
use layer7_operator.Controller.Run.{
  Run, is_not_found, found_or, modify_gateway, when, update_status,
}
use layer7_operator.Controller.Status.{
  container_ready, gateway_states, deployment_status, update_gateway_status,
}

-- Some container of the pod runs the image.
abbrev pub runs : String → List ContainerStatus → Bool
runs image [] = false
runs image (cs ∷ statuses) = cs.image == image || runs image statuses

-- Whether the last of these containers is ready; false if there is none.
abbrev pub own_ready : String → List ContainerStatus → Bool
own_ready image [] = false
own_ready image (cs ∷ statuses) =
    if runs image statuses then own_ready image statuses else (cs.image == image && cs.ready)

container_ready_lem :
    (image : String) (statuses : List ContainerStatus) (ready : Bool)
    → container_ready image statuses ready
      ≡ (if runs image statuses then own_ready image statuses else ready)
unfolding container_ready
container_ready_lem image [] ready = refl
container_ready_lem image (cs ∷ statuses) ready =
    ground
      (arith, container_ready_lem image statuses (if cs.image == image then cs.ready else ready))

-- The flags that the loop reports: a pod without a container of the image has that of the pod before.
abbrev pub carried_flags : String → List Pod → Bool → List Bool
carried_flags image [] ready = []
carried_flags image (pod ∷ pods) ready =
    let statuses = pod.container_statuses in
    let now = if runs image statuses then own_ready image statuses else ready in
    now ∷ carried_flags image pods now

abbrev pub started_and : Option String → Bool → Bool
started_and none b = false
started_and (some t) b = b

-- Every pod has a start time.
abbrev pub all_started : List Pod → Bool
all_started [] = true
all_started (pod ∷ pods) = started_and pod.start_time (all_started pods)

abbrev pub Reports : String → List Pod → Bool → List GatewayState → Type 0
Reports image pods ready states =
    (map (λ s. s.name) states ≡ map (λ p. p.meta.name) pods)
    × (map (λ s. s.ready) states ≡ carried_flags image pods ready)

gateway_states-Reports :
    (image : String) (pods : List Pod) (ready : Bool)
    → all_started pods ≡ true
    → (states : List GatewayState) × (gateway_states image pods ready ≡ ok states)
      × Reports image pods ready states
unfolding gateway_states
gateway_states-Reports image [] ready h = ([], refl, (refl, refl))
gateway_states-Reports image (pod ∷ pods) ready h = elim (Option-cases pod.start_time) [
  | inl e ↦ absurd (false≢true (rw e at h))
  | inr (t, e) ↦
      let statuses = pod.container_statuses in
      let now : Bool = if runs image statuses then own_ready image statuses else ready in
      let (states, made, (names, flags)) = gateway_states-Reports image pods now (rw e at h) in
      (
        record {
          name = pod.meta.name;
          phase = pod.phase;
          response_time = "";
          ready = now;
          start_time = t;
        }
            ∷ states,
        rw (container_ready_lem, e, made) refl,
        (ap (λ l. pod.meta.name ∷ l) names, ap (λ l. now ∷ l) flags),
      )
]

-- Where every pod has a start time, the status lists one entry for each pod, in order, with its name. An
-- entry is ready if the last container of the pod that runs the gateway's image is ready; a pod that
-- runs no such container has the flag of the pod before it, the first one "not ready".
pub gateway_states-reported :
    (image : String) (pods : List Pod)
    → all_started pods ≡ true
    → (states : List GatewayState) × (gateway_states image pods false ≡ ok states)
      × Reports image pods false states
gateway_states-reported image pods h = gateway_states-Reports image pods false h

-- A pod that has no start time yet makes the report panic.
pub gateway_states-panic :
    (image : String) (pods : List Pod) (ready : Bool)
    → all_started pods ≡ false
    → gateway_states image pods ready ≡ panic
unfolding gateway_states
gateway_states-panic image [] ready h = absurd (false≢true (sym h))
gateway_states-panic image (pod ∷ pods) ready h = elim (Option-cases pod.start_time) [
  | inl e ↦ rw e refl
  | inr (t, e) ↦ rw (e, gateway_states-panic image pods _ (rw e at h)) refl
]

module _ {R : Runtime} {C : Client} (run : Run R C) where
  abbrev pub deployment_read : Result Deployment
  deployment_read = C.deployments.get run.gateway.meta.namespace run.gateway.meta.name run.cluster

  -- Unless the Deployment is not found, and if the pods are listed and all have started, the status that
  -- is compared, and published where it differs, says "ready" exactly if the Deployment that was
  -- read has as many ready replicas as replicas. A Deployment that could not be read counts as one
  -- with no replicas, and so as ready. The commit and the management pod stay as they were.
  pub update_gateway_status-published :
      {pods : List Pod}
      → is_not_found deployment_read ≡ none
      → C.list_pods run.gateway.meta.namespace (default_labels run.gateway) run.cluster ≡ value pods
      → all_started pods ≡ true
      → (status : GatewayStatus) × (update_gateway_status run
          ≡ when
              (not (status_equal status run.gateway.status))
              (modify_gateway (λ gw. record gw { status = status }) >> update_status)
              run)
        × (status.state ≡ (
            if int_eq
              (found_or zero_deployment deployment_read).status.ready_replicas
              (found_or zero_deployment deployment_read).status.replicas
            then "ready"
            else "initializing"))
        × (status.commit_id ≡ run.gateway.status.commit_id)
        × (status.management_pod ≡ run.gateway.status.management_pod)
        × ((states : List GatewayState) × (status.gateway ≡ some states)
            × Reports run.gateway.spec.app.image pods false states)
  unfolding update_gateway_status deployment_status
  update_gateway_status-published {pods} readable listed started =
      let (states, made, report) =
        gateway_states-reported run.gateway.spec.app.image pods started in
      (
        record (deployment_status run.gateway (found_or zero_deployment deployment_read)) {
          gateway = some states;
        },
        rw (readable, listed, made) refl,
        refl,
        refl,
        refl,
        (states, refl, report),
      )
