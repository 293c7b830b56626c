-- ===== src/Tests/Passes.antt =====
-- The theorems on passes over one object, on the status and on the management pod, at a cluster in
-- memory.
use layer7_operator.Prelude.{
  ◌⊎◌, ◌≡◌, ◌≢◌, refl, String, true, false, ok, none, some, value, panic, List, [], ◌∷◌, arith,
  eq_iff, not, if◌then◌else◌,
}
use layer7_operator.Prelude.Int.{pos, int_eq}
use layer7_operator.Prelude.Exec.{◌>>◌}
use layer7_operator.Kube.Pods.{Pod, Deployment}
use layer7_operator.Kube.Net.{HorizontalPodAutoscaler}
use layer7_operator.Api.Gateway.{GatewayState, GatewayStatus, status_equal}
use layer7_operator.Build.Hpa.{new_hpa}
use layer7_operator.Build.Deployment.{new_deployment}
use layer7_operator.Controller.Run.{Run, on_cluster, found_or, when, modify_gateway, update_status}
use layer7_operator.Controller.Zero.{zero_deployment}
use layer7_operator.Controller.Objects.{reconcile_deployment, reconcile_hpa}
use layer7_operator.Controller.Repeat.Deployment.{
  compared_view, reconcile_deployment_settled, reconcile_deployment-found, Revises,
}
use layer7_operator.Controller.Repeat.Hpa.{reconcile_hpa-rewrites}
use layer7_operator.Controller.Status.{gateway_states, update_gateway_status}
use layer7_operator.Controller.Status.Report.{
  Reports, gateway_states-reported, gateway_states-panic, deployment_read,
  update_gateway_status-published,
}
use layer7_operator.Tests.Sample.{sample, sample_runtime, sample_meta}
use layer7_operator.Tests.Cluster.{
  Cluster, sample_client, sample_client-KeepsKeys, empty_cluster, sample_pod, api_of-IsStore,
}

abbrev run_on : Cluster → Run sample_runtime sample_client
run_on s = record { gateway = sample; cluster = s; entropy = 0 }

abbrev fresh_run : Run sample_runtime sample_client
fresh_run = run_on empty_cluster

abbrev deployment_run : Run sample_runtime sample_client
deployment_run = (reconcile_deployment fresh_run).1

deployment_written : reconcile_deployment fresh_run ≡ (ok tt, deployment_run)
unfolding reconcile_deployment
deployment_written = refl

reconcile_deployment_settled_example : reconcile_deployment deployment_run ≡ (ok tt, deployment_run)
reconcile_deployment_settled_example =
    reconcile_deployment_settled sample_client-KeepsKeys
      (api_of-IsStore (λ x. x.meta) (λ s. s.deployments) (λ xs s. record s { deployments = xs })
        (compared_view sample_client) (λ xs s. refl))
      fresh_run deployment_run deployment_written

-- A Deployment of another strategy, with the replicas of the spec and no annotations.
abbrev old_deployment : Deployment
old_deployment = record (new_deployment sample) {
  meta = sample_meta "ssg";
  replicas = some (pos 5);
  strategy = record { type = "Recreate"; rolling_update = none };
}

abbrev old_run : Run sample_runtime sample_client
old_run = run_on (record empty_cluster { deployments = old_deployment ∷ [] })

old_found :
    sample_client.deployments.get sample.meta.namespace sample.meta.name old_run.cluster
    ≡ value old_deployment
old_found = refl

reconcile_deployment-found_example :
    ((compared_view sample_client old_deployment
        ≡ compared_view sample_client (new_deployment sample))
      × (reconcile_deployment old_run ≡ (ok tt, old_run)))
    ⊎ ((compared_view sample_client old_deployment
          ≢ compared_view sample_client (new_deployment sample))
        × Revises old_run old_deployment)
reconcile_deployment-found_example =
    reconcile_deployment-found sample_client-KeepsKeys old_run old_deployment old_found

abbrev stored_hpa : HorizontalPodAutoscaler
stored_hpa = record (new_hpa sample) { meta = sample_meta "ssg" }

abbrev hpa_run : Run sample_runtime sample_client
hpa_run = run_on (record empty_cluster { hpas = stored_hpa ∷ [] })

hpa_found :
    sample_client.hpas.get sample.meta.namespace sample.meta.name hpa_run.cluster ≡ value stored_hpa
hpa_found = refl

stored_version : ◌≢◌ {A = String} "7" ""
stored_version = ground (arith, eq_iff "7" "")

reconcile_hpa-rewrites_example :
    let hpa = new_hpa sample in
    reconcile_hpa hpa_run
    ≡ on_cluster
        (sample_client.hpas.update
          (record hpa { meta = sample_client.set_controller_reference sample hpa.meta }))
        hpa_run
reconcile_hpa-rewrites_example = reconcile_hpa-rewrites hpa_run stored_hpa hpa_found stored_version

abbrev pub started_pods : List Pod
started_pods = sample_pod "ssg-0" true (some "09:00") ∷ sample_pod "ssg-1" false (some "09:01") ∷ []

gateway_states-reported_example :
    (states : List GatewayState) × (gateway_states "gateway:10.1.00" started_pods false ≡ ok states)
    × Reports "gateway:10.1.00" started_pods false states
gateway_states-reported_example = gateway_states-reported "gateway:10.1.00" started_pods refl

abbrev pending_pods : List Pod
pending_pods = sample_pod "ssg-0" true (some "09:00") ∷ sample_pod "ssg-1" false none ∷ []

gateway_states-panic_example : gateway_states "gateway:10.1.00" pending_pods false ≡ panic
gateway_states-panic_example = gateway_states-panic "gateway:10.1.00" pending_pods false refl

abbrev pub status_run : Run sample_runtime sample_client
status_run =
    run_on (record empty_cluster { deployments = old_deployment ∷ []; pods = started_pods })

update_gateway_status-published_example :
    (status : GatewayStatus) × (update_gateway_status status_run
      ≡ when
          (not (status_equal status sample.status))
          (modify_gateway (λ gw. record gw { status = status }) >> update_status)
          status_run)
    × (status.state ≡ (
        if int_eq
          (found_or zero_deployment (deployment_read status_run)).status.ready_replicas
          (found_or zero_deployment (deployment_read status_run)).status.replicas
        then "ready"
        else "initializing"))
    × (status.commit_id ≡ sample.status.commit_id)
    × (status.management_pod ≡ sample.status.management_pod)
    × ((states : List GatewayState) × (status.gateway ≡ some states)
        × Reports sample.spec.app.image started_pods false states)
update_gateway_status-published_example = update_gateway_status-published status_run refl refl refl
