-- ===== src/Tests/Full.antt =====
-- A reconciliation of a Gateway with most features on, at a cluster in memory.
use mathlib.Core.Bool.{false≢true}
use layer7_operator.Tests.Safe.{sample_runtime-IsSafe}
use layer7_operator.Prelude.{sym, [], ◌∷◌, ◌≡◌, refl, ok, none, arith, eq_iff}
use layer7_operator.Controller.Run.{Run, update_status}
use layer7_operator.Controller.Objects.{
  reconcile_config_map, reconcile_ingress, reconcile_deployment, reconcile_service,
  reconcile_management_service, reconcile_hpa, reconcile_secret,
}
use layer7_operator.Controller.Leader.{tag_management_pod, tag_first, has_leader}
use layer7_operator.Controller.Reconcile.{
  reconcile_credentials, reconcile_objects, reconcile_workload, reconcile_config_maps,
  require_secret, reconcile_status, reconcile_gateway, reconcile,
}
use layer7_operator.Controller.Status.{update_gateway_status, gateway_states, deployment_status}
use layer7_operator.Controller.Commit.{reconcile_bundles, get_latest_commit, head_commit}
use layer7_operator.Controller.Converge.Objects.{IsLicensed}
use layer7_operator.Controller.Converge.Facts.{core}
use layer7_operator.Controller.Converge.Status.{IsReported}
use layer7_operator.Controller.Converge.Reached.{reconcile-converges}
use layer7_operator.Controller.Converge.Stored.{IsHeld}
use layer7_operator.Controller.Converge.Resumed.{reconcile-IsDesired}
use layer7_operator.Tests.Held.{sample_client-StoresGateways}
use layer7_operator.Controller.Converge.Desired.{IsDesired}
use layer7_operator.Build.Config.{new_config_map, config_entries, cwp_entries, listen_port_entries}
use layer7_operator.Build.Deployment.{new_deployment}
use layer7_operator.Build.Service.{new_service}
use layer7_operator.Api.Gateway.{status_equal}
use layer7_operator.Tests.Sample.{sample, sample_runtime}
use layer7_operator.Bundle.Cwp.{build_cwp_bundle, cwp_loop}
use layer7_operator.Bundle.Token.{rand_token}
use layer7_operator.Bundle.ListenPort.{build_listen_port_bundle, draw_id}
use layer7_operator.Tests.Cluster.{sample_client, sample_client-KeepsKeys}
use layer7_operator.Build.Config.{collect_properties}
use layer7_operator.Tests.Settled.{first_run, sample_client-IsCluster, sample_client-IsObedient}

-- A Gateway with bundles that have drawn ids, and with autoscaling.
abbrev full_run : Run sample_runtime sample_client
full_run = record first_run { cluster = record first_run.cluster { gateways = sample ∷ [] } }

abbrev full_ended_run : Run sample_runtime sample_client
full_ended_run = (reconcile "apim" "ssg" full_run).1

full_ended :
    reconcile "apim" "ssg" full_run
    ≡ (ok (record { requeue_after = 30; error = none }), full_ended_run)
unfolding reconcile reconcile_gateway reconcile_status update_gateway_status reconcile_bundles
    get_latest_commit head_commit update_status reconcile_objects require_secret
    reconcile_config_maps reconcile_config_map reconcile_credentials reconcile_secret
    reconcile_workload reconcile_service reconcile_management_service tag_management_pod tag_first
    has_leader reconcile_ingress reconcile_hpa reconcile_deployment new_config_map config_entries
    new_service new_deployment gateway_states status_equal deployment_status cwp_entries
    listen_port_entries build_cwp_bundle cwp_loop build_listen_port_bundle draw_id rand_token
    collect_properties
full_ended = refl

full-IsLicensed : IsLicensed sample
full-IsLicensed = ground (arith, eq_iff "ssg" "license")

reconcile-IsDesired_example :
    IsHeld sample_client full_ended_run.gateway full_ended_run.cluster
    × IsReported full_ended_run
    × IsDesired sample_runtime sample_client full_ended_run.gateway full_ended_run.cluster
    × (core full_ended_run.gateway ≡ core sample)
reconcile-IsDesired_example =
    reconcile-IsDesired sample_client-KeepsKeys sample_client-IsCluster sample_client-StoresGateways
      "apim" "ssg" sample full_run full_ended_run (record { requeue_after = 30; error = none }) refl
      full-IsLicensed refl full_ended

reconcile-converges_example :
    (run' : Run sample_runtime sample_client) × (reconcile "apim" "ssg" full_run
      ≡ (ok (record { requeue_after = 30; error = none }), run'))
    × IsHeld sample_client run'.gateway run'.cluster
    × IsReported run'
    × IsDesired sample_runtime sample_client run'.gateway run'.cluster
    × (core run'.gateway ≡ core sample)
reconcile-converges_example =
    reconcile-converges sample_client-KeepsKeys sample_client-IsCluster sample_client-IsObedient
      sample_client-StoresGateways "apim" "ssg" sample full_run refl full-IsLicensed
      (λ e. sample_runtime-IsSafe, λ e. sample_runtime-IsSafe)
      (record { license = refl; credentials = λ e. absurd (false≢true (sym e)) })
