-- ===== src/Controller/Converge/Actions.antt =====
-- The functions of controller.go over one object, as steps.
use layer7_operator.Prelude.{◌<>◌, ◌≡◌, refl, ap, []}
use layer7_operator.Prelude.Dict.{insert}
use layer7_operator.Api.Gateway.{Gateway}
use layer7_operator.Runtime.{Runtime}
use layer7_operator.Build.Config.{gateway_entries}
use layer7_operator.Build.Config.Entries.{config_entries-gateway, config_entries-system}
use layer7_operator.Controller.Client.{Client}
use layer7_operator.Controller.Run.{Run}
use layer7_operator.Controller.Objects.{
  reconcile_config_map, reconcile_service, reconcile_management_service, reconcile_ingress,
  reconcile_deployment,
}
use layer7_operator.Controller.Reconcile.{require_secret}
use layer7_operator.Controller.Repeat.{KeepsKeys}
use layer7_operator.Controller.Repeat.ConfigMap.{reconcile_config_map-map_pass}
use layer7_operator.Controller.Converge.Places.{IsCluster}
use layer7_operator.Controller.Converge.Facts.{core}
use layer7_operator.Controller.Converge.Passes.{run_pass}
use layer7_operator.Controller.Converge.Instances.{
  gateway_map_pass, system_map_pass, service_pass, management_service_pass, ingress_pass,
  deployment_pass,
}
use layer7_operator.Controller.Converge.Steps.{Step, pass_step, step_of, require_step}

pub license-core :
    (gw gw' : Gateway)
    → core gw' ≡ core gw
    → gw'.spec.license.secret_name ≡ gw.spec.license.secret_name
license-core gw gw' e = ap (λ g. g.spec.license.secret_name) e

module _ {R : Runtime} {C : Client} (keys : KeepsKeys C) where
  pub gateway_map-run_pass :
      (run : Run R C)
      → reconcile_config_map run.gateway.meta.name run ≡ run_pass (gateway_map_pass R C keys) run
  gateway_map-run_pass run =
      reconcile_config_map-map_pass R C run.gateway.meta.name (gateway_entries R) run
        (config_entries-gateway R run.gateway)

  pub system_map-run_pass :
      (run : Run R C)
      → reconcile_config_map (run.gateway.meta.name <> "-system") run
        ≡ run_pass (system_map_pass R C keys) run
  system_map-run_pass run =
      reconcile_config_map-map_pass R C (run.gateway.meta.name <> "-system")
        (λ gw. insert "system.properties" gw.spec.app.system.properties []) run
        (config_entries-system R run.gateway)

  pub service-run_pass :
      (run : Run R C) → reconcile_service run ≡ run_pass (service_pass R C keys) run
  unfolding reconcile_service
  service-run_pass run = refl

  pub management_service-run_pass :
      (run : Run R C)
      → reconcile_management_service run ≡ run_pass (management_service_pass R C keys) run
  unfolding reconcile_management_service
  management_service-run_pass run = refl

  pub ingress-run_pass :
      (run : Run R C) → reconcile_ingress run ≡ run_pass (ingress_pass R C keys) run
  unfolding reconcile_ingress
  ingress-run_pass run = refl

  pub deployment-run_pass :
      (run : Run R C) → reconcile_deployment run ≡ run_pass (deployment_pass R C keys) run
  unfolding reconcile_deployment
  deployment-run_pass run = refl

  module _ (cluster : IsCluster C) where
    abbrev pub license_step :
        Step {R = R} {C = C} (λ run. require_secret run.gateway.spec.license.secret_name run)
    license_step = require_step (λ gw. gw.spec.license.secret_name) license-core

    abbrev pub gateway_map_step :
        Step {R = R} {C = C} (λ run. reconcile_config_map run.gateway.meta.name run)
    gateway_map_step = step_of gateway_map-run_pass (pass_step cluster (gateway_map_pass R C keys))

    abbrev pub system_map_step :
        Step {R = R} {C = C} (λ run. reconcile_config_map (run.gateway.meta.name <> "-system") run)
    system_map_step = step_of system_map-run_pass (pass_step cluster (system_map_pass R C keys))

    abbrev pub service_step : Step {R = R} {C = C} reconcile_service
    service_step = step_of service-run_pass (pass_step cluster (service_pass R C keys))

    abbrev pub management_service_step : Step {R = R} {C = C} reconcile_management_service
    management_service_step =
        step_of management_service-run_pass (pass_step cluster (management_service_pass R C keys))

    abbrev pub ingress_step : Step {R = R} {C = C} reconcile_ingress
    ingress_step = step_of ingress-run_pass (pass_step cluster (ingress_pass R C keys))

    abbrev pub deployment_step : Step {R = R} {C = C} reconcile_deployment
    deployment_step = step_of deployment-run_pass (pass_step cluster (deployment_pass R C keys))
