-- ===== src/Controller/Converge/Held.antt =====
-- `Reconcile` of controller.go leaves the Gateway at the server as it has it in memory.
use layer7_operator.Prelude.{
  String, some, Bool, true, false, ◌<>◌, ◌≡◌, ok, none, Result, value, failure, not_found, Error,
  not, ◌==◌, arith, if◌then◌else◌,
}
use layer7_operator.Prelude.Exec.{Exec, pure, raise, proceed-ok, ◌>>◌}
use layer7_operator.Runtime.{Runtime}
use layer7_operator.Controller.Client.{Client}
use layer7_operator.Controller.Run.{Run, is_not_found, when}
use layer7_operator.Controller.Objects.{
  reconcile_config_map, reconcile_secret, reconcile_service, reconcile_management_service,
  reconcile_ingress, reconcile_hpa, reconcile_deployment,
}
use layer7_operator.Controller.Leader.{tag_management_pod}
use layer7_operator.Controller.Status.{update_gateway_status}
use layer7_operator.Controller.Commit.{reconcile_bundles}
use layer7_operator.Controller.Reconcile.{
  Reply, require_secret, reconcile_config_maps, reconcile_credentials, reconcile_workload,
  reconcile_objects, reconcile_status, reconcile_gateway,
}
use layer7_operator.Controller.Repeat.{KeepsKeys}
use layer7_operator.Controller.Converge.Places.{IsCluster}
use layer7_operator.Controller.Converge.Instances.{
  secret_pass, service_pass, management_service_pass, ingress_pass, deployment_pass,
}
use layer7_operator.Controller.Converge.Actions.{
  service-run_pass, management_service-run_pass, ingress-run_pass, deployment-run_pass,
}
use layer7_operator.Controller.Converge.Credentials.{reconcile_secret-run_pass}
use layer7_operator.Controller.Converge.Parts.{ended, has_management, has_ingress}
use layer7_operator.Controller.Converge.Stored.{
  StoresGateways, IsStored, Stores, pure-Stores, >>-Stores, when-Stores, run_pass-Stores,
  reconcile_config_map-Stores, reconcile_hpa-Stores, tag_management_pod-Stores,
  update_gateway_status-Stores, reconcile_bundles-Stores,
}
use layer7_operator.Controller.Converge.Whole.{ended_well}

module _ {R : Runtime} {C : Client} where
  found-Stores :
      {A : Type 0} (got : Result A) (run : Run R C)
      → Stores (elim (is_not_found got) [ none ↦ pure tt | some e ↦ raise e ]) run
  found-Stores (value x) run run' h = pure-Stores run run' h
  found-Stores (failure (not_found x)) run run' h = ground arith
  found-Stores (failure (Error.other x)) run run' h = pure-Stores run run' h

  require_secret-Stores : (name : String) (run : Run R C) → Stores (require_secret name) run
  unfolding require_secret
  require_secret-Stores name run =
      found-Stores (C.secrets.get run.gateway.meta.namespace name run.cluster) run

  if-Stores :
      (b : Bool) (m m' : Exec (Run R C) (Unit {0})) (run : Run R C)
      → Stores m run
      → Stores m' run
      → Stores (if b then m else m') run
  if-Stores true m m' run h h' = h
  if-Stores false m m' run h h' = h'

  module _ (server : StoresGateways C) (keys : KeepsKeys C) (cluster : IsCluster C) where
    reconcile_config_maps-Stores : (run : Run R C) → Stores reconcile_config_maps run
    unfolding reconcile_config_maps
    reconcile_config_maps-Stores run =
        let gw = run.gateway in
        let own = reconcile_config_map {R = R} {C = C} gw.meta.name in
        let system = reconcile_config_map {R = R} {C = C} (gw.meta.name <> "-system") in
        let cwp = reconcile_config_map {R = R} {C = C} (gw.meta.name <> "-cwp-bundle") in
        let ports = reconcile_config_map {R = R} {C = C} (gw.meta.name <> "-listen-port-bundle") in
        let third = when gw.spec.app.cluster_properties.enabled cwp in
        let fourth = when gw.spec.app.listen_ports.harden ports in
        >>-Stores own (system >> (third >> fourth)) run
          (reconcile_config_map-Stores server gw.meta.name run)
          λ s.
            >>-Stores system (third >> fourth) s
              (reconcile_config_map-Stores server (gw.meta.name <> "-system") s)
              λ t.
                >>-Stores third fourth t
                  (when-Stores gw.spec.app.cluster_properties.enabled cwp t
                    (reconcile_config_map-Stores server (gw.meta.name <> "-cwp-bundle") t))
                  λ u.
                    when-Stores gw.spec.app.listen_ports.harden ports u
                      (reconcile_config_map-Stores server (gw.meta.name <> "-listen-port-bundle") u)

    reconcile_credentials-Stores : (run : Run R C) → Stores reconcile_credentials run
    unfolding reconcile_credentials
    reconcile_credentials-Stores run =
        let name = run.gateway.spec.app.management.secret_name in
        if-Stores (not (name == "")) (require_secret name) reconcile_secret run
          (require_secret-Stores name run)
          (run_pass-Stores server (secret_pass R C keys) (reconcile_secret-run_pass keys cluster)
            run)

    reconcile_workload-Stores : (run : Run R C) → Stores reconcile_workload run
    unfolding reconcile_workload
    reconcile_workload-Stores run =
        let both : Exec (Run R C) (Unit {0}) = reconcile_management_service >> tag_management_pod in
        let management = when (has_management run.gateway) both in
        let ingress : Exec (Run R C) (Unit {0}) =
          when (has_ingress run.gateway) reconcile_ingress in
        let hpa : Exec (Run R C) (Unit {0}) =
          when run.gateway.spec.app.autoscaling.enabled reconcile_hpa in
        >>-Stores reconcile_service (management >> (ingress >> (hpa >> reconcile_deployment))) run
          (run_pass-Stores server (service_pass R C keys) (service-run_pass keys) run)
          λ s.
            >>-Stores management (ingress >> (hpa >> reconcile_deployment)) s
              (when-Stores (has_management run.gateway) both s (
                >>-Stores reconcile_management_service tag_management_pod s
                  (run_pass-Stores server (management_service_pass R C keys)
                    (management_service-run_pass keys) s)
                  (tag_management_pod-Stores server)))
              λ t.
                >>-Stores ingress (hpa >> reconcile_deployment) t
                  (when-Stores (has_ingress run.gateway) reconcile_ingress t
                    (run_pass-Stores server (ingress_pass R C keys) (ingress-run_pass keys) t))
                  λ u.
                    >>-Stores hpa reconcile_deployment u
                      (when-Stores run.gateway.spec.app.autoscaling.enabled reconcile_hpa u
                        (reconcile_hpa-Stores server u))
                      (run_pass-Stores server (deployment_pass R C keys) (deployment-run_pass keys))

    reconcile_objects-Stores : (run : Run R C) → Stores reconcile_objects run
    unfolding reconcile_objects
    reconcile_objects-Stores run =
        let license = run.gateway.spec.license.secret_name in
        >>-Stores (require_secret license)
          (reconcile_config_maps >> (reconcile_credentials >> reconcile_workload)) run
          (require_secret-Stores license run)
          λ s.
            >>-Stores reconcile_config_maps (reconcile_credentials >> reconcile_workload) s
              (reconcile_config_maps-Stores s)
              λ t.
                >>-Stores reconcile_credentials reconcile_workload t
                  (reconcile_credentials-Stores t) reconcile_workload-Stores

    reconcile_status-Stores : (run : Run R C) → Stores reconcile_status run
    unfolding reconcile_status
    reconcile_status-Stores run run' h stored =
        let s : Run R C = (update_gateway_status run).1 in
        let (_, e, rest) = proceed-ok (update_gateway_status run).0 s run' _ h in
        when-Stores s.gateway.spec.app.repository.enabled reconcile_bundles s
          (reconcile_bundles-Stores server s) run' rest
          (update_gateway_status-Stores server run s (ended update_gateway_status run e) stored)

    -- A reconciliation that reports no error, of the Gateway that the server holds, leaves the one in memory
    -- there.
    pub reconcile_gateway-IsStored :
        (run run' : Run R C) (reply : Reply)
        → reply.error ≡ none
        → reconcile_gateway run ≡ (ok reply, run')
        → IsStored run
        → IsStored run'
    reconcile_gateway-IsStored run run' reply no_error h stored =
        let (s, objects, statuses) = ended_well run run' reply no_error h in
        reconcile_status-Stores s run' statuses (reconcile_objects-Stores run s objects stored)
