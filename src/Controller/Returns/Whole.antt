-- ===== src/Controller/Returns/Whole.antt =====
-- `Reconcile` of controller.go answers every request.
use mathlib.Core.Bool.{false≢true}
use layer7_operator.Prelude.{
  String, true, ◌≡◌, refl, ◌<>◌, ◌==◌, not, Outcome, ok, err, panic, value, failure, not_found,
  Error, Result, none, some,
}
use layer7_operator.Prelude.Exec.{◌>>◌}
use layer7_operator.Api.Gateway.{Gateway}
use layer7_operator.Runtime.{Runtime}
use layer7_operator.Controller.Client.{Client}
use layer7_operator.Controller.Run.{Run, when}
use layer7_operator.Controller.Objects.{
  reconcile_config_map, reconcile_secret, reconcile_service, reconcile_management_service,
  reconcile_ingress, reconcile_hpa,
}
use layer7_operator.Controller.Leader.{tag_management_pod}
use layer7_operator.Controller.Status.{update_gateway_status}
use layer7_operator.Controller.Commit.{reconcile_bundles}
use layer7_operator.Controller.Reconcile.{
  Reply, require_secret, reconcile_config_maps, reconcile_credentials, reconcile_workload,
  reconcile_objects, reconcile_status, reconcile_gateway, reconcile, answer, after_objects,
}
use layer7_operator.Controller.Returns.{
  returns, Returns, IsTame, call-returns, when-Returns, if-Returns,
}
use layer7_operator.Controller.Returns.Objects.{
  reconcile_config_map-Returns, reconcile_secret-Returns, reconcile_service-Returns,
  reconcile_management_service-Returns, reconcile_ingress-Returns, reconcile_hpa-Returns,
  reconcile_deployment-Returns,
}
use layer7_operator.Controller.Returns.Statuses.{
  tag_management_pod-Returns, require_secret-Returns, update_gateway_status-Returns,
  reconcile_bundles-Returns,
}

module _ {R : Runtime} {C : Client} (tame : IsTame R C) where
  reconcile_config_maps-Returns : Returns {S = Run R C} reconcile_config_maps
  unfolding reconcile_config_maps
  reconcile_config_maps-Returns run =
      let gw = run.gateway in
      let map = reconcile_config_map-Returns tame in
      let properties = gw.meta.name <> "-cwp-bundle" in
      let ports = gw.meta.name <> "-listen-port-bundle" in
      call-returns (reconcile_config_map gw.meta.name) _ run (map gw.meta.name) λ _ s.
        call-returns (reconcile_config_map (gw.meta.name <> "-system")) _ s
          (map (gw.meta.name <> "-system"))
          λ _ t.
            call-returns
              (when gw.spec.app.cluster_properties.enabled (reconcile_config_map properties)) _ t
              (when-Returns gw.spec.app.cluster_properties.enabled (reconcile_config_map properties)
                (map properties))
              λ _.
                when-Returns gw.spec.app.listen_ports.harden (reconcile_config_map ports)
                  (map ports)

  reconcile_credentials-Returns : Returns {S = Run R C} reconcile_credentials
  unfolding reconcile_credentials
  reconcile_credentials-Returns run =
      let name = run.gateway.spec.app.management.secret_name in
      if-Returns (not (name == "")) (require_secret name) reconcile_secret
        (require_secret-Returns tame name) (reconcile_secret-Returns tame) run

  reconcile_workload-Returns : Returns {S = Run R C} reconcile_workload
  unfolding reconcile_workload
  reconcile_workload-Returns run =
      let app = run.gateway.spec.app in
      call-returns reconcile_service _ run (reconcile_service-Returns tame) λ _ s.
        call-returns
          (when app.management.service.enabled (reconcile_management_service >> tag_management_pod))
          _ s
          (when-Returns app.management.service.enabled
            (reconcile_management_service >> tag_management_pod)
            λ t.
              call-returns reconcile_management_service _ t
                (reconcile_management_service-Returns tame) (λ _. tag_management_pod-Returns tame))
          λ _ t.
            call-returns (when app.ingress.enabled reconcile_ingress) _ t
              (when-Returns app.ingress.enabled reconcile_ingress (reconcile_ingress-Returns tame))
              λ _ u.
                call-returns (when app.autoscaling.enabled reconcile_hpa) _ u
                  (when-Returns app.autoscaling.enabled reconcile_hpa (reconcile_hpa-Returns tame))
                  (λ _. reconcile_deployment-Returns tame)

  reconcile_objects-Returns : Returns {S = Run R C} reconcile_objects
  unfolding reconcile_objects
  reconcile_objects-Returns run =
      let license = run.gateway.spec.license.secret_name in
      call-returns (require_secret license) _ run (require_secret-Returns tame license) λ _ s.
        call-returns reconcile_config_maps _ s reconcile_config_maps-Returns λ _ t.
          call-returns reconcile_credentials _ t reconcile_credentials-Returns
            (λ _. reconcile_workload-Returns)

  reconcile_status-Returns : Returns {S = Run R C} reconcile_status
  unfolding reconcile_status
  reconcile_status-Returns run =
      call-returns update_gateway_status _ run (update_gateway_status-Returns tame) λ _ s.
        when-Returns s.gateway.spec.app.repository.enabled reconcile_bundles
          (reconcile_bundles-Returns tame) s

  abbrev Replies : Outcome Reply → Type 0
  Replies r = (reply : Reply) × (r ≡ ok reply)

  reconcile_gateway-Replies : (run : Run R C) → Replies (reconcile_gateway run).0
  unfolding reconcile_gateway
  reconcile_gateway-Replies run =
      by_objects (reconcile_objects run).0 (reconcile_objects run).1 (reconcile_objects-Returns run)
    where
      by_status :
          (r : Outcome (Unit {0})) (s : Run R C)
          → returns r ≡ true
          → Replies (answer 30 10 (r, s)).0
      by_status (ok u) s h = (_, refl)
      by_status (err e) s h = (_, refl)
      by_status panic s h = absurd (false≢true h)

      by_objects :
          (r : Outcome (Unit {0})) (s : Run R C)
          → returns r ≡ true
          → Replies (after_objects (r, s)).0
      by_objects (ok u) s h =
          by_status (reconcile_status s).0 (reconcile_status s).1 (reconcile_status-Returns s)
      by_objects (err e) s h = (_, refl)
      by_objects panic s h = absurd (false≢true h)

  -- If the calls of libraries do not panic, all pods that are listed have started and every repository
  -- that is cloned has a head: every request is answered with a reply, for every Gateway, whatever
  -- the cluster holds and whichever calls of the server fail.
  pub reconcile-replies :
      (namespace name : String) (run : Run R C)
      → (reply : Reply) × ((reconcile namespace name run).0 ≡ ok reply)
  unfolding reconcile
  reconcile-replies namespace name run = by_read (C.get_gateway namespace name run.cluster) refl
    where
      by_read :
          (got : Result Gateway)
          → C.get_gateway namespace name run.cluster ≡ got
          → Replies (reconcile namespace name run).0
      by_read (value gw) e =
          rw (e, reconcile) (reconcile_gateway-Replies (record run { gateway = gw }))
      by_read (failure (not_found x)) e =
          (record { requeue_after = 0; error = none }, rw (e, reconcile) refl)
      by_read (failure (Error.other x)) e =
          (record { requeue_after = 0; error = some (Error.other x) }, rw (e, reconcile) refl)
