-- ===== src/Controller/Returns/Objects.antt =====
-- The functions of controller.go over one object return.
use layer7_operator.Prelude.{
  String, true, ◌≡◌, refl, Option, none, some, Result, value, failure, not_found, Error, not,
  if◌then◌else◌, ◌<>◌,
}
use layer7_operator.Prelude.Slice.{map_equal}
use layer7_operator.Kube.Meta.{CoreConfigMap, CoreSecret}
use layer7_operator.Runtime.{Runtime}
use layer7_operator.Build.Config.{new_config_map}
use layer7_operator.Build.Secret.{new_secret}
use layer7_operator.Build.Service.{new_service, new_management_service}
use layer7_operator.Build.Ingress.{new_ingress}
use layer7_operator.Build.Hpa.{new_hpa}
use layer7_operator.Build.Deployment.{new_deployment}
use layer7_operator.Kube.Net.{NetIngress, HorizontalPodAutoscaler}
use layer7_operator.Controller.Equality.{ingress_spec_equal, hpa_equal}
use layer7_operator.Controller.Client.{Client}
use layer7_operator.Controller.Zero.{
  zero_config_map, zero_secret, zero_service, zero_ingress, zero_hpa, zero_deployment,
}
use layer7_operator.Controller.Run.{Run}
use layer7_operator.Controller.Objects.{
  keep_replicas, needs_update, own_deployment, create_or_update, write_if, reconcile_config_map,
  reconcile_secret, reconcile_service, reconcile_management_service, reconcile_ingress,
  reconcile_hpa, reconcile_deployment,
}
use layer7_operator.Controller.Converge.Places.{
  Kind, config_maps, secrets, services, ingresses, hpas, deployments, Object, api_at,
}
use layer7_operator.Controller.Returns.{returns, Returns, IsTame, proceed-returns}
use layer7_operator.Controller.Returns.Bundles.{new_config_map-Returns}

module _ {R : Runtime} {C : Client} (tame : IsTame R C) where
  create_or_update-Returns :
      (k : Kind) (got : Result (Object k)) (zero_value fresh : Object k)
      (plan : Object k → Option (Object k))
      → Returns {S = Run R C} (create_or_update (api_at C k) got zero_value fresh plan)
  create_or_update-Returns k got zero_value fresh plan run = by_read got
    where
      by_plan :
          (x : Option (Object k))
          → returns (write_if {R = R} {C = C} (api_at C k).update x run).0 ≡ true
      by_plan none = refl
      by_plan (some x) = tame.update k x run.cluster

      by_read :
          (got : Result (Object k))
          → returns (create_or_update {R = R} {C = C} (api_at C k) got zero_value fresh plan run).0
            ≡ true
      by_read (value x) = by_plan (plan x)
      by_read (failure (not_found x)) = tame.create k fresh run.cluster
      by_read (failure (Error.other x)) = by_plan (plan zero_value)

  pub reconcile_config_map-Returns :
      (name : String) → Returns {S = Run R C} (reconcile_config_map name)
  unfolding reconcile_config_map
  reconcile_config_map-Returns name run =
      let gw = run.gateway in
      let built = new_config_map R gw name run.entropy in
      proceed-returns built.0 (record run { entropy = built.1 }) _
        (new_config_map-Returns tame.safe gw name run.entropy)
        λ cm.
          let mine : CoreConfigMap = record cm { meta = C.set_controller_reference gw cm.meta } in
          create_or_update-Returns config_maps
            (C.config_maps.get gw.meta.namespace name run.cluster) zero_config_map mine
            (λ curr. if not (map_equal curr.contents cm.contents) then some mine else none)

  pub reconcile_secret-Returns : Returns {S = Run R C} reconcile_secret
  unfolding reconcile_secret
  reconcile_secret-Returns run =
      let gw = run.gateway in
      let secret = new_secret gw in
      let mine : CoreSecret = record secret { meta = C.set_controller_reference gw secret.meta } in
      create_or_update-Returns secrets (C.secrets.get gw.meta.namespace gw.meta.name run.cluster)
        zero_secret mine
        (λ curr. if not (map_equal curr.contents secret.contents) then some mine else none) run

  pub reconcile_service-Returns : Returns {S = Run R C} reconcile_service
  unfolding reconcile_service
  reconcile_service-Returns run =
      let gw = run.gateway in
      let svc = new_service gw in
      create_or_update-Returns services (C.services.get gw.meta.namespace gw.meta.name run.cluster)
        zero_service (record svc { meta = C.set_controller_reference gw svc.meta }) (λ curr. none)
        run

  pub reconcile_management_service-Returns : Returns {S = Run R C} reconcile_management_service
  unfolding reconcile_management_service
  reconcile_management_service-Returns run =
      let gw = run.gateway in
      let svc = new_management_service gw in
      create_or_update-Returns services
        (C.services.get gw.meta.namespace (gw.meta.name <> "-management-service") run.cluster)
        zero_service (record svc { meta = C.set_controller_reference gw svc.meta }) (λ curr. none)
        run

  pub reconcile_ingress-Returns : Returns {S = Run R C} reconcile_ingress
  unfolding reconcile_ingress
  reconcile_ingress-Returns run =
      let gw = run.gateway in
      let ingress = new_ingress gw in
      let mine : NetIngress = record ingress {
        meta = C.set_controller_reference gw ingress.meta;
      } in
      create_or_update-Returns ingresses
        (C.ingresses.get gw.meta.namespace gw.meta.name run.cluster) zero_ingress mine
        (λ curr. if not (ingress_spec_equal curr.spec ingress.spec) then some mine else none) run

  pub reconcile_hpa-Returns : Returns {S = Run R C} reconcile_hpa
  unfolding reconcile_hpa
  reconcile_hpa-Returns run =
      let gw = run.gateway in
      let hpa = new_hpa gw in
      let mine : HorizontalPodAutoscaler = record hpa {
        meta = C.set_controller_reference gw hpa.meta;
      } in
      create_or_update-Returns hpas (C.hpas.get gw.meta.namespace gw.meta.name run.cluster) zero_hpa
        mine (λ curr. if not (hpa_equal curr hpa) then some mine else none) run

  pub reconcile_deployment-Returns : Returns {S = Run R C} reconcile_deployment
  unfolding reconcile_deployment
  reconcile_deployment-Returns run =
      let gw = run.gateway in
      let dep = new_deployment gw in
      create_or_update-Returns deployments
        (C.deployments.get gw.meta.namespace gw.meta.name run.cluster) zero_deployment
        (own_deployment C gw dep)
        (λ curr.
          if needs_update C curr (keep_replicas gw curr dep)
          then some (own_deployment C gw (keep_replicas gw curr dep))
          else none)
        run
