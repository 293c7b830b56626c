-- ===== src/Controller/Objects.antt =====
-- The functions of controller.go that create or update one object of the Gateway.
use layer7_operator.Prelude.{
  String, ◌<>◌, Bool, Result, Option, none, some, not, ◌||◌, ◌==◌, if◌then◌else◌,
}
use layer7_operator.Prelude.Slice.{map_equal}
use layer7_operator.Prelude.Exec.{Exec, pure, ◌>>=◌}
use layer7_operator.Kube.Meta.{CoreConfigMap, CoreSecret}
use layer7_operator.Kube.Pods.{Deployment}
use layer7_operator.Kube.Net.{CoreService, NetIngress, HorizontalPodAutoscaler}
use layer7_operator.Api.Gateway.{Gateway}
use layer7_operator.Runtime.{Runtime}
use layer7_operator.Build.Config.{new_config_map}
use layer7_operator.Build.Secret.{new_secret}
use layer7_operator.Build.Service.{new_service, new_management_service}
use layer7_operator.Build.Ingress.{new_ingress}
use layer7_operator.Build.Hpa.{new_hpa}
use layer7_operator.Build.Deployment.{new_deployment}
use layer7_operator.Controller.Client.{Api, Client}
use layer7_operator.Controller.Equality.{ingress_spec_equal, hpa_equal}
use layer7_operator.Controller.Zero.{
  zero_config_map, zero_secret, zero_service, zero_ingress, zero_hpa, zero_deployment,
}
use layer7_operator.Controller.Run.{Run, is_not_found, found_or, on_cluster, on_entropy, read, ask}

-- Under autoscaling the replicas are those of the current Deployment.
unfoldable pub keep_replicas : Gateway → Deployment → Deployment → Deployment
keep_replicas gw curr dep =
    if gw.spec.app.autoscaling.enabled then record dep { replicas = curr.replicas } else dep

module _ (C : Client) where
  -- Whether the containers or the service account differ.
  unfoldable pub needs_update : Deployment → Deployment → Bool
  needs_update curr dep =
      not (
        C.marshal_containers curr.template.spec.containers
        == C.marshal_containers dep.template.spec.containers)
      || not (curr.template.spec.service_account_name == dep.template.spec.service_account_name)

  unfoldable pub own_deployment : Gateway → Deployment → Deployment
  own_deployment gw dep = record dep { meta = C.set_controller_reference gw dep.meta }

module _ {R : Runtime} {C : Client} where
  -- `Create` or `Update`, for `none` neither.
  abbrev pub write_if :
      {A : Type 0} → (A → Exec C.State (Unit {0})) → Option A → Exec (Run R C) (Unit {0})
  write_if write none = pure tt
  write_if write (some object) = on_cluster (write object)

  -- The common course: an object that is not found is created; otherwise `plan` says, from the
  -- object that `Get` filled in (zero after another error), whether to update and with what.
  abbrev pub create_or_update :
      {A : Type 0} → Api C.State A → Result A → A → A → (A → Option A) → Exec (Run R C) (Unit {0})
  create_or_update api got zero_value fresh plan = elim (is_not_found got) [
    | some e ↦ on_cluster (api.create fresh)
    | none ↦ write_if api.update (plan (found_or zero_value got))
  ]

  unfoldable pub reconcile_config_map : String → Exec (Run R C) (Unit {0})
  reconcile_config_map name = do
    gw ← ask (λ gw. gw)
    got ← read (C.config_maps.get gw.meta.namespace name)
    cm ← on_entropy (new_config_map R gw name)
    let mine : CoreConfigMap = record cm { meta = C.set_controller_reference gw cm.meta }
    create_or_update C.config_maps got zero_config_map mine
        (λ curr. if not (map_equal curr.contents cm.contents) then some mine else none)

  unfoldable pub reconcile_secret : Exec (Run R C) (Unit {0})
  reconcile_secret = do
    gw ← ask (λ gw. gw)
    let secret = new_secret gw
    let mine : CoreSecret = record secret { meta = C.set_controller_reference gw secret.meta }
    got ← read (C.secrets.get gw.meta.namespace gw.meta.name)
    create_or_update C.secrets got zero_secret mine
        (λ curr. if not (map_equal curr.contents secret.contents) then some mine else none)

  -- A Service is created, and never updated.
  unfoldable pub reconcile_service : Exec (Run R C) (Unit {0})
  reconcile_service = do
    gw ← ask (λ gw. gw)
    let svc = new_service gw
    let mine : CoreService = record svc { meta = C.set_controller_reference gw svc.meta }
    got ← read (C.services.get gw.meta.namespace gw.meta.name)
    create_or_update C.services got zero_service mine (λ curr. none)

  unfoldable pub reconcile_management_service : Exec (Run R C) (Unit {0})
  reconcile_management_service = do
    gw ← ask (λ gw. gw)
    let svc = new_management_service gw
    let mine : CoreService = record svc { meta = C.set_controller_reference gw svc.meta }
    got ← read (C.services.get gw.meta.namespace (gw.meta.name <> "-management-service"))
    create_or_update C.services got zero_service mine (λ curr. none)

  unfoldable pub reconcile_ingress : Exec (Run R C) (Unit {0})
  reconcile_ingress = do
    gw ← ask (λ gw. gw)
    let ingress = new_ingress gw
    let mine : NetIngress = record ingress { meta = C.set_controller_reference gw ingress.meta }
    got ← read (C.ingresses.get gw.meta.namespace gw.meta.name)
    create_or_update C.ingresses got zero_ingress mine
        (λ curr. if not (ingress_spec_equal curr.spec ingress.spec) then some mine else none)

  -- The comparison is of the whole objects, before the owner is set.
  unfoldable pub reconcile_hpa : Exec (Run R C) (Unit {0})
  reconcile_hpa = do
    gw ← ask (λ gw. gw)
    got ← read (C.hpas.get gw.meta.namespace gw.meta.name)
    let hpa = new_hpa gw
    let mine : HorizontalPodAutoscaler = record hpa {
      meta = C.set_controller_reference gw hpa.meta;
    }
    create_or_update C.hpas got zero_hpa mine
        (λ curr. if not (hpa_equal curr hpa) then some mine else none)

  unfoldable pub reconcile_deployment : Exec (Run R C) (Unit {0})
  unfolding own_deployment keep_replicas needs_update
  reconcile_deployment = do
    gw ← ask (λ gw. gw)
    let dep = new_deployment gw
    got ← read (C.deployments.get gw.meta.namespace gw.meta.name)
    create_or_update C.deployments got zero_deployment (own_deployment C gw dep) (λ curr.
        if needs_update C curr (keep_replicas gw curr dep)
        then some (own_deployment C gw (keep_replicas gw curr dep))
        else none)
