-- ===== src/Controller/Converge/Cores.antt =====
-- The objects that the builders make have their keys, and depend on the core of the Gateway alone in what
-- the controller compares.
use layer7_operator.Prelude.{String, Bool, ◌<>◌, ◌≡◌, refl, ap, sym, ◌∙◌, not, ◌==◌, ◌||◌}
use layer7_operator.Kube.Meta.{ObjectMeta}
use layer7_operator.Kube.Pods.{Deployment}
use layer7_operator.Api.Gateway.{Gateway}
use layer7_operator.Runtime.{Runtime}
use layer7_operator.Build.Config.{gateway_entries, set_jvm_heap_size}
use layer7_operator.Build.Secret.{new_secret}
use layer7_operator.Build.Service.{new_service, new_management_service}
use layer7_operator.Build.Ingress.{new_ingress}
use layer7_operator.Build.Deployment.{new_deployment}
use layer7_operator.Build.Deployment.Containers.{
  containers, gateway_container, container_ports, secret_name,
}
use layer7_operator.Build.Deployment.Repository.{uses_repository_init, repository_init}
use layer7_operator.Build.Deployment.Storage.{storage}
use layer7_operator.Controller.Client.{Client}
use layer7_operator.Controller.Objects.{needs_update}
use layer7_operator.Controller.Repeat.Deployment.{compared_view, differs, template-keep_replicas}
use layer7_operator.Controller.Converge.Facts.{core}

abbrev pub StandsAt : ObjectMeta → Gateway → String → Type 0
StandsAt m gw name = (m.namespace ≡ gw.meta.namespace) × (m.name ≡ name)

module _ (gw : Gateway) where
  pub new_secret-StandsAt : StandsAt (new_secret gw).meta gw gw.meta.name
  unfolding new_secret
  new_secret-StandsAt = (refl, refl)

  pub new_service-StandsAt : StandsAt (new_service gw).meta gw gw.meta.name
  unfolding new_service
  new_service-StandsAt = (refl, refl)

  pub new_management_service-StandsAt :
      StandsAt (new_management_service gw).meta gw (gw.meta.name <> "-management-service")
  unfolding new_management_service
  new_management_service-StandsAt = (refl, refl)

  pub new_ingress-StandsAt : StandsAt (new_ingress gw).meta gw gw.meta.name
  unfolding new_ingress
  new_ingress-StandsAt = (refl, refl)

  pub new_deployment-StandsAt : StandsAt (new_deployment gw).meta gw gw.meta.name
  unfolding new_deployment
  new_deployment-StandsAt = (refl, refl)

module _ (gw gw' : Gateway) (e : core gw' ≡ core gw) where
  pub gateway_entries-core : (R : Runtime) → gateway_entries R gw' ≡ gateway_entries R gw
  unfolding gateway_entries set_jvm_heap_size
  gateway_entries-core R = ap (gateway_entries R) e

  pub new_secret-core : (new_secret gw').contents ≡ (new_secret gw).contents
  unfolding new_secret
  new_secret-core = ap (λ g. (new_secret g).contents) e

  pub new_ingress-core : (new_ingress gw').spec ≡ (new_ingress gw).spec
  unfolding new_ingress
  new_ingress-core = ap (λ g. (new_ingress g).spec) e

  storage-core : storage gw' ≡ storage gw
  unfolding storage uses_repository_init repository_init
  storage-core = ap storage e

  containers-core : containers gw' ≡ containers gw
  unfolding containers gateway_container container_ports secret_name storage uses_repository_init
      repository_init
  containers-core = ap containers e

  pub new_deployment-core :
      (C : Client) → compared_view C (new_deployment gw') ≡ compared_view C (new_deployment gw)
  unfolding new_deployment
  new_deployment-core C i =
      (C.marshal_containers (containers-core i), (e i).spec.app.service_account_name)

-- The test on a Deployment compares the views.
abbrev views_differ : String × String → String × String → Bool
views_differ a b = not (a.0 == b.0) || not (a.1 == b.1)

pub differs-core :
    (R : Runtime) (C : Client) (gw gw' : Gateway)
    → core gw' ≡ core gw
    → (y : Deployment) → differs R C gw' y ≡ differs R C gw y
unfolding needs_update
differs-core R C gw gw' e y =
    by_views gw'
    ∙ ap (views_differ (compared_view C y)) (new_deployment-core gw gw' e C)
    ∙ sym (by_views gw)
  where
    by_views :
        (g : Gateway)
        → differs R C g y ≡ views_differ (compared_view C y) (compared_view C (new_deployment g))
    by_views g = rw (template-keep_replicas R C g y) refl
