-- ===== src/Build/Selectors.antt =====
-- The labels that tie Deployments, Services and pods together (pkg/gateway/util/util.go,
-- pkg/gateway/service/service.go and pkg/gateway/deployment.go).
use layer7_operator.Prelude.{
  String, Bool, true, false, ◌≡◌, refl, ◌↔◌, Option, none, some, [], arith, eq_iff, eq_refl, ◌==◌,
  ◌&&◌,
}
use layer7_operator.Prelude.Dict.{Dict, lookup, holds, included}
use layer7_operator.Prelude.Slice.{GoMap}
use layer7_operator.Kube.Net.{CoreService}
use layer7_operator.Kube.Pods.{Deployment}
use layer7_operator.Api.Gateway.{Gateway}
use layer7_operator.Labels.{default_labels}
use layer7_operator.Build.Service.{new_service, new_management_service}
use layer7_operator.Build.Deployment.{new_deployment}

-- Whether an equality selector picks an object with these labels.
abbrev pub selects : GoMap String → GoMap String → Bool
selects none labels = false
selects (some selector) none = included selector []
selects (some selector) (some labels) = included selector labels

holds_iff : (o : Option String) (v : String) → (holds o v ≡ true) ↔ (o ≡ some v)
holds_iff none v = ground arith
holds_iff (some w) v = ground (arith, eq_iff w v)

-- For any labels: the management Service selects them exactly if the gateway's Service does and they
-- carry "management-access" with the value "leader".
pub management_selects_iff :
    (gw : Gateway) (labels : Dict String)
    → (selects (new_management_service gw).selector (some labels) ≡ true) ↔ (
        (selects (new_service gw).selector (some labels) ≡ true)
        × (lookup "management-access" labels ≡ some "leader"))
unfolding new_management_service new_service default_labels
management_selects_iff gw labels =
    ground (arith, holds_iff (lookup "management-access" labels) "leader")

-- Whether a Service selects the pods that a Deployment makes: these run in the namespace of the
-- Deployment, and a Service selects pods of its own namespace.
abbrev pub picks : CoreService → Deployment → Bool
picks svc dep = svc.meta.namespace == dep.meta.namespace && selects svc.selector dep.template.labels

-- A Gateway's Service selects the pods of a Deployment exactly if the two Gateways have one namespace
-- and one name, and its management Service selects no pod as the Deployment makes it.
pub selects-template :
    (gw other : Gateway)
    → ((picks (new_service gw) (new_deployment other) ≡ true)
        ↔ ((gw.meta.namespace ≡ other.meta.namespace) × (gw.meta.name ≡ other.meta.name)))
      × (picks (new_management_service gw) (new_deployment other) ≡ false)
unfolding new_management_service new_service default_labels new_deployment
selects-template gw other = (
  ground
      (arith, eq_iff gw.meta.namespace other.meta.namespace, eq_iff other.meta.name gw.meta.name),
  ground (arith, eq_iff other.meta.name gw.meta.name),
)

-- The Deployment's own selector picks the pods of its template.
pub deployment_selects_own :
    (gw : Gateway) → selects (new_deployment gw).selector (new_deployment gw).template.labels ≡ true
unfolding new_deployment default_labels
deployment_selects_own gw = rw eq_refl refl
