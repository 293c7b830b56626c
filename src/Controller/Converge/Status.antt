-- ===== src/Controller/Converge/Status.antt =====
-- The status and the commit, reconciled twice (`updateGatewayStatus` and `reconcileBundles` of
-- controller.go).
use layer7_operator.Prelude.{
  String, false, ◌≡◌, refl, ap, sym, ◌∙◌, none, some, value, ok, List, eq_refl,
}
use layer7_operator.Kube.Pods.{Deployment, Pod}
use layer7_operator.Api.Gateway.{Gateway, GatewayState, GatewayStatus, GatewaySpec}
use layer7_operator.Runtime.{Runtime}
use layer7_operator.Controller.Client.{Client}
use layer7_operator.Controller.Zero.{zero_deployment}
use layer7_operator.Controller.Run.{Run, is_not_found, found_or}
use layer7_operator.Controller.Status.{gateway_states, deployment_status, update_gateway_status}
use layer7_operator.Controller.Status.Report.{deployment_read}
use layer7_operator.Controller.Status.Compared.{status_equal_refl}
use layer7_operator.Controller.Commit.{set_commit_id, get_latest_commit, reconcile_bundles}
use layer7_operator.Controller.Converge.Facts.{core_of}
use layer7_operator.Controller.Converge.Leader.{list_of}

-- The status that is wanted.
abbrev pub wanted : Gateway → Deployment → List GatewayState → GatewayStatus
wanted gw dep states = record (deployment_status gw dep) { gateway = some states }

abbrev pub with_status : GatewaySpec → GatewayStatus → Gateway
with_status spec st = record (core_of "" "" spec) { status = st }

-- Of a Gateway that has it already, the same status is wanted.
pub wanted-wanted :
    (gw gw' : Gateway) (dep : Deployment) (states : List GatewayState)
    → gw'.spec ≡ gw.spec
    → gw'.status ≡ wanted gw dep states
    → wanted gw' dep states ≡ gw'.status
unfolding deployment_status
wanted-wanted gw gw' dep states spec status =
    (λ i. wanted (with_status (spec i) (status i)) dep states) ∙ sym status

-- The commit is none of what the status is compared by.
pub wanted-commit :
    (gw gw' : Gateway) (dep : Deployment) (states : List GatewayState) (commit : String)
    → gw'.spec ≡ gw.spec
    → gw'.status ≡ (set_commit_id commit gw).status
    → wanted gw dep states ≡ gw.status
    → wanted gw' dep states ≡ gw'.status
unfolding deployment_status
wanted-commit gw gw' dep states commit spec status current =
    (λ i. wanted (with_status (spec i) (status i)) dep states)
    ∙ ap (λ st. (set_commit_id commit (with_status gw.spec st)).status) current
    ∙ sym status

module _ {R : Runtime} {C : Client} where
  -- The Deployment is readable, the pods are listed and can be reported, and the status is the one wanted.
  pub record IsReported (run : Run R C) : Type 0 where
    pub readable : is_not_found (deployment_read run) ≡ none
    pub listed : List Pod
    pub states : List GatewayState
    pub found : list_of run ≡ value listed
    pub made : gateway_states run.gateway.spec.app.image listed false ≡ ok states
    pub current :
        wanted run.gateway (found_or zero_deployment (deployment_read run)) states
        ≡ run.gateway.status

  -- The status tells the commit that the repository is at.
  abbrev pub IsRecorded : Run R C → Type 0
  IsRecorded run =
      get_latest_commit C run.gateway.spec.app.repository.url run.cluster
      ≡ ok run.gateway.status.commit_id

  pub update_gateway_status-idle :
      (run : Run R C) → IsReported run → update_gateway_status run ≡ (ok tt, run)
  unfolding update_gateway_status
  update_gateway_status-idle run r =
      rw (r.readable, r.found, r.made, r.current, status_equal_refl run.gateway.status) refl

  pub reconcile_bundles-idle :
      (run : Run R C) → IsRecorded run → reconcile_bundles run ≡ (ok tt, run)
  unfolding reconcile_bundles
  reconcile_bundles-idle run r = rw (r, eq_refl run.gateway.status.commit_id) refl
