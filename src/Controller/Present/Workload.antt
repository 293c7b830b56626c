-- ===== src/Controller/Present/Workload.antt =====
-- What is there once `Reconcile` of controller.go has gone through the objects.
use mathlib.Core.Path.{subst}
use layer7_operator.Prelude.{◌≡◌, ap, sym, ◌∙◌, ok}
use layer7_operator.Prelude.Exec.{Exec, proceed-ok, ◌>>◌}
use layer7_operator.Kube.Pods.{Deployment}
use layer7_operator.Runtime.{Runtime}
use layer7_operator.Controller.Client.{Client}
use layer7_operator.Controller.Run.{Run, when}
use layer7_operator.Controller.Objects.{
  reconcile_service, reconcile_management_service, reconcile_ingress, reconcile_hpa,
  reconcile_deployment,
}
use layer7_operator.Controller.Leader.{tag_management_pod}
use layer7_operator.Controller.Reconcile.{
  require_secret, reconcile_config_maps, reconcile_credentials, reconcile_workload,
  reconcile_objects,
}
use layer7_operator.Controller.Settled.{IsStore}
use layer7_operator.Controller.Repeat.{KeepsKeys}
use layer7_operator.Controller.Repeat.Deployment.{gateway-reconcile_deployment}
use layer7_operator.Controller.Present.{IsPresent}
use layer7_operator.Controller.Present.Objects.{reconcile_deployment-IsPresent}

module _ {R : Runtime} {C : Client} where
  -- The last step of the workload is the Deployment.
  reconcile_workload-last :
      (run run' : Run R C)
      → reconcile_workload run ≡ (ok tt, run')
      → (run₁ : Run R C) × (reconcile_deployment run₁ ≡ (ok tt, run'))
  unfolding reconcile_workload
  reconcile_workload-last run run' h =
      let gw = run.gateway in
      let s₁ : Run R C = (reconcile_service run).1 in
      let m₂ : Exec (Run R C) (Unit {0}) =
        when gw.spec.app.management.service.enabled
          (reconcile_management_service >> tag_management_pod) in
      let s₂ : Run R C = (m₂ s₁).1 in
      let m₃ : Exec (Run R C) (Unit {0}) = when gw.spec.app.ingress.enabled reconcile_ingress in
      let s₃ : Run R C = (m₃ s₂).1 in
      let m₄ : Exec (Run R C) (Unit {0}) = when gw.spec.app.autoscaling.enabled reconcile_hpa in
      let s₄ : Run R C = (m₄ s₃).1 in
      let (_, _, h₁) = proceed-ok (reconcile_service run).0 s₁ run' _ h in
      let (_, _, h₂) = proceed-ok (m₂ s₁).0 s₂ run' _ h₁ in
      let (_, _, h₃) = proceed-ok (m₃ s₂).0 s₃ run' _ h₂ in
      let (_, _, h₄) = proceed-ok (m₄ s₃).0 s₄ run' _ h₃ in (s₄, h₄)

  reconcile_objects-last :
      (run run' : Run R C)
      → reconcile_objects run ≡ (ok tt, run')
      → (run₁ : Run R C) × (reconcile_deployment run₁ ≡ (ok tt, run'))
  unfolding reconcile_objects
  reconcile_objects-last run run' h =
      let m₁ : Exec (Run R C) (Unit {0}) = require_secret run.gateway.spec.license.secret_name in
      let s₁ : Run R C = (m₁ run).1 in
      let s₂ : Run R C = (reconcile_config_maps s₁).1 in
      let s₃ : Run R C = (reconcile_credentials s₂).1 in
      let (_, _, h₁) = proceed-ok (m₁ run).0 s₁ run' _ h in
      let (_, _, h₂) = proceed-ok (reconcile_config_maps s₁).0 s₂ run' _ h₁ in
      let (_, _, h₃) = proceed-ok (reconcile_credentials s₂).0 s₃ run' _ h₂ in
      reconcile_workload-last s₃ run' h₃

  -- Once the objects are reconciled without error, a read of the Deployment of the Gateway, as the status
  -- update makes it next, does not answer "not found", if the server keeps a Deployment that it has
  -- accepted, and setting an owner keeps the name and the namespace.
  pub reconcile_objects-IsPresent :
      {V : Type 0} (keys : KeepsKeys C) (view : Deployment → V)
      → IsStore C.deployments (λ d. d.meta) view
      → (run run' : Run R C) → reconcile_objects run ≡ (ok tt, run')
      → IsPresent C.deployments run'.gateway.meta.namespace run'.gateway.meta.name run'.cluster
  reconcile_objects-IsPresent keys view store run run' h =
      let (run₁, last) = reconcile_objects-last run run' h in
      let kept : run₁.gateway ≡ run'.gateway =
        sym (gateway-reconcile_deployment run₁) ∙ ap (λ r. r.1.gateway) last in
      subst (λ g. IsPresent C.deployments g.meta.namespace g.meta.name run'.cluster) kept
        (reconcile_deployment-IsPresent keys view store run₁ run' last)
