-- ===== src/Controller/Converge/Ending.antt =====
-- The two parts of `Reconcile` of controller.go on a cluster that accepts what it is sent.
use mathlib.Core.Bool.{false≢true}
use layer7_operator.Prelude.{Bool, true, false, ◌≡◌, refl, ap, sym, ◌∙◌, none, not}
use layer7_operator.Prelude.Exec.{Exec, ◌>>◌}
use layer7_operator.Runtime.{Runtime}
use layer7_operator.Controller.Client.{Client}
use layer7_operator.Controller.Run.{Run, is_not_found, when}
use layer7_operator.Controller.Objects.{
  reconcile_service, reconcile_management_service, reconcile_ingress, reconcile_deployment,
  reconcile_hpa,
}
use layer7_operator.Controller.Leader.{tag_management_pod}
use layer7_operator.Controller.Reconcile.{
  require_secret, reconcile_config_maps, reconcile_credentials, reconcile_workload,
  reconcile_objects, reconcile_status,
}
use layer7_operator.Controller.Status.{update_gateway_status}
use layer7_operator.Controller.Status.Report.{deployment_read}
use layer7_operator.Controller.Commit.{reconcile_bundles}
use layer7_operator.Controller.Repeat.{KeepsKeys}
use layer7_operator.Controller.Converge.Places.{IsCluster}
use layer7_operator.Controller.Converge.Instances.{
  secret_pass, service_pass, management_service_pass, ingress_pass, deployment_pass,
}
use layer7_operator.Controller.Converge.Actions.{
  service-run_pass, management_service-run_pass, ingress-run_pass, deployment-run_pass,
  license_step,
}
use layer7_operator.Controller.Converge.Credentials.{
  is_own, named_secret, named_step, reconcile_secret-run_pass,
}
use layer7_operator.Controller.Converge.Steps.{HoldsIf}
use layer7_operator.Controller.Converge.Drawn.{reconcile_hpa-Ends}
use layer7_operator.Controller.Converge.Mapped.{
  IsSafeFor, then-ended, named_fact, reconcile_config_maps-Passes,
}
use layer7_operator.Controller.Converge.Parts.{ended, has_management, has_ingress}
use layer7_operator.Controller.Converge.Obedient.{
  IsObedient, Ends, >>-Ends, when-Ends, run_pass-Ends, tag_management_pod-Ends,
  update_gateway_status-Ends, reconcile_bundles-Ends,
}

-- The Secrets that the spec names can be read: that of the license, and that of the credentials, if the
-- spec names one.
pub record HasSecrets {R : Runtime} {C : Client} (run : Run R C) : Type 0 where
  pub license :
      is_not_found
        (C.secrets.get run.gateway.meta.namespace run.gateway.spec.license.secret_name run.cluster)
      ≡ none
  pub credentials :
      is_own run.gateway ≡ false
      → is_not_found
          (C.secrets.get run.gateway.meta.namespace (named_secret run.gateway) run.cluster)
        ≡ none

HoldsIf-of : (b : Bool) {T : Type 0} → (b ≡ true → T) → HoldsIf b T
HoldsIf-of true h = h refl
HoldsIf-of false h = tt

of-HoldsIf : (b : Bool) {T : Type 0} → b ≡ true → HoldsIf b T → T
of-HoldsIf true e h = h
of-HoldsIf false e h = absurd (false≢true e)

not-true : (b : Bool) → not b ≡ true → b ≡ false
not-true true h = sym h
not-true false h = refl

module _ {R : Runtime} {C : Client} (keys : KeepsKeys C) (cluster : IsCluster C)
    (obedient : IsObedient C) where
  workload-Ends : (run : Run R C) → Ends reconcile_workload run
  unfolding reconcile_workload
  workload-Ends run =
      let both : Exec (Run R C) (Unit {0}) =
        when (has_management run.gateway) (reconcile_management_service >> tag_management_pod) in
      let ingress : Exec (Run R C) (Unit {0}) = when (has_ingress run.gateway) reconcile_ingress in
      let hpa : Exec (Run R C) (Unit {0}) =
        when run.gateway.spec.app.autoscaling.enabled reconcile_hpa in
      >>-Ends reconcile_service (both >> (ingress >> (hpa >> reconcile_deployment))) run
        (ap (λ r. r.0) (service-run_pass keys run)
          ∙ run_pass-Ends obedient (service_pass R C keys) run)
        (>>-Ends both (ingress >> (hpa >> reconcile_deployment)) _
          (when-Ends _ (reconcile_management_service >> tag_management_pod) _ (λ _.
            >>-Ends reconcile_management_service tag_management_pod _
              (ap (λ r. r.0) (management_service-run_pass keys _)
                ∙ run_pass-Ends obedient (management_service_pass R C keys) _)
              (tag_management_pod-Ends obedient _)))
          (>>-Ends ingress (hpa >> reconcile_deployment) _
            (when-Ends _ reconcile_ingress _ (λ _.
              ap (λ r. r.0) (ingress-run_pass keys _)
              ∙ run_pass-Ends obedient (ingress_pass R C keys) _))
            (>>-Ends hpa reconcile_deployment _
              (when-Ends _ reconcile_hpa _ (λ _. reconcile_hpa-Ends obedient _))
              (ap (λ r. r.0) (deployment-run_pass keys _)
                ∙ run_pass-Ends obedient (deployment_pass R C keys) _))))

  credentials-Ends :
      (own : Bool) (run : Run R C)
      → is_own run.gateway ≡ own
      → (named_fact keys cluster obedient own).Holds run
      → Ends reconcile_credentials run
  unfolding reconcile_credentials
  credentials-Ends true run e h = rw e (
      ap (λ r. r.0) (reconcile_secret-run_pass keys cluster run)
      ∙ run_pass-Ends obedient (secret_pass R C keys) run)
  credentials-Ends false run e h = rw e (ap (λ r. r.0) ((named_step keys cluster).idle run h))

  pub reconcile_objects-Ends :
      (run : Run R C) → IsSafeFor R run.gateway → HasSecrets run → Ends reconcile_objects run
  unfolding reconcile_objects
  reconcile_objects-Ends run safe secrets =
      let own : Bool = is_own run.gateway in
      let license : Exec (Run R C) (Unit {0}) =
        require_secret run.gateway.spec.license.secret_name in
      let here : (named_fact keys cluster obedient own).Holds run =
        HoldsIf-of (not own) (λ e. secrets.credentials (not-true own e)) in
      let (s, maps, here', same) =
        reconcile_config_maps-Passes keys cluster obedient own run safe here in
      let same_own : is_own s.gateway ≡ own = ap is_own same in
      let credentials = ended reconcile_credentials s (credentials-Ends own s same_own here') in
      let s' : Run R C = (reconcile_credentials s).1 in
      let workload = ended reconcile_workload s' (workload-Ends s') in
      ap (λ r. r.0)
        (then-ended license _ run run _ ((license_step keys cluster).idle run secrets.license) (
          then-ended reconcile_config_maps _ run s _ maps
            (then-ended reconcile_credentials reconcile_workload s s' _ credentials workload)))

  pub reconcile_status-Ends :
      (run : Run R C) → is_not_found (deployment_read run) ≡ none → Ends reconcile_status run
  unfolding reconcile_status
  reconcile_status-Ends run readable =
      >>-Ends update_gateway_status _ run (update_gateway_status-Ends obedient run readable) (
        when-Ends _ reconcile_bundles (update_gateway_status run).1
          (λ _. reconcile_bundles-Ends obedient (update_gateway_status run).1))
