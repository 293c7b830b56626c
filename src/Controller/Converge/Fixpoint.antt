-- ===== src/Controller/Converge/Fixpoint.antt =====
-- The objects of a Gateway, reconciled twice (`Reconcile` of controller.go up to the Deployment).
use mathlib.Core.Path.{subst, subst₂}
use layer7_operator.Prelude.{◌<>◌, ◌≡◌, refl, ap, sym, ◌∙◌, ok}
use layer7_operator.Prelude.Exec.{Exec, proceed-ok}
use layer7_operator.Runtime.{Runtime}
use layer7_operator.Controller.Client.{Client}
use layer7_operator.Controller.Run.{Run, when}
use layer7_operator.Controller.Objects.{
  reconcile_config_map, reconcile_service, reconcile_management_service, reconcile_ingress,
  reconcile_deployment, reconcile_hpa,
}
use layer7_operator.Controller.Leader.{tag_management_pod}
use layer7_operator.Controller.Reconcile.{
  require_secret, reconcile_config_maps, reconcile_credentials, reconcile_workload,
  reconcile_objects,
}
use layer7_operator.Controller.Repeat.{KeepsKeys}
use layer7_operator.Controller.Converge.Places.{IsCluster}
use layer7_operator.Controller.Converge.Facts.{core, AllHold}
use layer7_operator.Controller.Converge.Steps.{when_step}
use layer7_operator.Controller.Converge.Leader.{tag_step}
use layer7_operator.Controller.Converge.Credentials.{credentials_step}
use layer7_operator.Controller.Converge.Actions.{
  license_step, gateway_map_step, system_map_step, service_step, management_service_step,
  ingress_step, deployment_step,
}
use layer7_operator.Controller.Converge.Parts.{
  has_management, has_ingress, maps_parts, workload_parts, ended, when-off, when-join,
}
use layer7_operator.Controller.Converge.Objects.{
  IsLicensed, IsLicensed-core, IsPlain, IsPlain-core, object_facts,
}
use layer7_operator.Controller.Converge.Done.{
  maps_done, credentials_done, services_done, workload_done,
}

module _ {R : Runtime} {C : Client} (keys : KeepsKeys C) (cluster : IsCluster C) where
  abbrev pub Facts : Run R C → Type 0
  Facts run =
      AllHold (object_facts keys cluster (has_management run.gateway) (has_ingress run.gateway)) run

  -- Where the spec asks for no bundles, and not for autoscaling.
  pub maps_split :
      (run run' : Run R C)
      → IsPlain run.gateway
      → reconcile_config_maps run ≡ (ok tt, run')
      → (s : Run R C) × (reconcile_config_map run.gateway.meta.name run ≡ (ok tt, s))
        × (reconcile_config_map (run.gateway.meta.name <> "-system") s ≡ (ok tt, run'))
  maps_split run run' plain h =
      let (s₁, s₂, s₃, h₁, h₂, h₃, h₄) = maps_parts run run' h in
      let none_drawn : (ok tt, s₂) ≡ (ok tt, s₃) =
        sym (when-off _ (reconcile_config_map _) s₂ plain.no_properties) ∙ h₃ in
      let none_hardened : (ok tt, s₃) ≡ (ok tt, run') =
        sym (when-off _ (reconcile_config_map _) s₃ plain.no_ports) ∙ h₄ in
      (s₁, h₁, h₂ ∙ none_drawn ∙ none_hardened)

  pub workload_split :
      (run run' : Run R C)
      → IsPlain run.gateway
      → reconcile_workload run ≡ (ok tt, run')
      → (s₁ s₂ s₃ s₄ : Run R C) × (reconcile_service run ≡ (ok tt, s₁))
        × (when (has_management run.gateway) reconcile_management_service s₁ ≡ (ok tt, s₂))
        × (when (has_management run.gateway) tag_management_pod s₂ ≡ (ok tt, s₃))
        × (when (has_ingress run.gateway) reconcile_ingress s₃ ≡ (ok tt, s₄))
        × (reconcile_deployment s₄ ≡ (ok tt, run'))
  workload_split run run' plain h =
      let (s₁, s₂, s₃, s₄, s₅, h₁, h₂, h₃, h₄, h₅, h₆) = workload_parts run run' h in
      let same : (ok tt, s₄) ≡ (ok tt, s₅) =
        sym (when-off _ reconcile_hpa s₄ plain.no_autoscaling) ∙ h₅ in
      (
        s₁,
        s₂,
        s₃,
        s₄,
        h₁,
        h₂,
        h₃,
        h₄,
        subst (λ s. reconcile_deployment s ≡ (ok tt, run')) (λ i. (sym same i).1) h₆,
      )

  -- The facts are there once the objects are reconciled without error.
  pub objects_done :
      (run run' : Run R C)
      → IsLicensed run.gateway
      → reconcile_objects run ≡ (ok tt, run')
      → Facts run' × (core run'.gateway ≡ core run.gateway)
  unfolding reconcile_objects
  objects_done run run' licensed h =
      let lic : Exec (Run R C) (Unit {0}) = require_secret run.gateway.spec.license.secret_name in
      let s₁ : Run R C = (lic run).1 in
      let s₂ : Run R C = (reconcile_config_maps s₁).1 in
      let s₃ : Run R C = (reconcile_credentials s₂).1 in
      let (_, e₁, h₁) = proceed-ok (lic run).0 s₁ run' _ h in
      let (_, e₂, h₂) = proceed-ok (reconcile_config_maps s₁).0 s₂ run' _ h₁ in
      let (_, e₃, h₃) = proceed-ok (reconcile_credentials s₂).0 s₃ run' _ h₂ in
      let (u₁, u₂, u₃, m₁, m₂, m₃, m₄) = maps_parts s₁ s₂ (ended reconcile_config_maps s₁ e₂) in
      let (maps, same₁) =
        maps_done keys cluster run s₁ u₁ u₂ u₃ s₂ (ended lic run e₁) m₁ m₂ m₃ m₄ in
      let (f, same₂) =
        credentials_done keys cluster s₂ s₃ (IsLicensed-core run.gateway s₂.gateway same₁ licensed)
          (ended reconcile_credentials s₂ e₃) maps in
      let (t₁, t₂, t₃, t₄, t₅, w₁, w₂, w₃, w₄, w₅, w₆) = workload_parts s₃ run' h₃ in
      let (f', same') =
        services_done keys cluster (has_management s₃.gateway) s₃ t₁ t₂ t₃ f w₁ w₂ w₃ in
      let (f'', same'') =
        workload_done keys cluster (has_management s₃.gateway) (has_ingress s₃.gateway)
          s₃.gateway.spec.app.autoscaling.enabled t₃ t₄ t₅ run'
          (sym (ap (λ g. g.spec.app.autoscaling.enabled) same')) f' w₄ w₅ w₆ in
      let back = sym (same'' ∙ same') in
      (
        subst₂ (λ m i. AllHold (object_facts keys cluster m i) run') (ap has_management back)
            (ap has_ingress back) f'',
        same'' ∙ same' ∙ same₂ ∙ same₁,
      )

  pub objects_idle :
      (run : Run R C) → IsPlain run.gateway → Facts run → reconcile_objects run ≡ (ok tt, run)
  unfolding reconcile_objects reconcile_config_maps reconcile_workload
  objects_idle run plain (d, (_, (i, (t, (m, (s, (k, (_, (_, (y, (g, (l, _)))))))))))) =
      rw
        (
          (license_step keys cluster).idle run l,
          (gateway_map_step keys cluster).idle run g,
          (system_map_step keys cluster).idle run y,
          when-off _ (reconcile_config_map (run.gateway.meta.name <> "-cwp-bundle")) run
              plain.no_properties,
          when-off _ (reconcile_config_map (run.gateway.meta.name <> "-listen-port-bundle")) run
              plain.no_ports,
          (credentials_step keys cluster).idle run k,
          (service_step keys cluster).idle run s,
          when-join (has_management run.gateway) reconcile_management_service tag_management_pod run
              ((when_step (management_service_step keys cluster) (has_management run.gateway)).idle
                run m)
              ((when_step (tag_step cluster) (has_management run.gateway)).idle run t),
          (when_step (ingress_step keys cluster) (has_ingress run.gateway)).idle run i,
          when-off _ reconcile_hpa run plain.no_autoscaling,
          (deployment_step keys cluster).idle run d,
        )
        refl

  -- For a plain Gateway, after the objects are reconciled without error, reconciling them again returns no
  -- error and changes nothing.
  pub reconcile_objects_settled :
      (run run' : Run R C)
      → IsPlain run.gateway
      → reconcile_objects run ≡ (ok tt, run')
      → reconcile_objects run' ≡ (ok tt, run')
  reconcile_objects_settled run run' plain h =
      let (facts, same) = objects_done run run' plain.other_license h in
      objects_idle run' (IsPlain-core run.gateway run'.gateway same plain) facts
