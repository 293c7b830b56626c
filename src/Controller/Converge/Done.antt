-- ===== src/Controller/Converge/Done.antt =====
-- What each call of `Reconcile` of controller.go up to the Deployment adds to what holds.
use mathlib.Core.Path.{subst}
use layer7_operator.Prelude.{Bool, ◌<>◌, ◌≡◌, refl, ap, sym, ◌∙◌, ok, [], ◌∷◌}
use layer7_operator.Prelude.Texts.{eq_false}
use layer7_operator.Runtime.{Runtime}
use layer7_operator.Controller.Client.{Client}
use layer7_operator.Controller.Run.{Run, when}
use layer7_operator.Controller.Objects.{
  reconcile_config_map, reconcile_service, reconcile_management_service, reconcile_ingress,
  reconcile_deployment, reconcile_hpa,
}
use layer7_operator.Controller.Leader.{tag_management_pod}
use layer7_operator.Controller.Reconcile.{require_secret, reconcile_credentials}
use layer7_operator.Controller.Repeat.{KeepsKeys}
use layer7_operator.Controller.Converge.Places.{IsCluster, config_maps, secrets, services}
use layer7_operator.Controller.Converge.Facts.{core, AllHold}
use layer7_operator.Controller.Converge.Actions.{
  license_step, gateway_map_step, system_map_step, service_step, management_service_step,
  ingress_step, deployment_step,
}
use layer7_operator.Controller.Converge.Steps.{when_step}
use layer7_operator.Controller.Converge.Asked.{
  properties_map, ports_map, autoscaler, asked_at, there_fact, when-Made,
}
use layer7_operator.Controller.Converge.Writes.{reconcile_config_map-Made, reconcile_hpa-Made}
use layer7_operator.Controller.Converge.Leader.{tag_step}
use layer7_operator.Controller.Converge.Credentials.{credentials_step}
use layer7_operator.Controller.Converge.Objects.{
  apart-names, apart-suffixed, apart-suffixes, step_adds, fact_adds, IsLicensed, after_license,
  after_gateway_map, after_system_map, after_properties, after_ports, after_credentials,
  after_service, after_management_service, after_tag, after_ingress, object_facts,
}

module _ {R : Runtime} {C : Client} (keys : KeepsKeys C) (cluster : IsCluster C) where
  properties_done :
      (run s : Run R C)
      → when run.gateway.spec.app.cluster_properties.enabled
          (reconcile_config_map (run.gateway.meta.name <> "-cwp-bundle"))
          run
        ≡ (ok tt, s)
      → AllHold (after_system_map keys cluster) run
      → AllHold (after_properties keys cluster) s × (core s.gateway ≡ core run.gateway)
  properties_done run s h f =
      let name = run.gateway.meta.name <> "-cwp-bundle" in
      let (there, moves) =
        when-Made properties_map cluster (reconcile_config_map name) run s
          (reconcile_config_map-Made keys cluster name run s) h in
      fact_adds (there_fact properties_map) (asked_at properties_map run.gateway)
        (after_system_map keys cluster) run s there moves
        (
          apart-suffixes config_maps run.gateway.meta.namespace run.gateway.meta.name "-cwp-bundle"
              "-system" refl,
          (
            apart-suffixed config_maps run.gateway.meta.namespace run.gateway.meta.name
                "-cwp-bundle" refl,
            (refl, tt),
          ),
        )
        f

  ports_done :
      (run s : Run R C)
      → when run.gateway.spec.app.listen_ports.harden
          (reconcile_config_map (run.gateway.meta.name <> "-listen-port-bundle"))
          run
        ≡ (ok tt, s)
      → AllHold (after_properties keys cluster) run
      → AllHold (after_ports keys cluster) s × (core s.gateway ≡ core run.gateway)
  ports_done run s h f =
      let own = run.gateway.meta.name in
      let name = own <> "-listen-port-bundle" in
      let (there, moves) =
        when-Made ports_map cluster (reconcile_config_map name) run s
          (reconcile_config_map-Made keys cluster name run s) h in
      fact_adds (there_fact ports_map) (asked_at ports_map run.gateway)
        (after_properties keys cluster) run s there moves
        (
          apart-suffixes config_maps run.gateway.meta.namespace own "-listen-port-bundle"
              "-cwp-bundle" refl,
          (
            apart-suffixes config_maps run.gateway.meta.namespace own "-listen-port-bundle"
                "-system" refl,
            (
              apart-suffixed config_maps run.gateway.meta.namespace own "-listen-port-bundle" refl,
              (refl, tt),
            ),
          ),
        )
        f

  hpa_done :
      (management ingress : Bool) (run s : Run R C)
      → when run.gateway.spec.app.autoscaling.enabled reconcile_hpa run ≡ (ok tt, s)
      → AllHold (after_ingress keys cluster management ingress) run
      → AllHold (there_fact autoscaler ∷ after_ingress keys cluster management ingress) s
        × (core s.gateway ≡ core run.gateway)
  hpa_done management ingress run s h f =
      let (there, moves) =
        when-Made autoscaler cluster reconcile_hpa run s (reconcile_hpa-Made keys cluster run s)
          h in
      fact_adds (there_fact autoscaler) (asked_at autoscaler run.gateway)
        (after_ingress keys cluster management ingress) run s there moves
        (refl, (refl, (refl, (refl, (refl, (refl, (refl, (refl, (refl, (refl, tt)))))))))) f

  -- The license and the ConfigMaps, by their names as they are first read.
  pub maps_done :
      (run s₁ s₂ s₃ s₄ s₅ : Run R C)
      → require_secret run.gateway.spec.license.secret_name run ≡ (ok tt, s₁)
      → reconcile_config_map s₁.gateway.meta.name s₁ ≡ (ok tt, s₂)
      → reconcile_config_map (s₁.gateway.meta.name <> "-system") s₂ ≡ (ok tt, s₃)
      → when s₁.gateway.spec.app.cluster_properties.enabled
          (reconcile_config_map (s₁.gateway.meta.name <> "-cwp-bundle"))
          s₃
        ≡ (ok tt, s₄)
      → when s₁.gateway.spec.app.listen_ports.harden
          (reconcile_config_map (s₁.gateway.meta.name <> "-listen-port-bundle"))
          s₄
        ≡ (ok tt, s₅)
      → AllHold (after_ports keys cluster) s₅ × (core s₅.gateway ≡ core run.gateway)
  maps_done run s₁ s₂ s₃ s₄ s₅ h₁ h₂ h₃ h₄ h₅ =
      let (f₁, e₁) = step_adds (license_step keys cluster) [] run s₁ h₁ tt tt in
      let (f₂, e₂) =
        step_adds (gateway_map_step keys cluster) (after_license keys cluster) s₁ s₂ h₂ (refl, tt)
          f₁ in
      let h₃' =
        subst (λ n. reconcile_config_map (n <> "-system") s₂ ≡ (ok tt, s₃))
          (sym (ap (λ g. g.meta.name) e₂)) h₃ in
      let (f₃, e₃) =
        step_adds (system_map_step keys cluster) (after_gateway_map keys cluster) s₂ s₃ h₃'
          (apart-suffixed config_maps _ s₂.gateway.meta.name "-system" refl, (refl, tt)) f₂ in
      let h₄' =
        subst
          (λ g.
            when g.spec.app.cluster_properties.enabled
              (reconcile_config_map (g.meta.name <> "-cwp-bundle")) s₃
            ≡ (ok tt, s₄))
          (sym (e₃ ∙ e₂)) h₄ in
      let (f₄, e₄) = properties_done s₃ s₄ h₄' f₃ in
      let h₅' =
        subst
          (λ g.
            when g.spec.app.listen_ports.harden
              (reconcile_config_map (g.meta.name <> "-listen-port-bundle")) s₄
            ≡ (ok tt, s₅))
          (sym (e₄ ∙ e₃ ∙ e₂)) h₅ in
      let (f₅, e₅) = ports_done s₄ s₅ h₅' f₄ in (f₅, e₅ ∙ e₄ ∙ e₃ ∙ e₂ ∙ e₁)

  pub credentials_done :
      (run s : Run R C)
      → IsLicensed run.gateway
      → reconcile_credentials run ≡ (ok tt, s)
      → AllHold (after_ports keys cluster) run
      → AllHold (after_credentials keys cluster) s × (core s.gateway ≡ core run.gateway)
  credentials_done run s licensed h f =
      step_adds (credentials_step keys cluster) (after_ports keys cluster) run s h
        (
          refl,
          (
            refl,
            (
              refl,
              (
                refl,
                (
                  apart-names secrets _ run.gateway.meta.name run.gateway.spec.license.secret_name
                      (eq_false _ _ licensed),
                  tt,
                ),
              ),
            ),
          ),
        )
        f

  pub services_done :
      (management : Bool) (run s₁ s₂ s₃ : Run R C)
      → AllHold (after_credentials keys cluster) run
      → reconcile_service run ≡ (ok tt, s₁)
      → when management reconcile_management_service s₁ ≡ (ok tt, s₂)
      → when management tag_management_pod s₂ ≡ (ok tt, s₃)
      → AllHold (after_tag keys cluster management) s₃ × (core s₃.gateway ≡ core run.gateway)
  services_done management run s₁ s₂ s₃ f h₁ h₂ h₃ =
      let (f₁, e₁) =
        step_adds (service_step keys cluster) (after_credentials keys cluster) run s₁ h₁
          (refl, (refl, (refl, (refl, (refl, (refl, tt)))))) f in
      let (f₂, e₂) =
        step_adds (when_step (management_service_step keys cluster) management)
          (after_service keys cluster) s₁ s₂ h₂
          (
            apart-suffixed services _ s₁.gateway.meta.name "-management-service" refl,
            (refl, (refl, (refl, (refl, (refl, (refl, tt)))))),
          )
          f₁ in
      let (f₃, e₃) =
        step_adds (when_step (tag_step cluster) management)
          (after_management_service keys cluster management) s₂ s₃ h₃
          (refl, (refl, (refl, (refl, (refl, (refl, (refl, (refl, tt)))))))) f₂ in
      (f₃, e₃ ∙ e₂ ∙ e₁)

  pub workload_done :
      (management ingress autoscaling : Bool) (run s₁ s₂ s₃ : Run R C)
      → autoscaling ≡ run.gateway.spec.app.autoscaling.enabled
      → AllHold (after_tag keys cluster management) run
      → when ingress reconcile_ingress run ≡ (ok tt, s₁)
      → when autoscaling reconcile_hpa s₁ ≡ (ok tt, s₂)
      → reconcile_deployment s₂ ≡ (ok tt, s₃)
      → AllHold (object_facts keys cluster management ingress) s₃
        × (core s₃.gateway ≡ core run.gateway)
  workload_done management ingress autoscaling run s₁ s₂ s₃ flag f h₁ h₂ h₃ =
      let (f₁, e₁) =
        step_adds (when_step (ingress_step keys cluster) ingress)
          (after_tag keys cluster management) run s₁ h₁
          (refl, (refl, (refl, (refl, (refl, (refl, (refl, (refl, (refl, tt))))))))) f in
      let h₂' =
        subst (λ b. when b reconcile_hpa s₁ ≡ (ok tt, s₂))
          (flag ∙ sym (ap (λ g. g.spec.app.autoscaling.enabled) e₁)) h₂ in
      let (f₂, e₂) = hpa_done management ingress s₁ s₂ h₂' f₁ in
      let (f₃, e₃) =
        step_adds (deployment_step keys cluster)
          (there_fact autoscaler ∷ after_ingress keys cluster management ingress) s₂ s₃ h₃
          (refl, (refl, (refl, (refl, (refl, (refl, (refl, (refl, (refl, (refl, (refl, tt)))))))))))
          f₂ in
      (f₃, e₃ ∙ e₂ ∙ e₁)
