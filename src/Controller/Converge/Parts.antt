-- ===== src/Controller/Converge/Parts.antt =====
-- The calls that `reconcileConfigMaps` and the workload of controller.go consist of, in turn.
use layer7_operator.Prelude.{Bool, true, false, ◌<>◌, ◌≡◌, refl, ok}
use layer7_operator.Prelude.Exec.{Exec, proceed-ok, ◌>>◌}
use layer7_operator.Api.Gateway.{Gateway}
use layer7_operator.Runtime.{Runtime}
use layer7_operator.Controller.Client.{Client}
use layer7_operator.Controller.Run.{Run, when}
use layer7_operator.Controller.Objects.{
  reconcile_config_map, reconcile_service, reconcile_management_service, reconcile_ingress,
  reconcile_deployment, reconcile_hpa,
}
use layer7_operator.Controller.Leader.{tag_management_pod}
use layer7_operator.Controller.Reconcile.{reconcile_config_maps, reconcile_workload}

abbrev pub has_management : Gateway → Bool
has_management gw = gw.spec.app.management.service.enabled

abbrev pub has_ingress : Gateway → Bool
has_ingress gw = gw.spec.app.ingress.enabled

module _ {R : Runtime} {C : Client} where
  -- Two calls under one flag.
  when-split :
      (b : Bool) (m k : Exec (Run R C) (Unit {0})) (run run' : Run R C)
      → when b (m >> k) run ≡ (ok tt, run')
      → (s : Run R C) × (when b m run ≡ (ok tt, s)) × (when b k s ≡ (ok tt, run'))
  when-split true m k run run' h =
      let (_, e, rest) = proceed-ok (m run).0 (m run).1 run' (λ _. k) h in
      ((m run).1, (λ i. (e i, (m run).1)), rest)
  when-split false m k run run' h = (run, refl, h)

  pub when-join :
      (b : Bool) (m k : Exec (Run R C) (Unit {0})) (run : Run R C)
      → when b m run ≡ (ok tt, run)
      → when b k run ≡ (ok tt, run)
      → when b (m >> k) run ≡ (ok tt, run)
  when-join true m k run e e' = rw (e, e') refl
  when-join false m k run e e' = refl

  pub when-off :
      (b : Bool) (m : Exec (Run R C) (Unit {0})) (run : Run R C)
      → b ≡ false
      → when b m run ≡ (ok tt, run)
  when-off b m run e = rw e refl

  -- A call that ended well, as an equation.
  pub ended :
      (m : Exec (Run R C) (Unit {0})) (run : Run R C) {u : Unit {0}}
      → (m run).0 ≡ ok u
      → m run ≡ (ok tt, (m run).1)
  ended m run e i = (e i, (m run).1)

  -- The calls over the ConfigMaps.
  pub maps_parts :
      (run run' : Run R C)
      → reconcile_config_maps run ≡ (ok tt, run')
      → (s₁ s₂ s₃ : Run R C) × (reconcile_config_map run.gateway.meta.name run ≡ (ok tt, s₁))
        × (reconcile_config_map (run.gateway.meta.name <> "-system") s₁ ≡ (ok tt, s₂))
        × (when run.gateway.spec.app.cluster_properties.enabled
              (reconcile_config_map (run.gateway.meta.name <> "-cwp-bundle"))
              s₂
            ≡ (ok tt, s₃))
        × (when run.gateway.spec.app.listen_ports.harden
              (reconcile_config_map (run.gateway.meta.name <> "-listen-port-bundle"))
              s₃
            ≡ (ok tt, run'))
  unfolding reconcile_config_maps
  maps_parts run run' h =
      let name = run.gateway.meta.name in
      let first : Exec (Run R C) (Unit {0}) = reconcile_config_map name in
      let second : Exec (Run R C) (Unit {0}) = reconcile_config_map (name <> "-system") in
      let third : Exec (Run R C) (Unit {0}) =
        when run.gateway.spec.app.cluster_properties.enabled
          (reconcile_config_map (name <> "-cwp-bundle")) in
      let s₁ : Run R C = (first run).1 in
      let s₂ : Run R C = (second s₁).1 in
      let s₃ : Run R C = (third s₂).1 in
      let (_, e₁, h₁) = proceed-ok (first run).0 s₁ run' _ h in
      let (_, e₂, h₂) = proceed-ok (second s₁).0 s₂ run' _ h₁ in
      let (_, e₃, h₃) = proceed-ok (third s₂).0 s₃ run' _ h₂ in
      (s₁, s₂, s₃, ended first run e₁, ended second s₁ e₂, ended third s₂ e₃, h₃)

  -- The calls from the Service to the Deployment.
  pub workload_parts :
      (run run' : Run R C)
      → reconcile_workload run ≡ (ok tt, run')
      → (s₁ s₂ s₃ s₄ s₅ : Run R C) × (reconcile_service run ≡ (ok tt, s₁))
        × (when (has_management run.gateway) reconcile_management_service s₁ ≡ (ok tt, s₂))
        × (when (has_management run.gateway) tag_management_pod s₂ ≡ (ok tt, s₃))
        × (when (has_ingress run.gateway) reconcile_ingress s₃ ≡ (ok tt, s₄))
        × (when run.gateway.spec.app.autoscaling.enabled reconcile_hpa s₄ ≡ (ok tt, s₅))
        × (reconcile_deployment s₅ ≡ (ok tt, run'))
  unfolding reconcile_workload
  workload_parts run run' h =
      let both : Exec (Run R C) (Unit {0}) =
        when (has_management run.gateway) (reconcile_management_service >> tag_management_pod) in
      let ingress : Exec (Run R C) (Unit {0}) = when (has_ingress run.gateway) reconcile_ingress in
      let hpa : Exec (Run R C) (Unit {0}) =
        when run.gateway.spec.app.autoscaling.enabled reconcile_hpa in
      let s₁ : Run R C = (reconcile_service run).1 in
      let s₃ : Run R C = (both s₁).1 in
      let s₄ : Run R C = (ingress s₃).1 in
      let s₅ : Run R C = (hpa s₄).1 in
      let (_, e₁, h₁) = proceed-ok (reconcile_service run).0 s₁ run' _ h in
      let (_, e₂, h₂) = proceed-ok (both s₁).0 s₃ run' _ h₁ in
      let (_, e₃, h₃) = proceed-ok (ingress s₃).0 s₄ run' _ h₂ in
      let (_, e₄, h₄) = proceed-ok (hpa s₄).0 s₅ run' _ h₃ in
      let (s₂, first, second) =
        when-split (has_management run.gateway) reconcile_management_service tag_management_pod s₁
          s₃ (ended both s₁ e₂) in
      (
        s₁,
        s₂,
        s₃,
        s₄,
        s₅,
        ended reconcile_service run e₁,
        first,
        second,
        ended ingress s₃ e₃,
        ended hpa s₄ e₄,
        h₄,
      )
