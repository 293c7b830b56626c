-- ===== src/Controller/Footprint/Whole.antt =====
-- `Reconcile` of controller.go writes at the Gateway's own objects alone.
use mathlib.Core.Path.{subst}
use layer7_operator.Prelude.{
  ℕ, String, Bool, true, false, ◌<>◌, ◌≡◌, refl, ap, sym, ◌∙◌, Outcome, ok, err, panic, arith, not,
  ◌==◌, eq_iff,
}
use layer7_operator.Prelude.Exec.{Exec, ◌>>◌}
use layer7_operator.Api.Gateway.{Gateway, GatewaySpec}
use layer7_operator.Runtime.{Runtime}
use layer7_operator.Controller.Client.{Client}
use layer7_operator.Controller.Run.{Run, when}
use layer7_operator.Controller.Objects.{
  reconcile_config_map, reconcile_secret, reconcile_service, reconcile_management_service,
  reconcile_ingress, reconcile_hpa, reconcile_deployment,
}
use layer7_operator.Controller.Leader.{tag_management_pod}
use layer7_operator.Controller.Reconcile.{
  require_secret, reconcile_config_maps, reconcile_credentials, reconcile_workload,
  reconcile_objects, reconcile_status, reconcile_gateway, answer, after_objects,
}
use layer7_operator.Controller.Repeat.{KeepsKeys}
use layer7_operator.Controller.Converge.Places.{Kind, config_maps, object, api_at}
use layer7_operator.Controller.Converge.Facts.{core}
use layer7_operator.Controller.Converge.Passes.{Pass, run_pass, place_of}
use layer7_operator.Controller.Converge.Instances.{
  service_pass, management_service_pass, ingress_pass, deployment_pass, secret_pass,
}
use layer7_operator.Controller.Converge.Actions.{
  service-run_pass, management_service-run_pass, ingress-run_pass, deployment-run_pass,
}
use layer7_operator.Controller.Footprint.Bounds.{Apart, IsOutside, IsLocal}
use layer7_operator.Controller.Footprint.Confined.{
  IsKept, Confined, call-IsKept, when-Confined, if-Confined,
}
use layer7_operator.Controller.Footprint.Statuses.{
  tag_management_pod-Confined, require_secret-Confined, reconcile_status-Confined,
}
use layer7_operator.Controller.Footprint.Objects.{
  run_pass-Confined, reconcile_hpa-Confined, reconcile_config_map-Confined,
}

not-false : (b : Bool) → not b ≡ false → b ≡ true
not-false b e = ground arith

module _ (R : Runtime) {C : Client} (local : IsLocal C) (gw : Gateway) (k : Kind)
    (ns name : String) where
  module _ (keys : KeepsKeys C) (outside : IsOutside gw (object k ns name)) where
    -- The common case of a step that is a pass.
    pass-Confined :
        {m : Exec (Run R C) (Unit {0})} (p : Pass C)
        → ((run : Run R C) → m run ≡ run_pass p run)
        → Apart (place_of p gw) (object k ns name)
        → Confined {R = R} {C = C} gw k ns name m
    pass-Confined p same away s run kept =
        subst (λ r. IsKept gw k ns name s r.1) (sym (same run))
          (run_pass-Confined R local gw k ns name p away s run kept)

    map-Confined :
        (n n' : String)
        → n ≡ n'
        → Apart (object config_maps gw.meta.namespace n') (object k ns name)
        → Confined {R = R} {C = C} gw k ns name (reconcile_config_map n)
    map-Confined n n' e away = reconcile_config_map-Confined R local gw k ns name keys n (
        subst (λ x. Apart (object config_maps gw.meta.namespace x) (object k ns name)) (sym e) away)

    reconcile_config_maps-Confined : Confined {R = R} {C = C} gw k ns name reconcile_config_maps
    unfolding reconcile_config_maps
    reconcile_config_maps-Confined s run kept =
        let own = run.gateway.meta.name in
        let same = ap (λ g. g.meta.name) kept.0 in
        call-IsKept gw k ns name (reconcile_config_map own) _ s run
          (map-Confined own gw.meta.name same outside.gateway_map) kept
          λ _ t kept₁.
            call-IsKept gw k ns name (reconcile_config_map (own <> "-system")) _ s t
              (map-Confined (own <> "-system") _ (ap (λ n. n <> "-system") same) outside.system_map)
              kept₁
              λ _ u kept₂.
                call-IsKept gw k ns name
                  (when run.gateway.spec.app.cluster_properties.enabled
                    (reconcile_config_map (own <> "-cwp-bundle")))
                  _ s u
                  (when-Confined gw k ns name run.gateway.spec.app.cluster_properties.enabled
                    (reconcile_config_map (own <> "-cwp-bundle"))
                    λ e. map-Confined (own <> "-cwp-bundle") _ (ap (λ n. n <> "-cwp-bundle") same) (
                      outside.properties_map
                        (sym (ap (λ g. g.spec.app.cluster_properties.enabled) kept.0) ∙ e)))
                  kept₂
                  λ _.
                    when-Confined gw k ns name run.gateway.spec.app.listen_ports.harden
                      (reconcile_config_map (own <> "-listen-port-bundle"))
                      (λ e.
                        map-Confined (own <> "-listen-port-bundle") _
                          (ap (λ n. n <> "-listen-port-bundle") same)
                          (outside.ports_map
                            (sym (ap (λ g. g.spec.app.listen_ports.harden) kept.0) ∙ e)))
                      s

    reconcile_secret-as_pass :
        (run : Run R C) → reconcile_secret run ≡ run_pass (secret_pass R C keys) run
    unfolding reconcile_secret
    reconcile_secret-as_pass run = refl

    reconcile_credentials-Confined : Confined {R = R} {C = C} gw k ns name reconcile_credentials
    unfolding reconcile_credentials
    reconcile_credentials-Confined s run kept =
        let same = ap (λ g. g.spec.app.management.secret_name) kept.0 in
        if-Confined gw k ns name (not (run.gateway.spec.app.management.secret_name == ""))
          (require_secret run.gateway.spec.app.management.secret_name) reconcile_secret
          (λ _.
            (require_secret-Confined R local gw k ns name)
              run.gateway.spec.app.management.secret_name)
          (λ e.
            pass-Confined (secret_pass R C keys) reconcile_secret-as_pass
              (outside.secret (sym same ∙ (eq_iff _ "").0 (not-false _ e))))
          s run kept

    service-Confined : Confined {R = R} {C = C} gw k ns name reconcile_service
    service-Confined = pass-Confined (service_pass R C keys) (service-run_pass keys) outside.service

    management-Confined :
        gw.spec.app.management.service.enabled ≡ true
        → Confined {R = R} {C = C} gw k ns name (reconcile_management_service >> tag_management_pod)
    management-Confined e s run kept =
        call-IsKept gw k ns name reconcile_management_service _ s run
          (pass-Confined (management_service_pass R C keys) (management_service-run_pass keys)
            (outside.management_service e))
          kept λ _. (tag_management_pod-Confined R local gw k ns name) s

    ingress-Confined :
        gw.spec.app.ingress.enabled ≡ true → Confined {R = R} {C = C} gw k ns name reconcile_ingress
    ingress-Confined e =
        pass-Confined (ingress_pass R C keys) (ingress-run_pass keys) (outside.ingress e)

    deployment-Confined : Confined {R = R} {C = C} gw k ns name reconcile_deployment
    deployment-Confined =
        pass-Confined (deployment_pass R C keys) (deployment-run_pass keys) outside.deployment

    reconcile_workload-Confined : Confined {R = R} {C = C} gw k ns name reconcile_workload
    unfolding reconcile_workload
    reconcile_workload-Confined s run kept =
        let app = run.gateway.spec.app in
        let flag : (f : GatewaySpec → Bool) → f run.gateway.spec ≡ true → f gw.spec ≡ true =
          λ f e. sym (ap (λ g. f g.spec) kept.0) ∙ e in
        call-IsKept gw k ns name reconcile_service _ s run service-Confined kept λ _ t kept₁.
          call-IsKept gw k ns name
            (when app.management.service.enabled
              (reconcile_management_service >> tag_management_pod))
            _ s t
            (when-Confined gw k ns name app.management.service.enabled
              (reconcile_management_service >> tag_management_pod)
              λ e. management-Confined (flag (λ spec. spec.app.management.service.enabled) e))
            kept₁
            λ _ u kept₂.
              call-IsKept gw k ns name (when app.ingress.enabled reconcile_ingress) _ s u
                (when-Confined gw k ns name app.ingress.enabled reconcile_ingress
                  λ e. ingress-Confined (flag (λ spec. spec.app.ingress.enabled) e))
                kept₂
                λ _ v kept₃.
                  call-IsKept gw k ns name (when app.autoscaling.enabled reconcile_hpa) _ s v
                    (when-Confined gw k ns name app.autoscaling.enabled reconcile_hpa λ e.
                      reconcile_hpa-Confined R local gw k ns name keys
                        (outside.hpa (flag (λ spec. spec.app.autoscaling.enabled) e)))
                    kept₃ λ _. deployment-Confined s

    reconcile_objects-Confined : Confined {R = R} {C = C} gw k ns name reconcile_objects
    unfolding reconcile_objects
    reconcile_objects-Confined s run kept =
        let license = run.gateway.spec.license.secret_name in
        call-IsKept gw k ns name (require_secret license) _ s run
          ((require_secret-Confined R local gw k ns name) license) kept
          λ _ t kept₁.
            call-IsKept gw k ns name reconcile_config_maps _ s t reconcile_config_maps-Confined
              kept₁
              λ _ u kept₂.
                call-IsKept gw k ns name reconcile_credentials _ s u reconcile_credentials-Confined
                  kept₂ λ _. reconcile_workload-Confined s

  -- Every reconciliation, whatever its outcome.
  reconcile_gateway-Confined :
      KeepsKeys C
      → IsOutside gw (object k ns name)
      → Confined {R = R} {C = C} gw k ns name reconcile_gateway
  unfolding reconcile_gateway
  reconcile_gateway-Confined keys outside s run kept =
      by_objects (reconcile_objects run).0 (reconcile_objects run).1
        (reconcile_objects-Confined keys outside s run kept)
    where
      by_answer :
          (d f : ℕ) (r : Outcome (Unit {0})) (t : Run R C)
          → IsKept gw k ns name s t
          → IsKept gw k ns name s (answer d f (r, t)).1
      by_answer d f (ok u) t h = h
      by_answer d f (err e) t h = h
      by_answer d f panic t h = h

      by_objects :
          (r : Outcome (Unit {0})) (t : Run R C)
          → IsKept gw k ns name s t
          → IsKept gw k ns name s (after_objects (r, t)).1
      by_objects (ok u) t h =
          by_answer 30 10 (reconcile_status t).0 (reconcile_status t).1
            ((reconcile_status-Confined R local gw k ns name) s t h)
      by_objects (err e) t h = h
      by_objects panic t h = h

-- For every Gateway and every outcome, an error or a panic included, while no other client writes to the
-- cluster, if setting an owner keeps the name and the namespace, and if patching a pod and updating a
-- status change no object of these kinds: of the ConfigMaps, Secrets, Services, Ingresses,
-- HorizontalPodAutoscalers and Deployments, a reconciliation changes none but those that the Gateway
-- owns by their names, and the Gateway keeps its name, its namespace and its spec.
pub reconcile_gateway-confined :
    {R : Runtime} {C : Client}
    → KeepsKeys C
    → IsLocal C
    → (run : Run R C) (k : Kind) (ns name : String) → IsOutside run.gateway (object k ns name)
    → ((api_at C k).get ns name (reconcile_gateway run).1.cluster
        ≡ (api_at C k).get ns name run.cluster)
      × (core (reconcile_gateway run).1.gateway ≡ core run.gateway)
reconcile_gateway-confined keys local run k ns name outside =
    let (same, at) =
      reconcile_gateway-Confined _ local run.gateway k ns name keys outside run.cluster run
        (refl, refl) in
    (at, same)
