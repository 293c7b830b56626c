-- ===== src/Controller/Converge/Isolated.antt =====
-- What a reconciliation leaves of the objects in other namespaces (`Reconcile` of controller.go).
use mathlib.Core.Path.{subst}
use layer7_operator.Controller.Objects.{reconcile_config_map}
use layer7_operator.Prelude.{
  String, true, false, ◌<>◌, ◌≡◌, ◌≢◌, refl, ap, sym, ◌∙◌, none, ok, ◌==◌, arith,
}
use layer7_operator.Prelude.Texts.{eq_false}
use layer7_operator.Prelude.Exec.{Exec, proceed-ok}
use layer7_operator.Api.Gateway.{Gateway}
use layer7_operator.Runtime.{Runtime}
use layer7_operator.Controller.Client.{Client}
use layer7_operator.Controller.Run.{Run}
use layer7_operator.Controller.Status.{update_gateway_status}
use layer7_operator.Controller.Reconcile.{
  Reply, require_secret, reconcile_config_maps, reconcile_credentials, reconcile_objects,
  reconcile_status, reconcile_gateway, reconcile_workload,
}
use layer7_operator.Controller.Repeat.{KeepsKeys}
use layer7_operator.Controller.Converge.Places.{
  Kind, config_maps, secrets, services, ingresses, deployments, object, nowhere, apart, api_at,
  SameAt, IsCluster,
}
use layer7_operator.Controller.Converge.Facts.{core}
use layer7_operator.Controller.Converge.Steps.{Step, when_step}
use layer7_operator.Controller.Converge.Leader.{tag_step}
use layer7_operator.Controller.Converge.Credentials.{credentials_step}
use layer7_operator.Controller.Converge.Actions.{
  license_step, gateway_map_step, system_map_step, service_step, management_service_step,
  ingress_step, deployment_step,
}
use layer7_operator.Controller.Converge.Objects.{IsPlain, IsPlain-core, step_core}
use layer7_operator.Controller.Converge.Published.{update_gateway_status-done}
use layer7_operator.Controller.Converge.Parts.{ended, has_management, has_ingress}
use layer7_operator.Controller.Converge.Fixpoint.{maps_split, workload_split}
use layer7_operator.Controller.Converge.Whole.{ended_well, bundles_done, has_repository}

-- A Gateway of another namespace.
abbrev pub IsForeign : String → Gateway → Type 0
IsForeign ns gw = (gw.meta.namespace == ns) ≡ false

IsForeign-core :
    (ns : String) (gw gw' : Gateway) → core gw' ≡ core gw → IsForeign ns gw → IsForeign ns gw'
IsForeign-core ns gw gw' e h = ap (λ g. g.meta.namespace == ns) e ∙ h

pub object-apart :
    (ns : String) (gw : Gateway)
    → IsForeign ns gw
    → (k' : Kind) (name' : String) (k : Kind) (name : String)
    → apart (object k' gw.meta.namespace name') (object k ns name) ≡ true
object-apart ns gw h k' name' k name = rw h (ground arith)

module _ {R : Runtime} {C : Client} (ns : String) where
  -- All objects of the namespace are read as before.
  abbrev Isolated : Run R C → Run R C → Type 0
  Isolated run run' =
      ((k : Kind) (name : String) → SameAt C (object k ns name) run.cluster run'.cluster)
      × (core run'.gateway ≡ core run.gateway)

  Isolated-trans : (a b c : Run R C) → Isolated a b → Isolated b c → Isolated a c
  Isolated-trans a b c (p, e) (q, e') = (λ k name. q k name ∙ p k name, e' ∙ e)

  -- A step that writes at no place of the namespace.
  Isolated-step :
      {m : Exec (Run R C) (Unit {0})} (s : Step m) (run run' : Run R C)
      → ((k : Kind) (name : String) → apart (s.writes run.gateway) (object k ns name) ≡ true)
      → m run ≡ (ok tt, run')
      → Isolated run run'
  Isolated-step s run run' away h =
      let moves = (s.done run run' h).1 in
      (λ k name. (moves (object k ns name) (away k name)).1, step_core s run run' h)

  -- One more such step.
  Isolated-next :
      {m : Exec (Run R C) (Unit {0})} (s : Step m) (run a b : Run R C)
      → IsForeign ns run.gateway
      → ((gw : Gateway)
          → IsForeign ns gw
          → (k : Kind) (name : String) → apart (s.writes gw) (object k ns name) ≡ true)
      → Isolated run a
      → m a ≡ (ok tt, b)
      → Isolated run b
  Isolated-next s run a b foreign away before h = Isolated-trans run a b before (
      Isolated-step s a b
        (away a.gateway (IsForeign-core ns run.gateway a.gateway before.1 foreign)) h)

module _ {R : Runtime} {C : Client} (keys : KeepsKeys C) (cluster : IsCluster C) (ns : String) where
  workload-Isolated :
      (run run' : Run R C)
      → IsPlain run.gateway
      → IsForeign ns run.gateway
      → reconcile_workload run ≡ (ok tt, run')
      → Isolated ns run run'
  workload-Isolated run run' plain foreign h =
      let (t₁, t₂, t₃, t₄, w₁, w₂, w₃, w₄, w₅) = workload_split keys cluster run run' plain h in
      let management = has_management run.gateway in
      let i₁ =
        Isolated-step ns (service_step keys cluster) run t₁
          (object-apart ns run.gateway foreign services run.gateway.meta.name) w₁ in
      let i₂ =
        Isolated-next ns (when_step (management_service_step keys cluster) management) run t₁ t₂
          foreign (λ gw f. object-apart ns gw f services (gw.meta.name <> "-management-service")) i₁
          w₂ in
      let i₃ =
        Isolated-next ns (when_step (tag_step cluster) management) run t₂ t₃ foreign
          (λ gw f k name. refl) i₂ w₃ in
      let i₄ =
        Isolated-next ns (when_step (ingress_step keys cluster) (has_ingress run.gateway)) run t₃ t₄
          foreign (λ gw f. object-apart ns gw f ingresses gw.meta.name) i₃ w₄ in
      Isolated-next ns (deployment_step keys cluster) run t₄ run' foreign
        (λ gw f. object-apart ns gw f deployments gw.meta.name) i₄ w₅

  objects-Isolated :
      (run run' : Run R C)
      → IsPlain run.gateway
      → IsForeign ns run.gateway
      → reconcile_objects run ≡ (ok tt, run')
      → Isolated ns run run'
  unfolding reconcile_objects
  objects-Isolated run run' plain foreign h =
      let lic : Exec (Run R C) (Unit {0}) = require_secret run.gateway.spec.license.secret_name in
      let s₁ : Run R C = (lic run).1 in
      let s₃ : Run R C = (reconcile_config_maps s₁).1 in
      let s₄ : Run R C = (reconcile_credentials s₃).1 in
      let (_, e₁, h₁) = proceed-ok (lic run).0 s₁ run' _ h in
      let (_, e₂, h₂) = proceed-ok (reconcile_config_maps s₁).0 s₃ run' _ h₁ in
      let (_, e₃, h₃) = proceed-ok (reconcile_credentials s₃).0 s₄ run' _ h₂ in
      let i₁ =
        Isolated-step ns (license_step keys cluster) run s₁ (λ k name. refl) (ended lic run e₁) in
      let plain₁ = IsPlain-core run.gateway s₁.gateway i₁.1 plain in
      let (s₂, m₁, m₂) = maps_split keys cluster s₁ s₃ plain₁ (ended reconcile_config_maps s₁ e₂) in
      let i₂ =
        Isolated-next ns (gateway_map_step keys cluster) run s₁ s₂ foreign
          (λ gw f. object-apart ns gw f config_maps gw.meta.name) i₁ m₁ in
      let m₂' =
        subst (λ n. reconcile_config_map (n <> "-system") s₂ ≡ (ok tt, s₃))
          (sym (ap (λ g. g.meta.name) (i₂.1 ∙ sym i₁.1))) m₂ in
      let i₃ =
        Isolated-next ns (system_map_step keys cluster) run s₂ s₃ foreign
          (λ gw f. object-apart ns gw f config_maps (gw.meta.name <> "-system")) i₂ m₂' in
      let i₄ =
        Isolated-next ns (credentials_step keys cluster) run s₃ s₄ foreign
          (λ gw f. object-apart ns gw f secrets gw.meta.name) i₃
          (ended reconcile_credentials s₃ e₃) in
      let plain₄ = IsPlain-core run.gateway s₄.gateway i₄.1 plain in
      Isolated-trans ns run s₄ run' i₄ (
        workload-Isolated s₄ run' plain₄ (IsForeign-core ns run.gateway s₄.gateway i₄.1 foreign) h₃)

  statuses-Isolated :
      (run run' : Run R C) → reconcile_status run ≡ (ok tt, run') → Isolated ns run run'
  unfolding reconcile_status
  statuses-Isolated run run' h =
      let s : Run R C = (update_gateway_status run).1 in
      let (_, e, rest) = proceed-ok (update_gateway_status run).0 s run' _ h in
      let (r, moves) =
        update_gateway_status-done cluster run s (ended update_gateway_status run e) in
      let (_, moves') = bundles_done cluster (has_repository s.gateway) s run' r rest in
      Isolated-trans ns run s run'
        (λ k name. (moves (object k ns name) refl).1, (moves nowhere refl).0)
        (λ k name. (moves' (object k ns name) refl).1, (moves' nowhere refl).0)

-- For a plain Gateway, while no other client writes to the cluster, and if setting an owner keeps the name and
-- the namespace: a reconciliation that reports no error changes no object in another namespace than
-- that of the Gateway: each read of a ConfigMap, a Secret, a Service, an Ingress, a
-- HorizontalPodAutoscaler or a Deployment there answers as before.
pub reconcile_gateway-isolated :
    {R : Runtime} {C : Client}
    → KeepsKeys C
    → IsCluster C
    → (run run' : Run R C) (reply : Reply) (ns : String) → IsPlain run.gateway
    → run.gateway.meta.namespace ≢ ns
    → reply.error ≡ none
    → reconcile_gateway run ≡ (ok reply, run')
    → (k : Kind) (name : String)
    → (api_at C k).get ns name run'.cluster ≡ (api_at C k).get ns name run.cluster
reconcile_gateway-isolated keys cluster run run' reply ns plain other no_error h =
    let (s, objects, statuses) = ended_well run run' reply no_error h in
    let foreign = eq_false run.gateway.meta.namespace ns other in
    (Isolated-trans ns run s run' (objects-Isolated keys cluster ns run s plain foreign objects)
      (statuses-Isolated keys cluster ns s run' statuses)).0
