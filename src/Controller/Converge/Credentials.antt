-- ===== src/Controller/Converge/Credentials.antt =====
-- The Secret of the gateway's environment, as a step (`Reconcile` of controller.go).
use layer7_operator.Prelude.{
  String, Bool, true, false, ◌≡◌, refl, ap, ok, ◌==◌, Bool-cases, inl, inr,
}
use layer7_operator.Api.Gateway.{Gateway}
use layer7_operator.Runtime.{Runtime}
use layer7_operator.Build.Deployment.Containers.{secret_name}
use layer7_operator.Controller.Client.{Client}
use layer7_operator.Controller.Run.{Run}
use layer7_operator.Controller.Objects.{reconcile_secret}
use layer7_operator.Controller.Reconcile.{require_secret, reconcile_credentials}
use layer7_operator.Controller.Repeat.{KeepsKeys}
use layer7_operator.Controller.Converge.Places.{Place, object, nowhere, secrets, IsCluster}
use layer7_operator.Controller.Converge.Facts.{core, Keeps, Moves, Moves-same}
use layer7_operator.Controller.Converge.Passes.{run_pass}
use layer7_operator.Controller.Converge.Instances.{secret_pass}
use layer7_operator.Controller.Converge.Steps.{
  Step, pass_step, step_of, require_step, require_secret-done,
}

-- No Secret is named, so that the operator writes its own.
abbrev pub is_own : Gateway → Bool
is_own gw = gw.spec.app.management.secret_name == ""

abbrev pub named_secret : Gateway → String
named_secret gw = gw.spec.app.management.secret_name

pub named_secret-core : (gw gw' : Gateway) → core gw' ≡ core gw → named_secret gw' ≡ named_secret gw
named_secret-core gw gw' e = ap (λ g. g.spec.app.management.secret_name) e

abbrev pub Chosen : Bool → Type 0 → Type 0 → Type 0
Chosen true S T = S
Chosen false S T = T

-- Where the Secret of the environment is read.
abbrev pub environment : Gateway → Place
environment gw = object secrets gw.meta.namespace (secret_name gw)

module _ {R : Runtime} {C : Client} (keys : KeepsKeys C) (cluster : IsCluster C) where
  pub reconcile_secret-run_pass :
      (run : Run R C) → reconcile_secret run ≡ run_pass (secret_pass R C keys) run
  unfolding reconcile_secret
  reconcile_secret-run_pass run = refl

  abbrev pub own_step : Step {R = R} {C = C} reconcile_secret
  own_step = step_of reconcile_secret-run_pass (pass_step cluster (secret_pass R C keys))

  abbrev pub named_step :
      Step {R = R} {C = C} (λ run. require_secret (named_secret run.gateway) run)
  named_step = require_step named_secret named_secret-core

  abbrev pub Holds : Run R C → Type 0
  Holds run = Chosen (is_own run.gateway) (own_step.fact.Holds run) (named_step.fact.Holds run)

  pub credentials-keep :
      (run run' : Run R C) → Keeps (environment run.gateway) run run' → Holds run → Holds run'
  unfolding secret_name
  credentials-keep run run' kept holds =
      let same : is_own run'.gateway ≡ is_own run.gateway =
        ap (λ g. g.spec.app.management.secret_name == "") kept.0 in
      elim (Bool-cases (is_own run.gateway)) [
        | inl e ↦ rw (same, e) (own_step.fact.keep run run' (rw e at kept) (rw e at holds))
        | inr e ↦ rw (same, e) (named_step.fact.keep run run' (rw e at kept) (rw e at holds))
      ]

  pub credentials-idle : (run : Run R C) → Holds run → reconcile_credentials run ≡ (ok tt, run)
  unfolding reconcile_credentials
  credentials-idle run holds = elim (Bool-cases (is_own run.gateway)) [
    | inl e ↦ rw e (own_step.idle run (rw e at holds))
    | inr e ↦ rw e (named_step.idle run (rw e at holds))
  ]

  pub credentials-done :
      (run run' : Run R C)
      → reconcile_credentials run ≡ (ok tt, run')
      → Holds run'
        × Moves (object secrets run.gateway.meta.namespace run.gateway.meta.name) run run'
  unfolding reconcile_credentials
  credentials-done run run' h = elim (Bool-cases (is_own run.gateway)) [
    | inl e ↦
        let (holds, moves) = own_step.done run run' (rw e at h) in
        let same = ap (λ g. g.spec.app.management.secret_name == "") (moves nowhere refl).0 in
        (rw (same, e) holds, moves)
    | inr e ↦
        let h' = rw e at h in
        let (holds, moves) = named_step.done run run' h' in
        let same = ap (λ g. g.spec.app.management.secret_name == "") (moves nowhere refl).0 in
        let (_, unchanged) = require_secret-done named_secret named_secret-core run run' h' in
        (
          rw (same, e) holds,
          Moves-same (object secrets run.gateway.meta.namespace run.gateway.meta.name) run run'
              unchanged,
        )
  ]

  abbrev pub credentials_step : Step {R = R} {C = C} reconcile_credentials
  credentials_step = record {
    fact = record { at = environment; Holds = Holds; keep = credentials-keep };
    writes = λ gw. object secrets gw.meta.namespace gw.meta.name;
    idle = credentials-idle;
    done = credentials-done;
  }
