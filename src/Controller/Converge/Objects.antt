-- ===== src/Controller/Converge/Objects.antt =====
-- What holds after each call of `Reconcile` of controller.go, up to the Deployment.
use layer7_operator.Prelude.{
  String, Bool, false, ◌<>◌, ◌≡◌, ◌≢◌, refl, ap, sym, ◌∙◌, ok, true, List, [], ◌∷◌, All, arith,
  ◌==◌,
}
use layer7_operator.Prelude.Texts.{append-eq_text, append-eq_self}
use layer7_operator.Prelude.Exec.{Exec}
use layer7_operator.Api.Gateway.{Gateway}
use layer7_operator.Runtime.{Runtime}
use layer7_operator.Controller.Client.{Client}
use layer7_operator.Controller.Run.{Run}
use layer7_operator.Controller.Repeat.{KeepsKeys}
use layer7_operator.Controller.Converge.Places.{
  Kind, Place, object, nowhere, pods, apart, IsCluster,
}
use layer7_operator.Controller.Converge.Facts.{core, Fact, Moves, AllHold, AllHold-Moves}
use layer7_operator.Controller.Converge.Actions.{
  license_step, gateway_map_step, system_map_step, service_step, management_service_step,
  ingress_step, deployment_step,
}
use layer7_operator.Controller.Converge.Steps.{Step, when_step}
use layer7_operator.Controller.Converge.Asked.{properties_map, ports_map, autoscaler, there_fact}
use layer7_operator.Controller.Converge.Leader.{tag_step}
use layer7_operator.Controller.Converge.Credentials.{credentials_step}

-- Two names of one kind that differ.
pub apart-names :
    (k : Kind) (ns a b : String) → (a == b) ≡ false → apart (object k ns a) (object k ns b) ≡ true
apart-names k ns a b e = rw e (ground arith)

-- A suffix makes another name, on either side.
pub apart-suffixed :
    (k : Kind) (ns name suffix : String)
    → (suffix == "") ≡ false
    → apart (object k ns (name <> suffix)) (object k ns name) ≡ true
apart-suffixed k ns name suffix e =
    apart-names k ns (name <> suffix) name (append-eq_self name suffix ∙ e)

apart-nowhere : (p : Place) → apart p nowhere ≡ true
apart-nowhere (object k ns name) = refl
apart-nowhere pods = refl
apart-nowhere nowhere = refl

module _ {R : Runtime} {C : Client} where
  -- A step adds its fact to those at other places, and keeps the core.
  pub step_adds :
      {m : Exec (Run R C) (Unit {0})} (s : Step m) (facts : List (Fact R C)) (run run' : Run R C)
      → m run ≡ (ok tt, run')
      → All (λ (f : Fact R C). apart (s.writes run.gateway) (f.at run.gateway) ≡ true) facts
      → AllHold facts run
      → AllHold (s.fact ∷ facts) run' × (core run'.gateway ≡ core run.gateway)
  step_adds s facts run run' h others holds =
      let (holds', moves) = s.done run run' h in
      (
        (holds', AllHold-Moves (s.writes run.gateway) run run' moves facts others holds),
        (moves nowhere (apart-nowhere (s.writes run.gateway))).0,
      )

-- Two suffixes make two names.
pub apart-suffixes :
    (k : Kind) (ns name a b : String)
    → (a == b) ≡ false
    → apart (object k ns (name <> a)) (object k ns (name <> b)) ≡ true
apart-suffixes k ns name a b e =
    apart-names k ns (name <> a) (name <> b) (append-eq_text name a b ∙ e)

module _ {R : Runtime} {C : Client} where
  -- The same for a fact and the place that was written.
  pub fact_adds :
      (fact : Fact R C) (p : Place) (facts : List (Fact R C)) (run run' : Run R C)
      → fact.Holds run'
      → Moves p run run'
      → All (λ (f : Fact R C). apart p (f.at run.gateway) ≡ true) facts
      → AllHold facts run
      → AllHold (fact ∷ facts) run' × (core run'.gateway ≡ core run.gateway)
  fact_adds fact p facts run run' there moves others holds = (
    (there, AllHold-Moves p run run' moves facts others holds),
    (moves nowhere (apart-nowhere p)).0,
  )

  pub step_core :
      {m : Exec (Run R C) (Unit {0})} (s : Step m) (run run' : Run R C)
      → m run ≡ (ok tt, run')
      → core run'.gateway ≡ core run.gateway
  step_core s run run' h = (step_adds s [] run run' h tt tt).1

-- The license Secret is not the one that the operator writes.
abbrev pub IsLicensed : Gateway → Type 0
IsLicensed gw = gw.meta.name ≢ gw.spec.license.secret_name

pub IsLicensed-core : (gw gw' : Gateway) → core gw' ≡ core gw → IsLicensed gw → IsLicensed gw'
IsLicensed-core gw gw' e h =
    λ same. h (sym (ap (λ g. g.meta.name) e) ∙ same ∙ ap (λ g. g.spec.license.secret_name) e)

-- What makes a Gateway one that settles: its spec asks neither for bundles with drawn ids nor for
-- autoscaling, and its license Secret is not the one that the operator writes.
pub record IsPlain (gw : Gateway) : Type 0 where
  pub no_properties : gw.spec.app.cluster_properties.enabled ≡ false
  pub no_ports : gw.spec.app.listen_ports.harden ≡ false
  pub no_autoscaling : gw.spec.app.autoscaling.enabled ≡ false
  pub other_license : IsLicensed gw

pub IsPlain-core : (gw gw' : Gateway) → core gw' ≡ core gw → IsPlain gw → IsPlain gw'
IsPlain-core gw gw' e p = record {
  no_properties = ap (λ g. g.spec.app.cluster_properties.enabled) e ∙ p.no_properties;
  no_ports = ap (λ g. g.spec.app.listen_ports.harden) e ∙ p.no_ports;
  no_autoscaling = ap (λ g. g.spec.app.autoscaling.enabled) e ∙ p.no_autoscaling;
  other_license = IsLicensed-core gw gw' e p.other_license;
}

module _ {R : Runtime} {C : Client} (keys : KeepsKeys C) (cluster : IsCluster C) where
  -- What holds after each step.
  abbrev pub after_license : List (Fact R C)
  after_license = (license_step keys cluster).fact ∷ []

  abbrev pub after_gateway_map : List (Fact R C)
  after_gateway_map = (gateway_map_step keys cluster).fact ∷ after_license

  abbrev pub after_system_map : List (Fact R C)
  after_system_map = (system_map_step keys cluster).fact ∷ after_gateway_map

  abbrev pub after_properties : List (Fact R C)
  after_properties = there_fact properties_map ∷ after_system_map

  abbrev pub after_ports : List (Fact R C)
  after_ports = there_fact ports_map ∷ after_properties

  abbrev pub after_credentials : List (Fact R C)
  after_credentials = (credentials_step keys cluster).fact ∷ after_ports

  abbrev pub after_service : List (Fact R C)
  after_service = (service_step keys cluster).fact ∷ after_credentials

  abbrev pub after_management_service : Bool → List (Fact R C)
  after_management_service management =
      (when_step (management_service_step keys cluster) management).fact ∷ after_service

  abbrev pub after_tag : Bool → List (Fact R C)
  after_tag management =
      (when_step (tag_step cluster) management).fact ∷ after_management_service management

  abbrev pub after_ingress : Bool → Bool → List (Fact R C)
  after_ingress management ingress =
      (when_step (ingress_step keys cluster) ingress).fact ∷ after_tag management

  -- What holds after the objects, under the flags of the management Service and of the Ingress.
  abbrev pub object_facts : Bool → Bool → List (Fact R C)
  object_facts management ingress =
      (deployment_step keys cluster).fact ∷ there_fact autoscaler ∷ after_ingress management ingress
