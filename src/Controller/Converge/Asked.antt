-- ===== src/Controller/Converge/Asked.antt =====
-- The objects that are asked for by a flag and written at every reconciliation: the ConfigMaps with drawn
-- ids, and the HorizontalPodAutoscaler.
use mathlib.Core.Path.{subst}
use layer7_operator.Prelude.{String, Bool, true, false, ◌<>◌, ◌≡◌, refl, ap, sym, ◌∙◌, none, ok}
use layer7_operator.Prelude.Exec.{Exec}
use layer7_operator.Api.Gateway.{Gateway}
use layer7_operator.Runtime.{Runtime}
use layer7_operator.Controller.Client.{Client}
use layer7_operator.Controller.Run.{Run, is_not_found, when}
use layer7_operator.Controller.Converge.Places.{
  Kind, config_maps, hpas, api_at, Place, object, nowhere, SameAt, IsCluster,
}
use layer7_operator.Controller.Converge.Facts.{core, Fact, Moves, Moves-same}
use layer7_operator.Controller.Converge.Steps.{HoldsIf, HoldsIf-map}
use layer7_operator.Controller.Converge.Writes.{Made}

-- An object that is asked for by a flag, and written at every reconciliation.
pub record Asked : Type 0 where
  pub kind : Kind
  pub flag : Gateway → Bool
  pub name : Gateway → String
  pub flag-core : (gw gw' : Gateway) → core gw' ≡ core gw → flag gw' ≡ flag gw
  pub name-core : (gw gw' : Gateway) → core gw' ≡ core gw → name gw' ≡ name gw

abbrev pub properties_map : Asked
properties_map = record {
  kind = config_maps;
  flag = λ gw. gw.spec.app.cluster_properties.enabled;
  name = λ gw. gw.meta.name <> "-cwp-bundle";
  flag-core = λ gw gw' e. ap (λ g. g.spec.app.cluster_properties.enabled) e;
  name-core = λ gw gw' e. ap (λ g. g.meta.name <> "-cwp-bundle") e;
}

abbrev pub ports_map : Asked
ports_map = record {
  kind = config_maps;
  flag = λ gw. gw.spec.app.listen_ports.harden;
  name = λ gw. gw.meta.name <> "-listen-port-bundle";
  flag-core = λ gw gw' e. ap (λ g. g.spec.app.listen_ports.harden) e;
  name-core = λ gw gw' e. ap (λ g. g.meta.name <> "-listen-port-bundle") e;
}

abbrev pub autoscaler : Asked
autoscaler = record {
  kind = hpas;
  flag = λ gw. gw.spec.app.autoscaling.enabled;
  name = λ gw. gw.meta.name;
  flag-core = λ gw gw' e. ap (λ g. g.spec.app.autoscaling.enabled) e;
  name-core = λ gw gw' e. ap (λ g. g.meta.name) e;
}

abbrev pub asked_at : Asked → Gateway → Place
asked_at a gw = object a.kind gw.meta.namespace (a.name gw)

abbrev pub IsThere : (C : Client) → Asked → Gateway → C.State → Type 0
IsThere C a gw s = is_not_found ((api_at C a.kind).get gw.meta.namespace (a.name gw) s) ≡ none

pub IsThere-core :
    (C : Client) (a : Asked) (gw gw' : Gateway) (s s' : C.State)
    → core gw' ≡ core gw
    → SameAt C (asked_at a gw) s s'
    → IsThere C a gw s
    → IsThere C a gw' s'
IsThere-core C a gw gw' s s' e same there =
    ap is_not_found
      ((λ i. (api_at C a.kind).get (e i).meta.namespace (a.name-core gw gw' e i) s') ∙ same)
    ∙ there

module _ {R : Runtime} {C : Client} (a : Asked) where
  -- Where the flag is set, the object is there.
  abbrev pub there_fact : Fact R C
  there_fact = record {
    at = asked_at a;
    Holds = λ run. HoldsIf (a.flag run.gateway) (IsThere C a run.gateway run.cluster);
    keep = λ run run' kept holds.
        subst (λ b. HoldsIf b (IsThere C a run'.gateway run'.cluster))
          (sym (a.flag-core run.gateway run'.gateway kept.0))
          (HoldsIf-map (a.flag run.gateway)
            (IsThere-core C a run.gateway run'.gateway run.cluster run'.cluster kept.0 kept.1)
            holds);
  }

  module _ (cluster : IsCluster C) (m : Exec (Run R C) (Unit {0})) (run run' : Run R C) where
    by_flag :
        (m run ≡ (ok tt, run')
          → Made cluster a.kind run.gateway.meta.namespace (a.name run.gateway) run run')
        → (b : Bool) → a.flag run.gateway ≡ b
        → when b m run ≡ (ok tt, run')
        → there_fact.Holds run' × Moves (asked_at a run.gateway) run run'
    by_flag made true e h =
        let (there, moves) = made h in
        let same = (moves nowhere refl).0 in
        (
          rw (a.flag-core run.gateway run'.gateway same, e)
              (IsThere-core C a run.gateway run'.gateway run'.cluster run'.cluster same refl there),
          moves,
        )
    by_flag made false e h =
        let same : run ≡ run' = λ i. (h i).1 in
        (
          rw (ap (λ (r : Run R C). a.flag r.gateway) (sym same), e) tt,
          Moves-same (asked_at a run.gateway) run run' same,
        )

    -- A pass under the flag leaves that fact, and changes that place at most.
    pub when-Made :
        (m run ≡ (ok tt, run')
          → Made cluster a.kind run.gateway.meta.namespace (a.name run.gateway) run run')
        → when (a.flag run.gateway) m run ≡ (ok tt, run')
        → there_fact.Holds run' × Moves (asked_at a run.gateway) run run'
    when-Made made h = by_flag made (a.flag run.gateway) refl h
