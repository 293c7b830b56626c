-- ===== src/Controller/Converge/Mapped.antt =====
-- The calls over the ConfigMaps (`Reconcile` of controller.go), on a cluster that accepts what it is sent.
use mathlib.Core.Path.{subst}
use layer7_operator.Prelude.{Bool, true, ◌<>◌, ◌≡◌, refl, ap, sym, ◌∙◌, [], ◌∷◌, ok, not}
use layer7_operator.Prelude.Exec.{Exec, proceed, ◌>>◌}
use layer7_operator.Runtime.{Runtime}
use layer7_operator.Controller.Client.{Client}
use layer7_operator.Controller.Run.{Run, when}
use layer7_operator.Controller.Objects.{reconcile_config_map}
use layer7_operator.Controller.Reconcile.{reconcile_config_maps}
use layer7_operator.Controller.Repeat.{KeepsKeys}
use layer7_operator.Controller.Converge.Places.{nowhere, IsCluster, config_maps, apart}
use layer7_operator.Controller.Converge.Facts.{core, Fact, AllHold-Moves}
use layer7_operator.Controller.Converge.Instances.{gateway_map_pass, system_map_pass}
use layer7_operator.Controller.Converge.Actions.{
  gateway_map-run_pass, system_map-run_pass, gateway_map_step, system_map_step,
}
use layer7_operator.Controller.Converge.Credentials.{named_step}
use layer7_operator.Controller.Converge.Steps.{fact_if}
use layer7_operator.Api.Gateway.{Gateway}
use layer7_operator.Controller.Returns.{IsSafe}
use layer7_operator.Controller.Converge.Asked.{
  Asked, properties_map, ports_map, asked_at, when-Made,
}
use layer7_operator.Controller.Converge.Writes.{Made, reconcile_config_map-Made}
use layer7_operator.Controller.Converge.Drawn.{reconcile_config_map-Ends}
use layer7_operator.Controller.Converge.Objects.{step_adds}
use layer7_operator.Controller.Converge.Parts.{ended}
use layer7_operator.Controller.Converge.Obedient.{IsObedient, Ends, when-Ends, run_pass-Ends}

pub then-ended :
    {R : Runtime} {C : Client} (m k : Exec (Run R C) (Unit {0})) (run s s' : Run R C)
    → m run ≡ (ok tt, s)
    → k s ≡ (ok tt, s')
    → (m >> k) run ≡ (ok tt, s')
then-ended m k run s s' e h = ap (λ r. proceed r.0 r.1 (λ _. k)) e ∙ h

-- The libraries are safe, where the spec asks for bundles with drawn ids.
abbrev pub IsSafeFor : Runtime → Gateway → Type 0
IsSafeFor R gw =
    (gw.spec.app.cluster_properties.enabled ≡ true → IsSafe R)
    × (gw.spec.app.listen_ports.harden ≡ true → IsSafe R)

module _ {R : Runtime} {C : Client} (keys : KeepsKeys C) (cluster : IsCluster C)
    (obedient : IsObedient C) where
  map-Ends : (run : Run R C) → Ends (reconcile_config_map run.gateway.meta.name) run
  map-Ends run =
      ap (λ r. r.0) (gateway_map-run_pass keys run)
      ∙ run_pass-Ends obedient (gateway_map_pass R C keys) run

  system-Ends :
      (run : Run R C) → Ends (reconcile_config_map (run.gateway.meta.name <> "-system")) run
  system-Ends run =
      ap (λ r. r.0) (system_map-run_pass keys run)
      ∙ run_pass-Ends obedient (system_map_pass R C keys) run

  -- The Secret of the credentials, where the spec names one.
  abbrev pub named_fact : Bool → Fact R C
  named_fact own = fact_if (named_step keys cluster) (not own)

  module _ (own : Bool) (gw : Gateway) where
    -- The call ends well, and leaves the Secret of the credentials and the Gateway.
    abbrev Passes : Exec (Run R C) (Unit {0}) → Run R C → Type 0
    Passes m s =
        (s' : Run R C) × (m s ≡ (ok tt, s'))
        × (named_fact own).Holds s'
        × (core s'.gateway ≡ core gw)

    then-Passes :
        (m k : Exec (Run R C) (Unit {0})) (s : Run R C)
        → Passes m s
        → ((s' : Run R C) → (named_fact own).Holds s' → core s'.gateway ≡ core gw → Passes k s')
        → Passes (m >> k) s
    then-Passes m k s (s', e, here, same) rest =
        let (s'', e', here', same') = rest s' here same in
        (s'', then-ended m k s s' s'' e e', here', same')

    gateway_map-Passes :
        (s : Run R C)
        → (named_fact own).Holds s
        → core s.gateway ≡ core gw
        → Passes (reconcile_config_map gw.meta.name) s
    gateway_map-Passes s here same =
        let m = reconcile_config_map s.gateway.meta.name in
        let e = ended m s (map-Ends s) in
        let (facts, kept) =
          step_adds (gateway_map_step keys cluster) (named_fact own ∷ []) s (m s).1 e (refl, tt)
            (here, tt) in
        ((m s).1, (λ i. reconcile_config_map (sym same i).meta.name s) ∙ e, facts.1.0, kept ∙ same)

    system_map-Passes :
        (s : Run R C)
        → (named_fact own).Holds s
        → core s.gateway ≡ core gw
        → Passes (reconcile_config_map (gw.meta.name <> "-system")) s
    system_map-Passes s here same =
        let m = reconcile_config_map (s.gateway.meta.name <> "-system") in
        let e = ended m s (system-Ends s) in
        let (facts, kept) =
          step_adds (system_map_step keys cluster) (named_fact own ∷ []) s (m s).1 e (refl, tt)
            (here, tt) in
        (
          (m s).1,
          (λ i. reconcile_config_map ((sym same i).meta.name <> "-system") s) ∙ e,
          facts.1.0,
          kept ∙ same,
        )

    -- The ConfigMap of a bundle with drawn ids, where the spec asks for it.
    bundle_map-Passes :
        (a : Asked)
        → config_maps ≡ a.kind
        → ((g : Gateway) → apart (asked_at a g) ((named_fact own).at g) ≡ true)
        → (a.flag gw ≡ true → IsSafe R)
        → (s : Run R C) → (named_fact own).Holds s
        → core s.gateway ≡ core gw
        → Passes (when (a.flag gw) (reconcile_config_map (a.name gw))) s
    bundle_map-Passes a is_map other safe s here same =
        let g = s.gateway in
        let m = reconcile_config_map (a.name g) in
        let call : Exec (Run R C) (Unit {0}) = when (a.flag g) m in
        let e = ended call s (
          when-Ends (a.flag g) m s (λ set.
            reconcile_config_map-Ends obedient (safe (sym (a.flag-core gw g same) ∙ set)) (a.name g)
              s)) in
        let (_, moves) =
          when-Made a cluster m s (call s).1
            (λ made.
              subst (λ k. Made cluster k g.meta.namespace (a.name g) s (call s).1) is_map
                (reconcile_config_map-Made keys cluster (a.name g) s (call s).1 made))
            e in
        let facts =
          AllHold-Moves (asked_at a g) s (call s).1 moves (named_fact own ∷ []) (other g, tt)
            (here, tt) in
        (
          (call s).1,
          sym (λ i.
                when (a.flag-core gw g same i) (reconcile_config_map (a.name-core gw g same i)) s)
              ∙ e,
          facts.0,
          (moves nowhere refl).0 ∙ same,
        )

  -- The ConfigMaps, after which the Secret of the credentials is still there.
  pub reconcile_config_maps-Passes :
      (own : Bool) (run : Run R C)
      → IsSafeFor R run.gateway
      → (named_fact own).Holds run
      → Passes own run.gateway reconcile_config_maps run
  unfolding reconcile_config_maps
  reconcile_config_maps-Passes own run safe here =
      let gw = run.gateway in
      let cwp : Exec (Run R C) (Unit {0}) =
        when gw.spec.app.cluster_properties.enabled
          (reconcile_config_map (gw.meta.name <> "-cwp-bundle")) in
      let ports : Exec (Run R C) (Unit {0}) =
        when gw.spec.app.listen_ports.harden
          (reconcile_config_map (gw.meta.name <> "-listen-port-bundle")) in
      let system = reconcile_config_map (gw.meta.name <> "-system") in
      then-Passes own gw (reconcile_config_map gw.meta.name) (system >> (cwp >> ports)) run
        (gateway_map-Passes own gw run here refl)
        (λ s₁ here₁ same₁.
          then-Passes own gw system (cwp >> ports) s₁ (system_map-Passes own gw s₁ here₁ same₁)
            (λ s₂ here₂ same₂.
              then-Passes own gw cwp ports s₂
                (bundle_map-Passes own gw properties_map refl (λ g. refl) safe.0 s₂ here₂ same₂)
                (bundle_map-Passes own gw ports_map refl (λ g. refl) safe.1)))
