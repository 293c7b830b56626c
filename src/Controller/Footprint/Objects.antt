-- ===== src/Controller/Footprint/Objects.antt =====
-- The functions of controller.go over one object write at one place.
use layer7_operator.Prelude.{
  String, Bool, true, false, ◌≡◌, refl, ap, sym, ◌∙◌, Outcome, ok, err, panic, Option, none, some,
  not, Result, value, failure, not_found, Error, if◌then◌else◌,
}
use layer7_operator.Prelude.Slice.{map_equal}
use layer7_operator.Prelude.Exec.{Exec, proceed, proceed-ok}
use layer7_operator.Kube.Meta.{ObjectMeta, CoreConfigMap}
use layer7_operator.Api.Gateway.{Gateway}
use layer7_operator.Runtime.{Runtime}
use layer7_operator.Build.Config.{config_entries, new_config_map}
use layer7_operator.Build.Hpa.{new_hpa}
use layer7_operator.Controller.Client.{Client}
use layer7_operator.Controller.Equality.{hpa_equal}
use layer7_operator.Controller.Run.{Run}
use layer7_operator.Controller.Zero.{zero_config_map, zero_hpa}
use layer7_operator.Controller.Objects.{
  create_or_update, write_if, reconcile_config_map, reconcile_hpa,
}
use layer7_operator.Controller.Repeat.{KeepsKeys}
use layer7_operator.Controller.Converge.Places.{
  Kind, config_maps, hpas, Object, meta_of, api_at, Place, object, apart,
}
use layer7_operator.Controller.Converge.Facts.{core}
use layer7_operator.Controller.Converge.Cores.{StandsAt}
use layer7_operator.Controller.Converge.Instances.{owned-StandsAt}
use layer7_operator.Controller.Converge.Passes.{Pass, run_pass, place_of, plan_of, read_at}
use layer7_operator.Controller.Footprint.Bounds.{Apart, IsLocal}
use layer7_operator.Controller.Footprint.Confined.{IsKept, Confined, on_cluster-Confined}

-- The object stands at another place.
abbrev IsAway : Place → (k : Kind) → Object k → Type 0
IsAway p k x = Apart (object k (meta_of k x).namespace (meta_of k x).name) p

abbrev AwayIf : Place → (k : Kind) → Option (Object k) → Type 0
AwayIf p k none = Unit
AwayIf p k (some x) = IsAway p k x

away_if :
    (p : Place) (k : Kind) (b : Bool) (x : Object k)
    → IsAway p k x
    → AwayIf p k (if b then some x else none)
away_if p k true x h = h
away_if p k false x h = tt

-- An object of the Gateway, or of one with the same core.
key-IsAway :
    (p : Place) (k : Kind) (gw g : Gateway) (m : ObjectMeta) (n n' : String)
    → core g ≡ core gw
    → StandsAt m g n
    → n ≡ n'
    → Apart (object k gw.meta.namespace n') p
    → Apart (object k m.namespace m.name) p
key-IsAway p k gw g m n n' e (ns_eq, name_eq) same h =
    (λ i. apart (object k ((ns_eq ∙ ap (λ x. x.meta.namespace) e) i) ((name_eq ∙ same) i)) p) ∙ h

abbrev meta_or : ObjectMeta → Outcome CoreConfigMap → ObjectMeta
meta_or m (ok x) = x.meta
meta_or m (err e) = m
meta_or m panic = m

-- A ConfigMap that is built has the name that was asked for.
pub new_config_map-StandsAt :
    (R : Runtime) (g : Gateway) (n : String) (e : R.Entropy) (cm : CoreConfigMap)
    → (new_config_map R g n e).0 ≡ ok cm
    → StandsAt cm.meta g n
unfolding new_config_map
new_config_map-StandsAt R g n e cm h =
    let (d, _, made) =
      proceed-ok (config_entries R g n e).0 (config_entries R g n e).1 (new_config_map R g n e).1 _
        (λ i. (h i, (new_config_map R g n e).1)) in
    (
      sym (ap (λ r. (meta_or cm.meta r.0).namespace) made),
      sym (ap (λ r. (meta_or cm.meta r.0).name) made),
    )

module _ (R : Runtime) {C : Client} (local : IsLocal C) (gw : Gateway) (k : Kind)
    (ns name : String) where
  module _ (k' : Kind) where
    create_or_update-Confined :
        (got : Result (Object k')) (zero_value fresh : Object k')
        (plan : Object k' → Option (Object k'))
        → IsAway (object k ns name) k' fresh
        → ((curr : Object k') → AwayIf (object k ns name) k' (plan curr))
        → Confined {R = R} {C = C} gw k ns name
            (create_or_update (api_at C k') got zero_value fresh plan)
    create_or_update-Confined got zero_value fresh plan away plan_away s run kept = by_read got
      where
        by_plan :
            (x : Option (Object k'))
            → AwayIf (object k ns name) k' x
            → IsKept gw k ns name s (write_if (api_at C k').update x run).1
        by_plan none h = kept
        by_plan (some x) h =
            on_cluster-Confined gw k ns name ((api_at C k').update x)
              (λ t. local.update k' x t k ns name h) s run kept

        by_read :
            (got : Result (Object k'))
            → IsKept gw k ns name s (create_or_update (api_at C k') got zero_value fresh plan run).1
        by_read (value x) = by_plan (plan x) (plan_away x)
        by_read (failure (not_found x)) =
            on_cluster-Confined gw k ns name ((api_at C k').create fresh)
              (λ t. local.create k' fresh t k ns name away) s run kept
        by_read (failure (Error.other x)) = by_plan (plan zero_value) (plan_away zero_value)

  pub run_pass-Confined :
      (p : Pass C)
      → Apart (place_of p gw) (object k ns name)
      → Confined {R = R} {C = C} gw k ns name (run_pass p)
  run_pass-Confined p h s run kept =
      let g = run.gateway in
      let same = p.name-core gw g kept.0 in
      create_or_update-Confined p.kind (read_at p g run.cluster) p.zero_value (p.fresh g)
        (plan_of p g)
        (key-IsAway (object k ns name) p.kind gw g (meta_of p.kind (p.fresh g)) (p.name g)
          (p.name gw) kept.0 (p.fresh-key g) same h)
        (λ curr. away_if (object k ns name) p.kind (p.differs g curr) (p.revise g curr) (
          key-IsAway (object k ns name) p.kind gw g (meta_of p.kind (p.revise g curr)) (p.name g)
            (p.name gw) kept.0 (p.revise-key g curr) same h))
        s run kept

  module _ (keys : KeepsKeys C) where
    pub reconcile_hpa-Confined :
        Apart (object hpas gw.meta.namespace gw.meta.name) (object k ns name)
        → Confined {R = R} {C = C} gw k ns name reconcile_hpa
    unfolding reconcile_hpa new_hpa
    reconcile_hpa-Confined h s run kept =
        let g = run.gateway in
        let hpa = new_hpa g in
        let mine : Object hpas = record hpa { meta = C.set_controller_reference g hpa.meta } in
        let away : IsAway (object k ns name) hpas mine =
          key-IsAway (object k ns name) hpas gw g mine.meta g.meta.name gw.meta.name kept.0
            (owned-StandsAt R C keys g hpa.meta g.meta.name (refl, refl))
            (ap (λ x. x.meta.name) kept.0) h in
        create_or_update-Confined hpas (C.hpas.get g.meta.namespace g.meta.name run.cluster)
          zero_hpa mine (λ curr. if not (hpa_equal curr hpa) then some mine else none) away
          (λ curr. away_if (object k ns name) hpas (not (hpa_equal curr hpa)) mine away) s run kept

    pub reconcile_config_map-Confined :
        (n : String)
        → Apart (object config_maps gw.meta.namespace n) (object k ns name)
        → Confined {R = R} {C = C} gw k ns name (reconcile_config_map n)
    unfolding reconcile_config_map
    reconcile_config_map-Confined n h s run kept =
        by_built (new_config_map R run.gateway n run.entropy).0
          (new_config_map-StandsAt R run.gateway n run.entropy)
      where
        g : Gateway
        g = run.gateway

        left : Run R C
        left = record run { entropy = (new_config_map R g n run.entropy).1 }

        write : CoreConfigMap → Exec (Run R C) (Unit {0})
        write cm =
            let mine : CoreConfigMap = record cm { meta = C.set_controller_reference g cm.meta } in
            create_or_update C.config_maps (C.config_maps.get g.meta.namespace n run.cluster)
              zero_config_map mine
              (λ curr. if not (map_equal curr.contents cm.contents) then some mine else none)

        by_built :
            (r : Outcome CoreConfigMap)
            → ((cm : CoreConfigMap) → r ≡ ok cm → StandsAt cm.meta g n)
            → IsKept gw k ns name s (proceed r left write).1
        by_built (ok cm) at =
            let mine : Object config_maps = record cm {
              meta = C.set_controller_reference g cm.meta;
            } in
            let away : IsAway (object k ns name) config_maps mine =
              key-IsAway (object k ns name) config_maps gw g mine.meta n n kept.0
                (owned-StandsAt R C keys g cm.meta n (at cm refl)) refl h in
            create_or_update-Confined config_maps (C.config_maps.get g.meta.namespace n run.cluster)
              zero_config_map mine
              (λ curr. if not (map_equal curr.contents cm.contents) then some mine else none) away
              (λ curr.
                away_if (object k ns name) config_maps (not (map_equal curr.contents cm.contents))
                  mine away)
              s left kept
        by_built (err e) at = kept
        by_built panic at = kept
