-- ===== src/Controller/Converge/Writes.antt =====
-- The objects that are written at every reconciliation: the ConfigMaps with drawn ids, and the
-- HorizontalPodAutoscaler. What their passes leave alone, and what they leave there.
use mathlib.Core.Path.{subst, subst₂}
use layer7_operator.Prelude.{
  String, Bool, true, false, ◌≡◌, refl, ap, sym, Option, none, some, not, Result, value, failure,
  not_found, Error, ok, if◌then◌else◌,
}
use layer7_operator.Prelude.Slice.{map_equal}
use layer7_operator.Prelude.Exec.{proceed-ok}
use layer7_operator.Kube.Meta.{CoreConfigMap}
use layer7_operator.Runtime.{Runtime}
use layer7_operator.Build.Config.{new_config_map}
use layer7_operator.Build.Hpa.{new_hpa}
use layer7_operator.Controller.Client.{Client}
use layer7_operator.Controller.Equality.{hpa_equal}
use layer7_operator.Controller.Run.{Run, is_not_found, on_cluster}
use layer7_operator.Controller.Zero.{zero_config_map, zero_hpa}
use layer7_operator.Controller.Objects.{
  create_or_update, write_if, reconcile_config_map, reconcile_hpa,
}
use layer7_operator.Controller.Repeat.{KeepsKeys}
use layer7_operator.Controller.Converge.Places.{
  Kind, config_maps, hpas, Object, meta_of, api_at, Place, object, pods, nowhere, apart, SameAt,
  SameElsewhere, IsCluster,
}
use layer7_operator.Controller.Converge.Facts.{Moves, Moves-gateway, Moves-same}
use layer7_operator.Controller.Converge.Passes.{HasKey}
use layer7_operator.Controller.Converge.Instances.{owned-StandsAt}
use layer7_operator.Controller.Footprint.Objects.{new_config_map-StandsAt}

-- An object that is to be written, if any, stands at that namespace and name.
abbrev KeyIf : (k : Kind) → Option (Object k) → String → String → Type 0
KeyIf k none ns name = Unit
KeyIf k (some x) ns name = HasKey k x ns name

key_if :
    (k : Kind) (b : Bool) (x : Object k) (ns name : String)
    → HasKey k x ns name
    → KeyIf k (if b then some x else none) ns name
key_if k true x ns name h = h
key_if k false x ns name h = tt

module _ {R : Runtime} {C : Client} (cluster : IsCluster C) (k : Kind) (ns name : String) where
  -- The object is there, and nothing else has changed.
  abbrev pub Made : Run R C → Run R C → Type 0
  Made run run' =
      (is_not_found ((api_at C k).get ns name run'.cluster) ≡ none)
      × Moves (object k ns name) run run'

  Made-write :
      (x y : Object k) (run run' : Run R C)
      → HasKey k x ns name
      → run'.gateway ≡ run.gateway
      → (api_at C k).get (meta_of k x).namespace (meta_of k x).name run'.cluster ≡ value y
      → SameElsewhere C k x run.cluster run'.cluster
      → Made run run'
  Made-write x y run run' (ns_eq, name_eq) same found elsewhere = (
    ap is_not_found
        (subst₂ (λ n m. (api_at C k).get n m run'.cluster ≡ value y) ns_eq name_eq found),
    Moves-gateway (object k ns name) run run' same (
        subst₂
          (λ n m. (q : Place) → apart (object k n m) q ≡ true → SameAt C q run.cluster run'.cluster)
          ns_eq name_eq elsewhere),
  )

  Made-plan :
      (o : Option (Object k)) (run run' : Run R C)
      → KeyIf k o ns name
      → is_not_found ((api_at C k).get ns name run.cluster) ≡ none
      → write_if {R = R} {C = C} (api_at C k).update o run ≡ (ok tt, run')
      → Made run run'
  Made-plan none run run' key there h =
      let same : run ≡ run' = λ i. (h i).1 in
      (
        subst (λ (r : Run R C). is_not_found ((api_at C k).get ns name r.cluster) ≡ none) same
            there,
        Moves-same (object k ns name) run run' same,
      )
  Made-plan (some x) run run' key there h =
      let step : (api_at C k).update x run.cluster ≡ (ok tt, run'.cluster) =
        λ i. ((h i).0, (h i).1.cluster) in
      let (y, found, _) = (cluster.stores k).get-update x run.cluster run'.cluster step in
      Made-write x y run run' key (ap (λ r. r.1.gateway) (sym h)) found
        (cluster.update-elsewhere k x run.cluster run'.cluster step)

  create_or_update-Made :
      (zero_value fresh : Object k) (plan : Object k → Option (Object k)) (run run' : Run R C)
      → HasKey k fresh ns name
      → ((curr : Object k) → KeyIf k (plan curr) ns name)
      → create_or_update {R = R}
          (api_at C k)
          ((api_at C k).get ns name run.cluster)
          zero_value
          fresh
          plan
          run
        ≡ (ok tt, run')
      → Made run run'
  create_or_update-Made zero_value fresh plan run run' key keys h =
      by_read ((api_at C k).get ns name run.cluster) refl
    where
      by_read :
          (got : Result (Object k)) → (api_at C k).get ns name run.cluster ≡ got → Made run run'
      by_read (value curr) e =
          Made-plan (plan curr) run run' (keys curr) (ap is_not_found e) (rw e at h)
      by_read (failure (not_found x)) e =
          let sent : on_cluster ((api_at C k).create fresh) run ≡ (ok tt, run') = rw e at h in
          let step : (api_at C k).create fresh run.cluster ≡ (ok tt, run'.cluster) =
            λ i. ((sent i).0, (sent i).1.cluster) in
          let (y, found, _) = (cluster.stores k).get-create fresh run.cluster run'.cluster step in
          Made-write fresh y run run' key (ap (λ r. r.1.gateway) (sym sent)) found
            (cluster.create-elsewhere k fresh run.cluster run'.cluster step)
      by_read (failure (Error.other x)) e =
          Made-plan (plan zero_value) run run' (keys zero_value) (ap is_not_found e) (rw e at h)

-- Drawing random bytes changes no place.
Moves-entropy :
    {R : Runtime} {C : Client} (p : Place) (run run' : Run R C) (e : R.Entropy)
    → Moves p (record run { entropy = e }) run'
    → Moves p run run'
Moves-entropy p run run' e moves (object k ns name) other = moves (object k ns name) other
Moves-entropy p run run' e moves pods other = moves pods other
Moves-entropy p run run' e moves nowhere other = moves nowhere other

module _ {R : Runtime} {C : Client} (keys : KeepsKeys C) (cluster : IsCluster C) where
  -- Any ConfigMap, by its name.
  pub reconcile_config_map-Made :
      (name : String) (run run' : Run R C)
      → reconcile_config_map name run ≡ (ok tt, run')
      → Made cluster config_maps run.gateway.meta.namespace name run run'
  unfolding reconcile_config_map
  reconcile_config_map-Made name run run' h =
      let gw = run.gateway in
      let built = new_config_map R gw name run.entropy in
      let left : Run R C = record run { entropy = built.1 } in
      let (cm, made, rest) = proceed-ok built.0 left run' _ h in
      let mine : CoreConfigMap = record cm { meta = C.set_controller_reference gw cm.meta } in
      let key =
        owned-StandsAt R C keys gw cm.meta name
          (new_config_map-StandsAt R gw name run.entropy cm made) in
      let (there, moves) =
        create_or_update-Made cluster config_maps gw.meta.namespace name zero_config_map mine
          (λ curr. if not (map_equal curr.contents cm.contents) then some mine else none) left run'
          key
          (λ curr.
            key_if config_maps (not (map_equal curr.contents cm.contents)) mine gw.meta.namespace
              name key)
          rest in
      (there, Moves-entropy (object config_maps gw.meta.namespace name) run run' built.1 moves)

  pub reconcile_hpa-Made :
      (run run' : Run R C)
      → reconcile_hpa run ≡ (ok tt, run')
      → Made cluster hpas run.gateway.meta.namespace run.gateway.meta.name run run'
  unfolding reconcile_hpa new_hpa
  reconcile_hpa-Made run run' h =
      let gw = run.gateway in
      let hpa = new_hpa gw in
      let mine : Object hpas = record hpa { meta = C.set_controller_reference gw hpa.meta } in
      let key = owned-StandsAt R C keys gw hpa.meta gw.meta.name (refl, refl) in
      create_or_update-Made cluster hpas gw.meta.namespace gw.meta.name zero_hpa mine
        (λ curr. if not (hpa_equal curr hpa) then some mine else none) run run' key
        (λ curr. key_if hpas (not (hpa_equal curr hpa)) mine gw.meta.namespace gw.meta.name key) h
