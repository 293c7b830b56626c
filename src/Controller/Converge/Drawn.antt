-- ===== src/Controller/Converge/Drawn.antt =====
-- The objects that are written at every reconciliation, on a cluster that accepts what it is sent.
use layer7_operator.Prelude.{String, some, none, not, if◌then◌else◌}
use layer7_operator.Prelude.Slice.{map_equal}
use layer7_operator.Kube.Meta.{CoreConfigMap}
use layer7_operator.Runtime.{Runtime}
use layer7_operator.Build.Config.{new_config_map}
use layer7_operator.Build.Hpa.{new_hpa}
use layer7_operator.Controller.Client.{Client}
use layer7_operator.Controller.Equality.{hpa_equal}
use layer7_operator.Controller.Run.{Run}
use layer7_operator.Controller.Zero.{zero_config_map, zero_hpa}
use layer7_operator.Controller.Objects.{reconcile_config_map, reconcile_hpa}
use layer7_operator.Controller.Returns.{IsSafe}
use layer7_operator.Controller.Returns.Bundles.{new_config_map-ok}
use layer7_operator.Controller.Converge.Places.{config_maps, hpas, Object}
use layer7_operator.Controller.Converge.Obedient.{IsObedient, Ends, create_or_update-Ends}

module _ {R : Runtime} {C : Client} (obedient : IsObedient C) where
  pub reconcile_hpa-Ends : (run : Run R C) → Ends reconcile_hpa run
  unfolding reconcile_hpa
  reconcile_hpa-Ends run =
      let gw = run.gateway in
      let hpa = new_hpa gw in
      let mine : Object hpas = record hpa { meta = C.set_controller_reference gw hpa.meta } in
      create_or_update-Ends obedient hpas (C.hpas.get gw.meta.namespace gw.meta.name run.cluster)
        zero_hpa mine (λ curr. if not (hpa_equal curr hpa) then some mine else none) run

  -- A ConfigMap of any name, as the errors of its builder are ignored.
  pub reconcile_config_map-Ends :
      IsSafe R → (name : String) (run : Run R C) → Ends (reconcile_config_map name) run
  unfolding reconcile_config_map
  reconcile_config_map-Ends safe name run =
      let gw = run.gateway in
      let (cm, made) = new_config_map-ok safe gw name run.entropy in
      let left : Run R C = record run { entropy = (new_config_map R gw name run.entropy).1 } in
      let mine : CoreConfigMap = record cm { meta = C.set_controller_reference gw cm.meta } in
      rw made (
        create_or_update-Ends obedient config_maps
          (C.config_maps.get gw.meta.namespace name run.cluster) zero_config_map mine
          (λ curr. if not (map_equal curr.contents cm.contents) then some mine else none) left)
