-- ===== src/Controller/Repeat/ConfigMap.antt =====
-- A second reconciliation of a ConfigMap (`reconcileConfigMap` of controller.go).
use mathlib.Core.Path.{subst}
use layer7_operator.Prelude.{
  String, Bool, ◌≡◌, refl, sym, ◌∙◌, ok, some, none, not, ◌<>◌, if◌then◌else◌, ◌⊎◌, inl, inr, [],
  ap,
}
use layer7_operator.Prelude.Dict.{Dict, insert, NodupKeys}
use layer7_operator.Prelude.Slice.{map_equal}
use layer7_operator.Prelude.Exec.{Exec, pure}
use layer7_operator.Prelude.Equality.{dict_equal_refl}
use layer7_operator.Kube.Meta.{CoreConfigMap}
use layer7_operator.Api.Gateway.{Gateway}
use layer7_operator.Labels.{default_labels}
use layer7_operator.Runtime.{Runtime}
use layer7_operator.Build.Config.{config_entries, new_config_map, gateway_entries}
use layer7_operator.Build.Config.Entries.{
  config_entries-gateway, config_entries-system, gateway_entries-NodupKeys,
}
use layer7_operator.Controller.Client.{Client}
use layer7_operator.Controller.Zero.{zero_config_map}
use layer7_operator.Controller.Run.{Run}
use layer7_operator.Controller.Objects.{reconcile_config_map, create_or_update}
use layer7_operator.Controller.Settled.{IsStore, pass_settled, gateway-create_or_update}
use layer7_operator.Controller.Repeat.{KeepsKeys, own_pass_settled}

module _ (R : Runtime) (C : Client) (name : String) (entries : Gateway → Dict String) where
  abbrev pub map_of : Gateway → CoreConfigMap
  map_of gw = record {
    type_meta = record { api_version = "v1"; kind = "ConfigMap" };
    meta = C.set_controller_reference gw (record {
      name = name;
      namespace = gw.meta.namespace;
      labels = some (default_labels gw);
      annotations = none;
      owner_references = [];
      resource_version = "";
    });
    contents = some (entries gw);
  }

  abbrev pub map_differs : Gateway → CoreConfigMap → Bool
  map_differs gw curr = not (map_equal curr.contents (some (entries gw)))

  abbrev pub map_pass : Gateway → Exec (Run R C) (Unit {0})
  map_pass gw run =
      create_or_update C.config_maps (C.config_maps.get gw.meta.namespace name run.cluster)
        zero_config_map (map_of gw) (λ curr. if map_differs gw curr then some (map_of gw) else none)
        run

  -- Where nothing is drawn for the entries, the reconciliation is a pass over that ConfigMap.
  pub reconcile_config_map-map_pass :
      (run : Run R C)
      → config_entries R run.gateway name ≡ pure (entries run.gateway)
      → reconcile_config_map name run ≡ map_pass run.gateway run
  unfolding reconcile_config_map new_config_map
  reconcile_config_map-map_pass run fixed = rw fixed refl

  map_pass_settled :
      KeepsKeys C
      → IsStore C.config_maps (λ x. x.meta) (λ x. x.contents)
      → (run run' : Run R C) → NodupKeys (entries run.gateway)
      → config_entries R run.gateway name ≡ pure (entries run.gateway)
      → reconcile_config_map name run ≡ (ok tt, run')
      → reconcile_config_map name run' ≡ (ok tt, run')
  map_pass_settled keys store run run' nodup fixed h =
      reconcile_config_map-map_pass run'
        (subst (λ g. config_entries R g name ≡ pure (entries g)) (sym kept) fixed)
      ∙ own_pass_settled map_pass run run' left first again
    where
      gw : Gateway
      gw = run.gateway

      first : map_pass gw run ≡ (ok tt, run')
      first = sym (reconcile_config_map-map_pass run fixed) ∙ h

      left : (map_pass gw run).1.gateway ≡ gw
      left =
          gateway-create_or_update C.config_maps
            (C.config_maps.get gw.meta.namespace name run.cluster) zero_config_map (map_of gw)
            (λ curr. if map_differs gw curr then some (map_of gw) else none) run

      kept : run'.gateway ≡ gw
      kept = ap (λ r. r.1.gateway) (sym first) ∙ left

      again : map_pass gw run' ≡ (ok tt, run')
      again =
          pass_settled C.config_maps (λ x. x.meta) (λ x. x.contents) store gw.meta.namespace name
            zero_config_map (map_of gw) (keys.namespace gw _) (keys.name gw _) (map_differs gw)
            (λ _. map_of gw) (λ y e. rw (e, dict_equal_refl (entries gw) nodup) refl)
            (λ y. (keys.namespace gw _, keys.name gw _, refl)) run run' first

module _ {R : Runtime} {C : Client} (keys : KeepsKeys C) where
  -- After a reconciliation of the Gateway's own ConfigMap, or of the one of its system properties, that
  -- returns no error, the next one returns no error and changes nothing, if the server stores a
  -- ConfigMap's data as sent, and setting an owner keeps the name and the namespace.
  pub reconcile_config_map_settled :
      IsStore C.config_maps (λ x. x.meta) (λ x. x.contents)
      → (name : String) (run run' : Run R C)
      → (name ≡ run.gateway.meta.name) ⊎ (name ≡ run.gateway.meta.name <> "-system")
      → reconcile_config_map name run ≡ (ok tt, run')
      → reconcile_config_map name run' ≡ (ok tt, run')
  reconcile_config_map_settled store name run run' (inl own) h =
      map_pass_settled R C name (gateway_entries R) keys store run run'
        (gateway_entries-NodupKeys R run.gateway)
        (ap (config_entries R run.gateway) own ∙ config_entries-gateway R run.gateway) h
  reconcile_config_map_settled store name run run' (inr system) h =
      map_pass_settled R C name (λ gw. insert "system.properties" gw.spec.app.system.properties [])
        keys store run run' (refl, tt)
        (ap (config_entries R run.gateway) system ∙ config_entries-system R run.gateway) h
