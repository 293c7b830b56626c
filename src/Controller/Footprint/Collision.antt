-- ===== src/Controller/Footprint/Collision.antt =====
-- Two Gateways of one namespace whose ConfigMaps have one name (`Reconcile` of controller.go and
-- pkg/gateway/config/config.go).
use layer7_operator.Prelude.{
  value, ok, ◌<>◌, ◌≡◌, refl, ap, sym, ◌∙◌, String, Option, none, some, [], Bool-cases, inl, inr,
  arith,
}
use layer7_operator.Prelude.Dict.{Dict, lookup, insert}
use layer7_operator.Prelude.Slice.{GoMap}
use layer7_operator.Api.Gateway.{Gateway}
use layer7_operator.Runtime.{Runtime}
use layer7_operator.Build.Config.{gateway_entries}
use layer7_operator.Controller.Client.{Client}
use layer7_operator.Controller.Run.{Run, found_or}
use layer7_operator.Controller.Zero.{zero_config_map}
use layer7_operator.Controller.Reconcile.{Reply, reconcile}
use layer7_operator.Controller.Repeat.{KeepsKeys}
use layer7_operator.Controller.Converge.Places.{IsCluster}
use layer7_operator.Controller.Converge.Objects.{IsLicensed}
use layer7_operator.Controller.Converge.Stored.{StoresGateways}
use layer7_operator.Controller.Converge.Resumed.{reconcile-IsDesired}
use layer7_operator.Controller.Converge.Desired.{AnswersAs, IsDesired}

-- The environment of a gateway has no entry for the system properties.
gateway_entries-no_system :
    (R : Runtime) (gw : Gateway) → lookup "system.properties" (gateway_entries R gw) ≡ none
unfolding gateway_entries
gateway_entries-no_system R gw = elim (Bool-cases gw.spec.app.management.database.enabled) [
  | inl d ↦ elim (Bool-cases gw.spec.app.hazelcast.external) [
    | inl e ↦ rw (d, e) refl
    | inr e ↦ rw (d, e) refl
  ]
  | inr d ↦ elim (Bool-cases gw.spec.app.hazelcast.external) [
    | inl e ↦ rw (d, e) refl
    | inr e ↦ rw (d, e) refl
  ]
]

abbrev lookup_in : String → GoMap String → Option String
lookup_in k none = none
lookup_in k (some d) = lookup k d

-- A map that answers as another one.
answers-lookup :
    (wanted : Dict String) (contents : GoMap String)
    → AnswersAs wanted contents
    → (k : String) → lookup_in k contents ≡ lookup k wanted
answers-lookup wanted contents (d, e, same) k = ap (lookup_in k) e ∙ same k

-- The data of a ConfigMap, as a read fills them in.
abbrev read_map : (C : Client) → String → String → C.State → GoMap String
read_map C ns name s = (found_or zero_config_map (C.config_maps.get ns name s)).contents

-- No state of the cluster is the one that is wanted for both.
IsDesired-collides :
    (R : Runtime) (C : Client) (gw gw' : Gateway) (s : C.State)
    → gw'.meta.namespace ≡ gw.meta.namespace
    → gw'.meta.name ≡ gw.meta.name <> "-system"
    → ¬ (IsDesired R C gw s × IsDesired R C gw' s)
IsDesired-collides R C gw gw' s ns_eq name_eq (wanted, wanted') =
    let one =
      answers-lookup (insert "system.properties" gw.spec.app.system.properties [])
        (read_map C gw.meta.namespace (gw.meta.name <> "-system") s) wanted.system_map.1
        "system.properties" in
    let other =
      answers-lookup (gateway_entries R gw') (read_map C gw'.meta.namespace gw'.meta.name s)
        wanted'.gateway_map.1 "system.properties" in
    let same : lookup_in "system.properties" (read_map C gw'.meta.namespace gw'.meta.name s)
        ≡ lookup_in "system.properties"
            (read_map C gw.meta.namespace (gw.meta.name <> "-system") s) =
      λ i. lookup_in "system.properties" (read_map C (ns_eq i) (name_eq i) s) in
    let clash : some gw.spec.app.system.properties ≡ none =
      sym one ∙ sym same ∙ other ∙ gateway_entries-no_system R gw' in
    ground arith

-- If two Gateways stand in one namespace, and one is named as the other with "-system" behind it: after a
-- request for the other one that reports no error, the cluster does not hold what is built of the
-- first, since its ConfigMap has been written over. The license Secret is not the one that the operator
-- writes, setting an owner keeps the name and the namespace, and no other client writes.
pub reconcile-collides :
    {R : Runtime} {C : Client}
    → KeepsKeys C
    → IsCluster C
    → StoresGateways C
    → (ns name : String) (gw gw' : Gateway) (run run' : Run R C) (reply : Reply)
    → C.get_gateway ns name run.cluster ≡ value gw
    → IsLicensed gw
    → reply.error ≡ none
    → reconcile ns name run ≡ (ok reply, run')
    → gw'.meta.namespace ≡ gw.meta.namespace
    → gw'.meta.name ≡ gw.meta.name <> "-system"
    → ¬ IsDesired R C gw' run'.cluster
reconcile-collides {R} {C} keys cluster server ns name gw gw' run run' reply found licensed no_error
      h ns_eq name_eq wanted' =
    let (_, _, wanted, same) =
      reconcile-IsDesired keys cluster server ns name gw run run' reply found licensed no_error h in
    IsDesired-collides R C run'.gateway gw' run'.cluster
      (ns_eq ∙ ap (λ g. g.meta.namespace) (sym same))
      (name_eq ∙ ap (λ g. g.meta.name <> "-system") (sym same)) (wanted, wanted')
