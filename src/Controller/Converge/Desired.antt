-- ===== src/Controller/Converge/Desired.antt =====
-- What the cluster holds after a reconciliation (controller.go and the builders).
use mathlib.Core.Bool.{false≢true}
use layer7_operator.Prelude.{
  String, Bool, true, false, ◌<>◌, ◌≡◌, refl, sym, none, some, Result, [], ok, not, arith,
}
use layer7_operator.Prelude.Dict.{Dict, lookup, insert}
use layer7_operator.Prelude.Slice.{GoMap, map_equal}
use layer7_operator.Prelude.Equality.{dict_equal-lookup}
use layer7_operator.Api.Gateway.{Gateway}
use layer7_operator.Runtime.{Runtime}
use layer7_operator.Build.Config.{gateway_entries}
use layer7_operator.Build.Deployment.{new_deployment}
use layer7_operator.Build.Ingress.{new_ingress}
use layer7_operator.Build.Secret.{new_secret}
use layer7_operator.Controller.Client.{Client}
use layer7_operator.Controller.Equality.{ingress_spec_equal}
use layer7_operator.Controller.Run.{Run, is_not_found, found_or}
use layer7_operator.Controller.Reconcile.{Reply, reconcile_gateway}
use layer7_operator.Controller.Zero.{zero_config_map, zero_secret, zero_ingress, zero_deployment}
use layer7_operator.Controller.Repeat.{KeepsKeys}
use layer7_operator.Controller.Repeat.Deployment.{compared_view, view-needs_update}
use layer7_operator.Controller.Converge.Places.{IsCluster}
use layer7_operator.Controller.Converge.Credentials.{is_own, named_secret, Chosen}
use layer7_operator.Controller.Converge.Objects.{IsLicensed}
use layer7_operator.Controller.Converge.Asked.{properties_map, ports_map, autoscaler, IsThere}
use layer7_operator.Controller.Converge.Facts.{core}
use layer7_operator.Controller.Converge.Steps.{HoldsIf}
use layer7_operator.Controller.Converge.Status.{IsReported}
use layer7_operator.Controller.Converge.Parts.{has_management, has_ingress}
use layer7_operator.Controller.Converge.Fixpoint.{Facts}
use layer7_operator.Controller.Converge.Whole.{after_well}

-- An object is there, and what a read of it fills in is as it should be. An error other than "not found"
-- fills in nothing.
abbrev pub Stands : {A : Type 0} → Result A → A → (A → Type 0) → Type 0
Stands got zero_value IsRight = (is_not_found got ≡ none) × IsRight (found_or zero_value got)

-- A map that answers as the given one.
abbrev pub AnswersAs : Dict String → GoMap String → Type 0
AnswersAs wanted contents =
    (d : Dict String) × (contents ≡ some d) × ((k : String) → lookup k d ≡ lookup k wanted)

-- The cluster holds what the builders make of the Gateway in the parts that the controller compares: the
-- entries of the two ConfigMaps, the JSON of the containers and the service account of the
-- Deployment, the spec of the Ingress and the data of the operator's own Secret. Of the other objects
-- that the spec asks for, a read does not answer "not found".
pub record IsDesired (R : Runtime) (C : Client) (gw : Gateway) (s : C.State) : Type 0 where
  pub gateway_map :
      Stands
        (C.config_maps.get gw.meta.namespace gw.meta.name s)
        zero_config_map
        (λ cm. AnswersAs (gateway_entries R gw) cm.contents)
  pub system_map :
      Stands
        (C.config_maps.get gw.meta.namespace (gw.meta.name <> "-system") s)
        zero_config_map
        (λ cm. AnswersAs (insert "system.properties" gw.spec.app.system.properties []) cm.contents)
  pub deployment :
      Stands
        (C.deployments.get gw.meta.namespace gw.meta.name s)
        zero_deployment
        (λ d. compared_view C d ≡ compared_view C (new_deployment gw))
  pub service : is_not_found (C.services.get gw.meta.namespace gw.meta.name s) ≡ none
  pub license : is_not_found (C.secrets.get gw.meta.namespace gw.spec.license.secret_name s) ≡ none
  pub management_service :
      has_management gw ≡ true
      → is_not_found (C.services.get gw.meta.namespace (gw.meta.name <> "-management-service") s)
        ≡ none
  pub ingress :
      has_ingress gw ≡ true
      → Stands
          (C.ingresses.get gw.meta.namespace gw.meta.name s)
          zero_ingress
          (λ i. ingress_spec_equal i.spec (new_ingress gw).spec ≡ true)
  pub own_secret :
      is_own gw ≡ true
      → Stands
          (C.secrets.get gw.meta.namespace gw.meta.name s)
          zero_secret
          (λ x. map_equal x.contents (new_secret gw).contents ≡ true)
  pub named_secret :
      is_own gw ≡ false → is_not_found (C.secrets.get gw.meta.namespace (named_secret gw) s) ≡ none
  pub properties_there :
      gw.spec.app.cluster_properties.enabled ≡ true → IsThere C properties_map gw s
  pub ports_there : gw.spec.app.listen_ports.harden ≡ true → IsThere C ports_map gw s
  pub hpa_there : gw.spec.app.autoscaling.enabled ≡ true → IsThere C autoscaler gw s

not-false : (b : Bool) → not b ≡ false → b ≡ true
not-false b e = ground arith

same_answers :
    (contents : GoMap String) (wanted : Dict String)
    → not (map_equal contents (some wanted)) ≡ false
    → AnswersAs wanted contents
same_answers none wanted h = ground arith
same_answers (some d) wanted h = (d, refl, dict_equal-lookup d wanted (not-false _ h))

-- What holds in one of two cases, and what holds under a flag.
when-true : (b : Bool) {T : Type 0} → HoldsIf b T → b ≡ true → T
when-true true h e = h
when-true false h e = absurd (false≢true e)

chosen-true : (b : Bool) (S T : Type 0) → Chosen b S T → b ≡ true → S
chosen-true true S T h e = h
chosen-true false S T h e = absurd (false≢true e)

chosen-false : (b : Bool) (S T : Type 0) → Chosen b S T → b ≡ false → T
chosen-false false S T h e = h
chosen-false true S T h e = absurd (false≢true (sym e))

module _ {R : Runtime} {C : Client} (keys : KeepsKeys C) (cluster : IsCluster C) where
  Facts-IsDesired : (run : Run R C) → Facts keys cluster run → IsDesired R C run.gateway run.cluster
  Facts-IsDesired run (d, (h, (i, (t, (m, (s, (k, (p, (c, (y, (g, (l, _)))))))))))) = record {
    gateway_map = (g.0, same_answers _ _ g.1);
    system_map = (y.0, same_answers _ _ y.1);
    deployment = (d.0, view-needs_update R C run.gateway _ d.1);
    service = s.0;
    license = l;
    management_service = λ e. (when-true (has_management run.gateway) m e).0;
    ingress = λ e.
        let (there, same) = when-true (has_ingress run.gateway) i e in (there, not-false _ same);
    own_secret = λ e.
        let (there, same) = chosen-true (is_own run.gateway) _ _ k e in (there, not-false _ same);
    named_secret = λ e. chosen-false (is_own run.gateway) _ _ k e;
    properties_there = λ e. when-true (properties_map.flag run.gateway) c e;
    ports_there = λ e. when-true (ports_map.flag run.gateway) p e;
    hpa_there = λ e. when-true (autoscaler.flag run.gateway) h e;
  }

  -- After a reconciliation that reports no error, the compared parts of the objects are as built, and the
  -- status in memory is the one that is wanted.
  pub reconcile_gateway-IsDesired :
      (run run' : Run R C) (reply : Reply)
      → IsLicensed run.gateway
      → reply.error ≡ none
      → reconcile_gateway run ≡ (ok reply, run')
      → IsDesired R C run'.gateway run'.cluster
        × IsReported run'
        × (core run'.gateway ≡ core run.gateway)
  reconcile_gateway-IsDesired run run' reply licensed no_error h =
      let (facts, (reported, _), same) =
        after_well keys cluster run run' reply licensed no_error h in
      (Facts-IsDesired run' facts, reported, same)
