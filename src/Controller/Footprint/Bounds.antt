-- ===== src/Controller/Footprint/Bounds.antt =====
-- The objects that a Gateway owns by their names, and what an API server promises of calls that may fail.
use layer7_operator.Prelude.{String, true, ◌<>◌, ◌≡◌, ok}
use layer7_operator.Kube.Pods.{Pod}
use layer7_operator.Api.Gateway.{Gateway}
use layer7_operator.Controller.Client.{Client}
use layer7_operator.Controller.Converge.Places.{
  Kind, config_maps, secrets, services, ingresses, hpas, deployments, Object, meta_of, api_at,
  Place, object, apart, SameAt,
}
use layer7_operator.Controller.Converge.Facts.{core}

-- Whether two places differ, as a type.
abbrev pub Apart : Place → Place → Type 0
Apart p q = apart p q ≡ true

-- An object that is none of the Gateway's: it differs from each object that the spec asks for.
pub record IsOutside (gw : Gateway) (p : Place) : Type 0 where
  pub gateway_map : Apart (object config_maps gw.meta.namespace gw.meta.name) p
  pub system_map : Apart (object config_maps gw.meta.namespace (gw.meta.name <> "-system")) p
  pub properties_map :
      gw.spec.app.cluster_properties.enabled ≡ true
      → Apart (object config_maps gw.meta.namespace (gw.meta.name <> "-cwp-bundle")) p
  pub ports_map :
      gw.spec.app.listen_ports.harden ≡ true
      → Apart (object config_maps gw.meta.namespace (gw.meta.name <> "-listen-port-bundle")) p
  pub secret :
      gw.spec.app.management.secret_name ≡ ""
      → Apart (object secrets gw.meta.namespace gw.meta.name) p
  pub service : Apart (object services gw.meta.namespace gw.meta.name) p
  pub management_service :
      gw.spec.app.management.service.enabled ≡ true
      → Apart (object services gw.meta.namespace (gw.meta.name <> "-management-service")) p
  pub ingress :
      gw.spec.app.ingress.enabled ≡ true → Apart (object ingresses gw.meta.namespace gw.meta.name) p
  pub hpa :
      gw.spec.app.autoscaling.enabled ≡ true → Apart (object hpas gw.meta.namespace gw.meta.name) p
  pub deployment : Apart (object deployments gw.meta.namespace gw.meta.name) p

-- The API server, while no other client writes: a call changes the object at its own place alone, whether
-- it is accepted or not, labelling a pod and updating a status change no object, and a status update
-- that is accepted answers with the name, the namespace and the spec that were sent.
pub record IsLocal (C : Client) : Type 0 where
  pub create :
      (k : Kind) (x : Object k) (s : C.State) (k' : Kind) (ns name : String)
      → Apart (object k (meta_of k x).namespace (meta_of k x).name) (object k' ns name)
      → SameAt C (object k' ns name) s ((api_at C k).create x s).1
  pub update :
      (k : Kind) (x : Object k) (s : C.State) (k' : Kind) (ns name : String)
      → Apart (object k (meta_of k x).namespace (meta_of k x).name) (object k' ns name)
      → SameAt C (object k' ns name) s ((api_at C k).update x s).1
  pub patch_pod :
      (pod : Pod) (text : String) (s : C.State) (k : Kind) (ns name : String)
      → SameAt C (object k ns name) s (C.patch_pod pod text s).1
  pub update_status :
      (gw : Gateway) (s : C.State) (k : Kind) (ns name : String)
      → SameAt C (object k ns name) s (C.update_status gw s).1
  pub answer :
      (gw gw' : Gateway) (s s' : C.State) → C.update_status gw s ≡ (ok gw', s') → core gw' ≡ core gw
