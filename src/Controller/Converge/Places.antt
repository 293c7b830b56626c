-- ===== src/Controller/Converge/Places.antt =====
-- The places of the cluster that a reconciliation reads, and what the API server promises of them.
use layer7_operator.Prelude.{ℕ, String, Bool, true, ◌≡◌, ◌≢◌, ◌&&◌, ◌==◌, not, ok, value, List, All}
use layer7_operator.Prelude.Int.{nat_eq}
use layer7_operator.Prelude.Dict.{Dict}
use layer7_operator.Prelude.Slice.{GoMap}
use layer7_operator.Kube.Meta.{ObjectMeta, CoreConfigMap, CoreSecret}
use layer7_operator.Kube.Pods.{Deployment, Pod}
use layer7_operator.Kube.Net.{CoreService, NetIngress, IngressSpec, HorizontalPodAutoscaler}
use layer7_operator.Api.Gateway.{Gateway}
use layer7_operator.Controller.Client.{Api, Client}
use layer7_operator.Controller.Leader.{get_pod_names}
use layer7_operator.Controller.Settled.{IsStore}
use layer7_operator.Controller.Repeat.Deployment.{compared_view}

pub data Kind : Type 0 where
  config_maps secrets services ingresses hpas deployments : Kind

abbrev kind_number : Kind → ℕ
kind_number config_maps = 0
kind_number secrets = 1
kind_number services = 2
kind_number ingresses = 3
kind_number hpas = 4
kind_number deployments = 5

abbrev pub Object : Kind → Type 0
Object config_maps = CoreConfigMap
Object secrets = CoreSecret
Object services = CoreService
Object ingresses = NetIngress
Object hpas = HorizontalPodAutoscaler
Object deployments = Deployment

abbrev pub meta_of : (k : Kind) → Object k → ObjectMeta
meta_of config_maps x = x.meta
meta_of secrets x = x.meta
meta_of services x = x.meta
meta_of ingresses x = x.meta
meta_of hpas x = x.meta
meta_of deployments x = x.meta

-- What the controller compares of an object of each kind that it compares by parts.
abbrev pub View : Kind → Type 0
View config_maps = GoMap String
View secrets = GoMap String
View services = Unit
View ingresses = IngressSpec
View hpas = Unit
View deployments = String × String

-- An object by its kind, namespace and name; the pods, with the management pod of the status; or nothing.
pub data Place : Type 0 where
  object : Kind → String → String → Place
  pods nowhere : Place

-- The places are not the same.
abbrev pub apart : Place → Place → Bool
apart (object k ns name) (object k' ns' name') =
    not (nat_eq (kind_number k) (kind_number k') && (ns == ns' && name == name'))
apart (object k ns name) pods = true
apart (object k ns name) nowhere = true
apart pods (object k ns name) = true
apart pods pods = Bool.false
apart pods nowhere = true
apart nowhere q = true

module _ (C : Client) where
  abbrev pub api_at : (k : Kind) → Api C.State (Object k)
  api_at config_maps = C.config_maps
  api_at secrets = C.secrets
  api_at services = C.services
  api_at ingresses = C.ingresses
  api_at hpas = C.hpas
  api_at deployments = C.deployments

  abbrev pub view_of : (k : Kind) → Object k → View k
  view_of config_maps x = x.contents
  view_of secrets x = x.contents
  view_of services x = tt
  view_of ingresses x = x.spec
  view_of hpas x = tt
  view_of deployments x = compared_view C x

  -- Every read of an object answers alike.
  abbrev pub SameAt : Place → C.State → C.State → Type 0
  SameAt (object k ns name) s s' = (api_at k).get ns name s' ≡ (api_at k).get ns name s
  SameAt pods s s' =
      (ns : String) (labels : Dict String) → C.list_pods ns labels s' ≡ C.list_pods ns labels s
  SameAt nowhere s s' = Unit

  abbrev pub SameElsewhere : (k : Kind) → Object k → C.State → C.State → Type 0
  SameElsewhere k x s s' =
      (q : Place)
      → apart (object k (meta_of k x).namespace (meta_of k x).name) q ≡ true
      → SameAt q s s'

-- The API server, while no other client writes: it stores the parts that the controller compares as they
-- are sent, a write changes the object at its own place alone, labelling a pod and updating a status
-- change no object, and a status update answers with the Gateway that was sent, up to what the
-- server sets in its metadata.
pub record IsCluster (C : Client) : Type 0 where
  pub stores : (k : Kind) → IsStore (api_at C k) (meta_of k) (view_of C k)
  pub create-elsewhere :
      (k : Kind) (x : Object k) (s s' : C.State)
      → (api_at C k).create x s ≡ (ok tt, s')
      → SameElsewhere C k x s s'
  pub update-elsewhere :
      (k : Kind) (x : Object k) (s s' : C.State)
      → (api_at C k).update x s ≡ (ok tt, s')
      → SameElsewhere C k x s s'
  pub patch_pod-objects :
      (pod : Pod) (text : String) (s s' : C.State)
      → C.patch_pod pod text s ≡ (ok tt, s')
      → (k : Kind) (ns name : String) → SameAt C (object k ns name) s s'
  pub patch_pod-names :
      (pod : Pod) (text : String) (s s' : C.State)
      → C.patch_pod pod text s ≡ (ok tt, s')
      → (ns : String) (labels : Dict String) (listed : List Pod)
      → C.list_pods ns labels s ≡ value listed
      → (listed' : List Pod) × (C.list_pods ns labels s' ≡ value listed')
        × (get_pod_names listed' ≡ get_pod_names listed)
  pub pods_named :
      (ns : String) (labels : Dict String) (s : C.State) (listed : List Pod)
      → C.list_pods ns labels s ≡ value listed
      → All (λ p. p.meta.name ≢ "") listed
  pub update_status-places :
      (gw gw' : Gateway) (s s' : C.State)
      → C.update_status gw s ≡ (ok gw', s')
      → (q : Place) → SameAt C q s s'
  pub update_status-clone :
      (gw gw' : Gateway) (s s' : C.State)
      → C.update_status gw s ≡ (ok gw', s')
      → (url : String) → C.clone url s' ≡ C.clone url s
  pub update_status-echo :
      (gw gw' : Gateway) (s s' : C.State)
      → C.update_status gw s ≡ (ok gw', s')
      → (gw'.status ≡ gw.status)
        × (gw'.spec ≡ gw.spec)
        × (gw'.meta.name ≡ gw.meta.name)
        × (gw'.meta.namespace ≡ gw.meta.namespace)
