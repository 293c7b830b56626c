-- ===== src/Tests/Cluster.antt =====
-- A cluster in memory, which answers a read with what was last written.
use mathlib.Core.Path.{subst}
use layer7_operator.Prelude.{
  String, Bool, true, false, ◌≡◌, refl, ap, arith, Option, none, some, List, [], ◌∷◌, ◌<>◌, ok,
  value, failure, not_found, Result, ◌==◌, ◌&&◌, if◌then◌else◌, eq_refl,
}
use layer7_operator.Kube.Meta.{ObjectMeta, CoreConfigMap, CoreSecret}
use layer7_operator.Kube.Pods.{Container, Deployment, Pod}
use layer7_operator.Kube.Net.{CoreService, NetIngress, HorizontalPodAutoscaler}
use layer7_operator.Api.Gateway.{Gateway}
use layer7_operator.Controller.Client.{Api, Client}
use layer7_operator.Controller.Settled.{IsStore}
use layer7_operator.Controller.Repeat.{KeepsKeys}
use layer7_operator.Controller.Leader.Elected.{EchoesStatus}
use layer7_operator.Controller.Converge.Stored.{read_back}
use layer7_operator.Tests.Sample.{sample_meta}

pub record Cluster : Type 0 where
  pub gateways : List Gateway
  pub config_maps : List CoreConfigMap
  pub secrets : List CoreSecret
  pub services : List CoreService
  pub ingresses : List NetIngress
  pub hpas : List HorizontalPodAutoscaler
  pub deployments : List Deployment
  pub pods : List Pod

module _ {A : Type 0} (meta : A → ObjectMeta) where
  abbrev pub find : String → String → List A → Result A
  find ns name [] = failure (not_found name)
  find ns name (x ∷ xs) =
      if (meta x).namespace == ns && (meta x).name == name then value x else find ns name xs

  module _ (all : Cluster → List A) (set : List A → Cluster → Cluster) where
    abbrev pub api_of : Api Cluster A
    api_of = record {
      get = λ ns name s. find ns name (all s);
      create = λ x s. (ok tt, set (x ∷ all s) s);
      update = λ x s. (ok tt, set (x ∷ all s) s);
    }

    -- The object that was written is found at its own place alone.
    pub get-elsewhere :
        (x : A) (ns name : String) (s : Cluster)
        → ((xs : List A) → all (set xs s) ≡ xs)
        → ((meta x).namespace == ns && (meta x).name == name) ≡ false
        → find ns name (all (set (x ∷ all s) s)) ≡ find ns name (all s)
    get-elsewhere x ns name s back other = rw (back, other) refl

    -- The set is read back, so that what was written last is found.
    pub api_of-IsStore :
        {V : Type 0} (view : A → V)
        → ((xs : List A) (s : Cluster) → all (set xs s) ≡ xs)
        → IsStore api_of meta view
    api_of-IsStore view back = record {
      get-create = λ x s s' e. (x, written x s s' (ap (λ r. r.1) e), refl);
      get-update = λ x s s' e. (x, written x s s' (ap (λ r. r.1) e), refl);
    }
      where
        written :
            (x : A) (s s' : Cluster)
            → set (x ∷ all s) s ≡ s'
            → find (meta x).namespace (meta x).name (all s') ≡ value x
        written x s s' e =
            subst (λ c. find (meta x).namespace (meta x).name (all c) ≡ value x) e
              (rw (back, eq_refl, eq_refl) refl)

-- The lists of the objects, replaced.
abbrev pub set_config_maps : List CoreConfigMap → Cluster → Cluster
set_config_maps xs s = record s { config_maps = xs }

abbrev pub set_secrets : List CoreSecret → Cluster → Cluster
set_secrets xs s = record s { secrets = xs }

abbrev pub set_services : List CoreService → Cluster → Cluster
set_services xs s = record s { services = xs }

abbrev pub set_ingresses : List NetIngress → Cluster → Cluster
set_ingresses xs s = record s { ingresses = xs }

abbrev pub set_hpas : List HorizontalPodAutoscaler → Cluster → Cluster
set_hpas xs s = record s { hpas = xs }

abbrev pub set_deployments : List Deployment → Cluster → Cluster
set_deployments xs s = record s { deployments = xs }

abbrev marshal : List Container → String
marshal [] = ""
marshal (c ∷ cs) = c.image <> marshal cs

-- A pod that has started.
abbrev pub add_started : Pod → Option String → List Pod → List Pod
add_started pod none rest = rest
add_started pod (some t) rest = pod ∷ rest

-- The pods that have a name, as every pod of a cluster has, and have started.
abbrev pub listed_pods : List Pod → List Pod
listed_pods [] = []
listed_pods (pod ∷ pods) =
    let rest = listed_pods pods in
    if pod.meta.name == "" then rest else add_started pod pod.start_time rest

-- What the server keeps of a Gateway.
abbrev pub as_read : Gateway → Gateway
as_read gw = record gw { status = read_back gw.status }

abbrev pub sample_client : Client
sample_client = record {
  State = Cluster;
  get_gateway = λ ns name s. find (λ g. g.meta) ns name s.gateways;
  config_maps = api_of (λ x. x.meta) (λ s. s.config_maps) set_config_maps;
  secrets = api_of (λ x. x.meta) (λ s. s.secrets) set_secrets;
  services = api_of (λ x. x.meta) (λ s. s.services) set_services;
  ingresses = api_of (λ x. x.meta) (λ s. s.ingresses) set_ingresses;
  hpas = api_of (λ x. x.meta) (λ s. s.hpas) set_hpas;
  deployments = api_of (λ x. x.meta) (λ s. s.deployments) set_deployments;
  list_pods = λ ns labels s. value (listed_pods s.pods);
  patch_pod = λ pod text s. (ok tt, s);
  update_status = λ gw s. (ok gw, record s { gateways = as_read gw ∷ s.gateways });
  set_controller_reference = λ gw m. record m { owner_references = gw.meta.name ∷ [] };
  marshal_containers = marshal;
  Repo = String;
  clone = λ url s. value url;
  head = some;
  commit_object = λ repo head. value head;
}

pub sample_client-KeepsKeys : KeepsKeys sample_client
sample_client-KeepsKeys = record { name = λ gw m. refl; namespace = λ gw m. refl }

pub sample_client-EchoesStatus : EchoesStatus sample_client
sample_client-EchoesStatus = record { status = λ gw gw' s s' e. ground arith }

abbrev pub empty_cluster : Cluster
empty_cluster = record {
  gateways = [];
  config_maps = [];
  secrets = [];
  services = [];
  ingresses = [];
  hpas = [];
  deployments = [];
  pods = [];
}

abbrev pub sample_pod : String → Bool → Option String → Pod
sample_pod name ready started = record {
  meta = sample_meta name;
  phase = "Running";
  container_statuses =
      record { image = "busybox"; ready = true }
      ∷ record { image = "gateway:10.1.00"; ready = ready }
      ∷ [];
  start_time = started;
}
