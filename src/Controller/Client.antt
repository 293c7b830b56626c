-- ===== src/Controller/Client.antt =====
-- What the controller uses of the cluster and of libraries: the API client of controller-runtime, the
-- JSON encoder and go-git. The state is the cluster's, as the client sees it.
use layer7_operator.Prelude.{String, Result, Option, List}
use layer7_operator.Prelude.Dict.{Dict}
use layer7_operator.Prelude.Exec.{Exec}
use layer7_operator.Kube.Meta.{ObjectMeta, CoreConfigMap, CoreSecret}
use layer7_operator.Kube.Pods.{Container, Deployment, Pod}
use layer7_operator.Kube.Net.{CoreService, NetIngress, HorizontalPodAutoscaler}
use layer7_operator.Api.Gateway.{Gateway}

-- The objects of one kind: `Get` by namespace and name, `Create` and `Update`.
pub record Api (S A : Type 0) : Type 0 where
  pub get : String → String → S → Result A
  pub create : A → Exec S (Unit {0})
  pub update : A → Exec S (Unit {0})

pub record Client : Type 1 where
  pub State : Type 0
  pub get_gateway : String → String → State → Result Gateway
  pub config_maps : Api State CoreConfigMap
  pub secrets : Api State CoreSecret
  pub services : Api State CoreService
  pub ingresses : Api State NetIngress
  pub hpas : Api State HorizontalPodAutoscaler
  pub deployments : Api State Deployment
  -- `List` of pods, in a namespace and with labels
  pub list_pods : String → Dict String → State → Result (List Pod)
  -- `Patch` of a pod by the text of a strategic merge patch
  pub patch_pod : Pod → String → Exec State (Unit {0})
  -- `Status().Update`, which fills in the object that the server answers with
  pub update_status : Gateway → Exec State Gateway
  -- `ctrl.SetControllerReference`, whose error the controller ignores
  pub set_controller_reference : Gateway → ObjectMeta → ObjectMeta
  -- `json.Marshal` of a list of containers
  pub marshal_containers : List Container → String
  -- go-git: `git.Clone` into memory, `Head` (`none` is the nil reference that goes with an error),
  -- and the hash of the commit object at a hash
  pub Repo : Type 0
  pub clone : String → State → Result Repo
  pub head : Repo → Option String
  pub commit_object : Repo → String → Result String
