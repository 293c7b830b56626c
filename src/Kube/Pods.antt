-- ===== src/Kube/Pods.antt =====
-- Containers, volumes, pods and Deployments.
use layer7_operator.Prelude.{String, Bool, Option, List}
use layer7_operator.Prelude.Int.{ℤ}
use layer7_operator.Prelude.Dict.{Dict}
use layer7_operator.Prelude.Slice.{Slice, GoMap}
use layer7_operator.Kube.Meta.{Raw, TypeMeta, ObjectMeta}

pub record KeyToPath : Type 0 where
  pub path : String
  pub key : String

pub record SecretVolumeSource : Type 0 where
  pub secret_name : String
  pub entries : List KeyToPath
  pub default_mode : Option ℤ
  pub optional : Option Bool

pub record ConfigMapVolumeSource : Type 0 where
  pub name : String
  pub entries : List KeyToPath
  pub default_mode : Option ℤ
  pub optional : Option Bool

pub record CsiVolumeSource : Type 0 where
  pub driver : String
  pub read_only : Option Bool
  pub volume_attributes : Dict String

pub data VolumeSource : Type 0 where
  secret : SecretVolumeSource → VolumeSource
  config_map : ConfigMapVolumeSource → VolumeSource
  empty_dir : VolumeSource
  csi : CsiVolumeSource → VolumeSource

pub record Volume : Type 0 where
  pub name : String
  pub source : VolumeSource

pub record VolumeMount : Type 0 where
  pub name : String
  pub mount_path : String
  pub sub_path : String

pub record ContainerPort : Type 0 where
  pub name : String
  pub container_port : ℤ
  pub protocol : String

pub record EnvVar : Type 0 where
  pub name : String
  pub value : String

pub data EnvFromSource : Type 0 where
  config_map_ref secret_ref : String → EnvFromSource

pub record Probe : Type 0 where
  pub command : List String
  pub initial_delay_seconds : ℤ
  pub timeout_seconds : ℤ
  pub period_seconds : ℤ
  pub failure_threshold : ℤ
  pub success_threshold : ℤ

pub record ResourceRequirements : Type 0 where
  pub requests : Raw
  pub limits : Raw

-- `rest` holds the fields that the operator never names.
pub record Container : Type 0 where
  pub name : String
  pub image : String
  pub image_pull_policy : String
  pub termination_message_path : String
  pub termination_message_policy : String
  pub env : List EnvVar
  pub env_from : List EnvFromSource
  pub ports : List ContainerPort
  pub volume_mounts : List VolumeMount
  pub liveness_probe : Option Probe
  pub readiness_probe : Option Probe
  pub resources : ResourceRequirements
  pub rest : Raw

pub record PodSpec : Type 0 where
  pub service_account_name : String
  pub termination_grace_period_seconds : ℤ
  pub dns_policy : String
  pub restart_policy : String
  pub init_containers : List Container
  pub containers : List Container
  pub volumes : List Volume
  pub image_pull_secrets : List String

pub record PodTemplate : Type 0 where
  pub labels : GoMap String
  pub annotations : GoMap String
  pub spec : PodSpec

pub record DeploymentStrategy : Type 0 where
  pub type : String
  pub rolling_update : Option Raw

pub record DeploymentStatus : Type 0 where
  pub replicas : ℤ
  pub ready_replicas : ℤ
  pub conditions : Slice Raw

pub record Deployment : Type 0 where
  pub type_meta : TypeMeta
  pub meta : ObjectMeta
  pub replicas : Option ℤ
  pub selector : GoMap String
  pub strategy : DeploymentStrategy
  pub template : PodTemplate
  pub status : DeploymentStatus

pub record ContainerStatus : Type 0 where
  pub image : String
  pub ready : Bool

-- `start_time` is nil until the kubelet has accepted the pod.
pub record Pod : Type 0 where
  pub meta : ObjectMeta
  pub phase : String
  pub container_statuses : List ContainerStatus
  pub start_time : Option String
