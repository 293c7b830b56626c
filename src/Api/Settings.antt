-- ===== src/Api/Settings.antt =====
-- The small structs of api/v1/gateway_types.go.
use layer7_operator.Prelude.{String, Bool, Option, List}
use layer7_operator.Prelude.Int.{ℤ}
use layer7_operator.Prelude.Slice.{Slice, GoMap}
use layer7_operator.Kube.Meta.{Raw}

pub record License : Type 0 where
  pub accept : String
  pub secret_name : String

pub record Restman : Type 0 where
  pub enabled : Bool

pub record Graphman : Type 0 where
  pub enabled : Bool

pub record Cluster : Type 0 where
  pub password : String
  pub hostname : String

pub record Database : Type 0 where
  pub enabled : Bool
  pub jdbc_url : String
  pub username : String
  pub password : String

pub record Ports : Type 0 where
  pub name : String
  pub port : ℤ
  pub target_port : ℤ
  pub protocol : String

pub record Service : Type 0 where
  pub enabled : Bool
  pub annotations : GoMap String
  pub type : String
  pub ports : List Ports

pub record ConfigMap : Type 0 where
  pub default_mode : Option ℤ
  pub optional : Bool
  pub name : String

pub record VolumeAttributes : Type 0 where
  pub secret_provider_class : String

pub record Csi : Type 0 where
  pub driver : String
  pub read_only : Bool
  pub volume_attributes : VolumeAttributes

pub record Bundle : Type 0 where
  pub type : String
  pub name : String
  pub config_map : ConfigMap
  pub csi : Csi

pub record ClusterProperty : Type 0 where
  pub name : String
  pub value : String

pub record ClusterProperties : Type 0 where
  pub enabled : Bool
  pub properties : List ClusterProperty

pub record ListenPorts : Type 0 where
  pub harden : Bool
  pub cipher_suites : List String
  pub tls_versions : List String

pub record Hazelcast : Type 0 where
  pub external : Bool
  pub endpoint : String

pub record UpdateStrategy : Type 0 where
  pub type : String
  pub rolling_update : Raw

pub record Hpa : Type 0 where
  pub min_replicas : Option ℤ
  pub max_replicas : ℤ
  pub behavior : Raw
  pub metrics : Slice Raw

pub record Autoscaling : Type 0 where
  pub enabled : Bool
  pub hpa : Hpa

pub record System : Type 0 where
  pub properties : String

pub record PodResources : Type 0 where
  pub requests : Raw
  pub limits : Raw

pub record JvmHeap : Type 0 where
  pub calculate : Bool
  pub percentage : ℤ
  pub default : String

pub record Java : Type 0 where
  pub jvm_heap : JvmHeap
  pub extra_args : List String
