-- ===== src/Api/Parts.antt =====
-- The structs of api/v1/gateway_types.go that hold others: Management, Repository, Ingress and App.
use layer7_operator.Prelude.{String, Bool, List}
use layer7_operator.Prelude.Int.{ℤ}
use layer7_operator.Prelude.Slice.{Slice, GoMap}
use layer7_operator.Kube.Meta.{Raw}
use layer7_operator.Kube.Pods.{Container}
use layer7_operator.Kube.Net.{IngressRule}
use layer7_operator.Api.Settings.{
  Cluster, Database, Restman, Graphman, Service, ClusterProperties, Java, System, UpdateStrategy,
  ListenPorts, Bundle, PodResources, Autoscaling, Hazelcast,
}

pub record Management : Type 0 where
  pub secret_name : String
  pub username : String
  pub password : String
  pub cluster : Cluster
  pub database : Database
  pub restman : Restman
  pub graphman : Graphman
  pub service : Service

pub record Repository : Type 0 where
  pub enabled : Bool
  pub name : String
  pub url : String
  pub method : String
  pub init : Container
  pub secret_name : String
  pub bundle_directory : String

pub record Ingress : Type 0 where
  pub enabled : Bool
  pub annotations : GoMap String
  pub ingress_class_name : String
  pub tls : Slice Raw
  pub rules : List IngressRule

pub record App : Type 0 where
  pub annotations : GoMap String
  pub cluster_properties : ClusterProperties
  pub java : Java
  pub management : Management
  pub system : System
  pub update_strategy : UpdateStrategy
  pub image : String
  pub image_pull_secrets : List String
  pub image_pull_policy : String
  pub listen_ports : ListenPorts
  pub replicas : ℤ
  pub service : Service
  pub bundle : List Bundle
  pub repository : Repository
  pub ingress : Ingress
  pub sidecars : List Container
  pub init_containers : List Container
  pub resources : PodResources
  pub autoscaling : Autoscaling
  pub service_account_name : String
  pub hazelcast : Hazelcast
