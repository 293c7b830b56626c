-- ===== src/Kube/Net.antt =====
-- Services, Ingresses and HorizontalPodAutoscalers.
use layer7_operator.Prelude.{String, Option, List}
use layer7_operator.Prelude.Int.{ℤ}
use layer7_operator.Prelude.Slice.{Slice, GoMap}
use layer7_operator.Kube.Meta.{Raw, TypeMeta, ObjectMeta}

pub data IntOrString : Type 0 where
  int_value : ℤ → IntOrString
  string_value : String → IntOrString

pub record ServicePort : Type 0 where
  pub name : String
  pub port : ℤ
  pub target_port : IntOrString
  pub protocol : String

pub record CoreService : Type 0 where
  pub type_meta : TypeMeta
  pub meta : ObjectMeta
  pub selector : GoMap String
  pub ports : List ServicePort
  pub type : String

-- The backend is a Service, and one of its ports by name.
pub record HttpIngressPath : Type 0 where
  pub path : String
  pub path_type : Option String
  pub service_name : String
  pub service_port : String

pub record IngressRule : Type 0 where
  pub host : String
  pub http : Option (List HttpIngressPath)

pub record IngressSpec : Type 0 where
  pub ingress_class_name : Option String
  pub tls : Slice Raw
  pub rules : Slice IngressRule

pub record NetIngress : Type 0 where
  pub type_meta : TypeMeta
  pub meta : ObjectMeta
  pub spec : IngressSpec

pub record ObjectReference : Type 0 where
  pub api_version : String
  pub kind : String
  pub name : String

pub record HpaSpec : Type 0 where
  pub scale_target_ref : ObjectReference
  pub min_replicas : Option ℤ
  pub max_replicas : ℤ
  pub metrics : Slice Raw
  pub behavior : Option Raw

pub record HorizontalPodAutoscaler : Type 0 where
  pub type_meta : TypeMeta
  pub meta : ObjectMeta
  pub spec : HpaSpec
  pub status : Raw
