-- ===== src/Kube/Meta.antt =====
-- Metadata, ConfigMaps and Secrets.
use layer7_operator.Prelude.{String, List}
use layer7_operator.Prelude.Slice.{GoMap}

-- A value of the Kubernetes API that the operator only passes on, as its serialised text; the
-- zero value is "".
abbrev pub Raw : Type 0
Raw = String

pub record TypeMeta : Type 0 where
  pub api_version : String
  pub kind : String

pub record ObjectMeta : Type 0 where
  pub name : String
  pub namespace : String
  pub labels : GoMap String
  pub annotations : GoMap String
  pub owner_references : List Raw
  -- set by the API server
  pub resource_version : String

pub record CoreConfigMap : Type 0 where
  pub type_meta : TypeMeta
  pub meta : ObjectMeta
  pub contents : GoMap String

-- The values are byte strings.
pub record CoreSecret : Type 0 where
  pub type_meta : TypeMeta
  pub meta : ObjectMeta
  pub type : String
  pub contents : GoMap String
