-- ===== src/Bundle/Xml.antt =====
-- The structs of pkg/gateway/util/bundle.go, without the names of their XML elements.
use layer7_operator.Prelude.{String, Bool, Option, List}

pub record ClusterProperty : Type 0 where
  pub id : String
  pub name : String
  pub value : String

pub record Property : Type 0 where
  pub key : String
  pub string_value : String
  pub boolean_value : Bool

pub record Properties : Type 0 where
  pub property : List Property

pub record EnabledVersions : Type 0 where
  pub string_value : List String

pub record EnabledCipherSuites : Type 0 where
  pub string_value : List String

pub record EnabledFeatures : Type 0 where
  pub string_value : List String

pub record TlsSettings : Type 0 where
  pub client_authentication : String
  pub enabled_versions : EnabledVersions
  pub enabled_cipher_suites : EnabledCipherSuites
  pub use_cipher_suites_order : Bool
  pub properties : Properties

pub record ListenPort : Type 0 where
  pub id : String
  pub name : String
  pub enabled : String
  pub protocol : String
  pub port : String
  pub enabled_features : EnabledFeatures
  pub tls_settings : Option TlsSettings

pub record Resource : Type 0 where
  pub cluster_property : Option ClusterProperty
  pub listen_port : Option ListenPort

pub record Item : Type 0 where
  pub name : String
  pub id : String
  pub type : String
  pub resource : Resource

pub record References : Type 0 where
  pub item : List Item

pub record Mapping : Type 0 where
  pub action : String
  pub src_id : String
  pub type : String
  pub properties : Properties

pub record Mappings : Type 0 where
  pub mapping : List Mapping

pub record Bundle : Type 0 where
  pub xmlns : String
  pub references : References
  pub mappings : Mappings
