-- ===== src/Bundle/ListenPort.antt =====
-- `BuildListenPortBundle` of pkg/gateway/util/bundle.go.
pub mod Hardening
use layer7_operator.Prelude.{String, true, Option, none, some, List, [], ◌∷◌}
use layer7_operator.Prelude.Exec.{Exec, lift, ignore_error, ◌>>=◌}
use layer7_operator.Runtime.{Runtime}
use layer7_operator.Bundle.Xml.{Item, Mapping, TlsSettings, Bundle}
use layer7_operator.Bundle.Token.{rand_token}
use layer7_operator.Bundle.Cwp.{map_by_name, build_bundle}

-- The item of a port. `item_id` is the item's own id, and `port_id` that of the listen port in it.
abbrev connector :
    String → String → String → String → String → String → List String → Option TlsSettings → Item
connector name item_id port_id enabled protocol port features tls = record {
  name = name;
  id = item_id;
  type = "SSG_CONNECTOR";
  resource = record {
    cluster_property = none;
    listen_port = some (record {
      id = port_id;
      name = name;
      enabled = enabled;
      protocol = protocol;
      port = port;
      enabled_features = record { string_value = features };
      tls_settings = tls;
    });
  };
}

abbrev tls_settings : List String → List String → TlsSettings
tls_settings versions suites = record {
  client_authentication = "Optional";
  enabled_versions = record { string_value = versions };
  enabled_cipher_suites = record { string_value = suites };
  use_cipher_suites_order = true;
  properties = record {
    property = record { key = "usesTLS"; string_value = ""; boolean_value = true } ∷ [];
  };
}

pub plaintext_port : String → Item
plaintext_port plaintext_id =
    connector "Default HTTP (8080)" plaintext_id plaintext_id "false" "HTTP" "8080"
      ("Published service message input" ∷ []) none

-- The source gives this item the traffic port's id.
pub management_port : List String → List String → String → String → Item
management_port cipher_suites tls_versions traffic_id management_id =
    connector "Default HTTPS (9443)" traffic_id management_id "true" "HTTPS" "9443"
      ("Published service message input" ∷ "Administrative access" ∷ "Browser-based administration"
        ∷ "Built-in services" ∷ [])
      (some (tls_settings tls_versions cipher_suites))

pub traffic_port : List String → List String → String → Item
traffic_port cipher_suites tls_versions traffic_id =
    connector "Default HTTPS (8443)" traffic_id traffic_id "true" "HTTPS" "8443"
      ("Published service message input" ∷ []) (some (tls_settings tls_versions cipher_suites))

pub internode_communication_port : String → Item
internode_communication_port internode_communication_id =
    connector "Node HTTPS (2124)" internode_communication_id internode_communication_id "false"
      "HTTPS" "2124" ("Inter-Node Communication" ∷ [])
      (some (
        tls_settings ("TLSv1.2" ∷ "TLSv1.3" ∷ []) (
          "TLS_DHE_RSA_WITH_AES_256_CBC_SHA" ∷ "TLS_RSA_WITH_AES_256_CBC_SHA"
          ∷ "TLS_ECDHE_ECDSA_WITH_AES_256_CBC_SHA" ∷ "TLS_DHE_RSA_WITH_AES_128_CBC_SHA"
          ∷ "TLS_RSA_WITH_AES_128_CBC_SHA" ∷ "TLS_ECDHE_ECDSA_WITH_AES_128_CBC_SHA" ∷ [])))

pub listen_port_mapping : String → String → Mapping
unfolding map_by_name
listen_port_mapping id name = record {
  action = "NewOrUpdate";
  src_id = id;
  type = "SSG_CONNECTOR";
  properties = record { property = map_by_name name };
}

-- The four ids that a bundle is built from.
pub record PortIds : Type 0 where
  pub traffic : String
  pub management : String
  pub plaintext : String
  pub internode : String

pub listen_port_items : List String → List String → PortIds → List Item
listen_port_items cipher_suites tls_versions ids =
    plaintext_port ids.plaintext
    ∷ management_port cipher_suites tls_versions ids.traffic ids.management
    ∷ traffic_port cipher_suites tls_versions ids.traffic
    ∷ internode_communication_port ids.internode
    ∷ []

pub listen_port_mappings : PortIds → List Mapping
unfolding listen_port_mapping
listen_port_mappings ids =
    listen_port_mapping ids.plaintext "Default HTTP (8080)"
    ∷ listen_port_mapping ids.management "Default HTTPS (9443)"
    ∷ listen_port_mapping ids.traffic "Default HTTPS (8443)"
    ∷ listen_port_mapping ids.internode "Node HTTPS (2124)"
    ∷ []

pub listen_port_bundle : List String → List String → PortIds → Bundle
unfolding plaintext_port management_port traffic_port internode_communication_port listen_port_items
    listen_port_mappings build_bundle
listen_port_bundle cipher_suites tls_versions ids =
    build_bundle (listen_port_items cipher_suites tls_versions ids) (listen_port_mappings ids)

module _ (R : Runtime) where
  -- `id, _ := randToken(16)`: a failure leaves the id empty.
  unfoldable pub draw_id : Exec R.Entropy String
  draw_id = ignore_error "" (rand_token R 16)

  unfoldable pub build_listen_port_bundle : List String → List String → Exec R.Entropy String
  unfolding draw_id
  build_listen_port_bundle cipher_suites tls_versions = do
    traffic_id ← draw_id
    management_id ← draw_id
    plaintext_id ← draw_id
    internode_id ← draw_id
    let ids : PortIds = record {
      traffic = traffic_id;
      management = management_id;
      plaintext = plaintext_id;
      internode = internode_id;
    }
    lift (R.marshal (listen_port_bundle cipher_suites tls_versions ids))
