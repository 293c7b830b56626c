-- ===== src/Build/Ingress.antt =====
-- `NewIngress` of pkg/gateway/ingress/ingress.go.
use layer7_operator.Prelude.{String, some, List, [], ◌∷◌, map, if◌then◌else◌}
use layer7_operator.Prelude.Int.{pos, int_eq}
use layer7_operator.Kube.Net.{NetIngress, IngressRule}
use layer7_operator.Api.Settings.{Ports}
use layer7_operator.Api.Gateway.{Gateway}
use layer7_operator.Labels.{default_labels}

-- The loop that looks for port 8443, with the name found so far.
unfoldable pub https_port_name : List Ports → String → String
https_port_name [] port_name = port_name
https_port_name (s ∷ ports) port_name =
    https_port_name ports (if int_eq s.port (pos 8443) then s.name else port_name)

unfoldable pub ingress_rule : Gateway → String → IngressRule → IngressRule
ingress_rule gw port_name r = record {
  host = r.host;
  http = some (
      record {
        path = "/";
        path_type = some "Prefix";
        service_name = gw.meta.name;
        service_port = port_name;
      }
      ∷ []);
}

unfoldable pub new_ingress : Gateway → NetIngress
unfolding ingress_rule
new_ingress gw =
    let port_name = https_port_name gw.spec.app.service.ports "" in
    record {
      type_meta = record { api_version = "v1"; kind = "Ingress" };
      meta = record {
        name = gw.meta.name;
        namespace = gw.meta.namespace;
        labels = some (default_labels gw);
        annotations = gw.spec.app.ingress.annotations;
        owner_references = [];
        resource_version = "";
      };
      spec = record {
        ingress_class_name = some gw.spec.app.ingress.ingress_class_name;
        tls = gw.spec.app.ingress.tls;
        rules = some (map (ingress_rule gw port_name) gw.spec.app.ingress.rules);
      };
    }
