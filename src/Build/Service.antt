-- ===== src/Build/Service.antt =====
-- `NewService` and `NewManagementService` of pkg/gateway/service/service.go.
use layer7_operator.Prelude.{◌<>◌, none, some, [], map}
use layer7_operator.Prelude.Dict.{insert}
use layer7_operator.Kube.Net.{CoreService, ServicePort, string_value}
use layer7_operator.Api.Settings.{Ports}
use layer7_operator.Api.Gateway.{Gateway}
use layer7_operator.Labels.{default_labels}

unfoldable pub service_port : Ports → ServicePort
service_port p = record {
  name = p.name;
  port = p.port;
  target_port = string_value p.name;
  protocol = p.protocol;
}

unfoldable pub new_service : Gateway → CoreService
unfolding service_port
new_service gw = record {
  type_meta = record { api_version = "v1"; kind = "Service" };
  meta = record {
    name = gw.meta.name;
    namespace = gw.meta.namespace;
    labels = some (default_labels gw);
    annotations = gw.spec.app.service.annotations;
    owner_references = [];
    resource_version = "";
  };
  selector = some (default_labels gw);
  ports = map service_port gw.spec.app.service.ports;
  type = gw.spec.app.service.type;
}

unfoldable pub new_management_service : Gateway → CoreService
unfolding service_port
new_management_service gw = record {
  type_meta = record { api_version = "v1"; kind = "Service" };
  meta = record {
    name = gw.meta.name <> "-management-service";
    namespace = gw.meta.namespace;
    labels = none;
    annotations = gw.spec.app.management.service.annotations;
    owner_references = [];
    resource_version = "";
  };
  selector = some (insert "management-access" "leader" (default_labels gw));
  ports = map service_port gw.spec.app.management.service.ports;
  type = gw.spec.app.management.service.type;
}
