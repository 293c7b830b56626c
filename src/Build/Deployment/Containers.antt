-- ===== src/Build/Deployment/Containers.antt =====
-- The containers of the pod (`NewDeployment` of pkg/gateway/deployment.go).
use layer7_operator.Prelude.{String, not, some, List, [], ◌∷◌, ◌++◌, map, ◌==◌, if◌then◌else◌}
use layer7_operator.Prelude.Int.{pos}
use layer7_operator.Kube.Pods.{Container, ContainerPort, Probe, config_map_ref, secret_ref}
use layer7_operator.Api.Settings.{Ports}
use layer7_operator.Api.Gateway.{Gateway}
use layer7_operator.Build.Deployment.Repository.{uses_repository_init, repository_init}
use layer7_operator.Build.Deployment.Storage.{storage}

unfoldable pub container_port : Ports → ContainerPort
container_port p = record { name = p.name; container_port = p.port; protocol = "TCP" }

unfoldable pub container_ports : Gateway → List ContainerPort
unfolding container_port
container_ports gw =
    let ports = map container_port gw.spec.app.service.ports in
    let management = gw.spec.app.management.service in
    if management.enabled then ports ++ map container_port management.ports else ports

-- The Secret that the container takes its environment from.
unfoldable pub secret_name : Gateway → String
secret_name gw =
    let name = gw.spec.app.management.secret_name in if not (name == "") then name else gw.meta.name

abbrev health_check : Probe
health_check = record {
  command = "/bin/bash" ∷ "/opt/docker/rc.d/diagnostic/health_check.sh" ∷ [];
  initial_delay_seconds = pos 30;
  timeout_seconds = pos 1;
  period_seconds = pos 10;
  failure_threshold = pos 10;
  success_threshold = pos 1;
}

unfoldable pub gateway_container : Gateway → Container
unfolding secret_name container_ports
gateway_container gw = record {
  name = "gateway";
  image = gw.spec.app.image;
  image_pull_policy = gw.spec.app.image_pull_policy;
  termination_message_path = "/dev/termination-log";
  termination_message_policy = "File";
  env = [];
  env_from = config_map_ref gw.meta.name ∷ secret_ref (secret_name gw) ∷ [];
  ports = container_ports gw;
  volume_mounts = (storage gw).mounts;
  liveness_probe = some health_check;
  readiness_probe = some health_check;
  resources = record {
    requests = gw.spec.app.resources.requests;
    limits = gw.spec.app.resources.limits;
  };
  rest = "";
}

unfoldable pub containers : Gateway → List Container
containers gw = gateway_container gw ∷ gw.spec.app.sidecars

unfoldable pub init_containers : Gateway → List Container
init_containers gw =
    if uses_repository_init gw
    then gw.spec.app.init_containers ++ repository_init gw ∷ []
    else gw.spec.app.init_containers
