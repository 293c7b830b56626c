-- ===== src/Build/Deployment.antt =====
-- `NewDeployment` of pkg/gateway/deployment.go. `Repository` and `Storage` build the volumes and
-- their mounts, `Containers` the containers, and this file the Deployment.
pub mod Repository
pub mod Storage
pub mod Containers
pub mod Pod
use layer7_operator.Prelude.{none, some, [], ◌∷◌, ◌==◌, ◌&&◌, not, if◌then◌else◌}
use layer7_operator.Prelude.Int.{pos}
use layer7_operator.Kube.Pods.{Deployment, DeploymentStrategy}
use layer7_operator.Api.Gateway.{Gateway}
use layer7_operator.Labels.{default_labels}
use Storage.{storage}
use Containers.{containers, init_containers}

pub strategy : Gateway → DeploymentStrategy
strategy gw =
    let update = gw.spec.app.update_strategy in
    if update.type == "" && update.rolling_update == ""
    then record { type = ""; rolling_update = none }
    else if update.type == "rollingUpdate"
    then record { type = "RollingUpdate"; rolling_update = some update.rolling_update }
    else if update.type == "recreate"
    then record { type = "Recreate"; rolling_update = none }
    else record { type = ""; rolling_update = none }

unfoldable pub new_deployment : Gateway → Deployment
unfolding strategy
new_deployment gw = record {
  type_meta = record { api_version = "v1"; kind = "Deployment" };
  meta = record {
    name = gw.meta.name;
    namespace = gw.meta.namespace;
    labels = some (default_labels gw);
    annotations = none;
    owner_references = [];
    resource_version = "";
  };
  replicas = if not gw.spec.app.autoscaling.enabled then some gw.spec.app.replicas else none;
  selector = some (default_labels gw);
  strategy = strategy gw;
  template = record {
    labels = some (default_labels gw);
    annotations =
        if gw.spec.app.repository.enabled
        then some (("commitId", gw.status.commit_id) ∷ [])
        else none;
    spec = record {
      service_account_name = gw.spec.app.service_account_name;
      termination_grace_period_seconds = pos 30;
      dns_policy = "ClusterFirst";
      restart_policy = "Always";
      init_containers = init_containers gw;
      containers = containers gw;
      volumes = (storage gw).volumes;
      image_pull_secrets = gw.spec.app.image_pull_secrets;
    };
  };
  status = record { replicas = pos 0; ready_replicas = pos 0; conditions = none };
}
