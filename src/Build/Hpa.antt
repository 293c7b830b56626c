-- ===== src/Build/Hpa.antt =====
-- `NewHPA` of pkg/gateway/hpa/hpa.go.
use layer7_operator.Prelude.{none, some, [], ◌==◌, if◌then◌else◌}
use layer7_operator.Kube.Net.{HorizontalPodAutoscaler}
use layer7_operator.Api.Gateway.{Gateway}
use layer7_operator.Labels.{default_labels}

unfoldable pub new_hpa : Gateway → HorizontalPodAutoscaler
new_hpa gw =
    let hpa = gw.spec.app.autoscaling.hpa in
    record {
      type_meta = record { api_version = "v2"; kind = "HorizontalPodAutoscaler" };
      meta = record {
        name = gw.meta.name;
        namespace = gw.meta.namespace;
        labels = some (default_labels gw);
        annotations = none;
        owner_references = [];
        resource_version = "";
      };
      spec = record {
        scale_target_ref = record {
          api_version = "apps/v1";
          kind = "Deployment";
          name = gw.meta.name;
        };
        min_replicas = hpa.min_replicas;
        max_replicas = hpa.max_replicas;
        metrics = hpa.metrics;
        behavior = if hpa.behavior == "" then none else some hpa.behavior;
      };
      status = "";
    }
