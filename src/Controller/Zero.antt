-- ===== src/Controller/Zero.antt =====
-- The zero values that `Get` fills in (`&corev1.ConfigMap{}` and the like in controller.go).
use layer7_operator.Prelude.{none, []}
use layer7_operator.Prelude.Int.{pos}
use layer7_operator.Kube.Meta.{TypeMeta, ObjectMeta, CoreConfigMap, CoreSecret}
use layer7_operator.Kube.Pods.{Deployment}
use layer7_operator.Kube.Net.{CoreService, NetIngress, HorizontalPodAutoscaler}

abbrev pub zero_type : TypeMeta
zero_type = record { api_version = ""; kind = "" }

abbrev pub zero_meta : ObjectMeta
zero_meta = record {
  name = "";
  namespace = "";
  labels = none;
  annotations = none;
  owner_references = [];
  resource_version = "";
}

abbrev pub zero_config_map : CoreConfigMap
zero_config_map = record { type_meta = zero_type; meta = zero_meta; contents = none }

abbrev pub zero_secret : CoreSecret
zero_secret = record { type_meta = zero_type; meta = zero_meta; type = ""; contents = none }

abbrev pub zero_service : CoreService
zero_service = record {
  type_meta = zero_type;
  meta = zero_meta;
  selector = none;
  ports = [];
  type = "";
}

abbrev pub zero_ingress : NetIngress
zero_ingress = record {
  type_meta = zero_type;
  meta = zero_meta;
  spec = record { ingress_class_name = none; tls = none; rules = none };
}

abbrev pub zero_hpa : HorizontalPodAutoscaler
zero_hpa = record {
  type_meta = zero_type;
  meta = zero_meta;
  spec = record {
    scale_target_ref = record { api_version = ""; kind = ""; name = "" };
    min_replicas = none;
    max_replicas = pos 0;
    metrics = none;
    behavior = none;
  };
  status = "";
}

abbrev pub zero_deployment : Deployment
zero_deployment = record {
  type_meta = zero_type;
  meta = zero_meta;
  replicas = none;
  selector = none;
  strategy = record { type = ""; rolling_update = none };
  template = record {
    labels = none;
    annotations = none;
    spec = record {
      service_account_name = "";
      termination_grace_period_seconds = pos 0;
      dns_policy = "";
      restart_policy = "";
      init_containers = [];
      containers = [];
      volumes = [];
      image_pull_secrets = [];
    };
  };
  status = record { replicas = pos 0; ready_replicas = pos 0; conditions = none };
}
