-- ===== src/Tests/Sample.antt =====
-- A Gateway with most features on, and a concrete runtime.
use layer7_operator.Prelude.{ℕ, suc, true, false, none, some, [], ◌∷◌, ok, ◌==◌, String}
use layer7_operator.Prelude.Int.{pos}
use layer7_operator.Kube.Meta.{ObjectMeta}
use layer7_operator.Kube.Pods.{Container}
use layer7_operator.Api.Settings.{Bundle, Service}
use layer7_operator.Api.Gateway.{Gateway, GatewayStatus}
use layer7_operator.Runtime.{Runtime}

abbrev pub sample_runtime : Runtime
sample_runtime = record {
  Entropy = ℕ;
  rand_read = λ n e. (ok (e ∷ []), suc e);
  range = λ d e. (ok d, e);
  Float = ℕ;
  float64 = λ n. 1;
  constant = λ text. 2;
  mul = λ x y. x;
  div = λ x y. x;
  int64 = pos;
  format_int = λ n. "1024";
  memory_is_zero = λ q. q == "";
  memory_value = λ q. pos 1024;
  marshal = λ b. ok "<l7:Bundle/>";
}

abbrev pub sample_meta : String → ObjectMeta
sample_meta name = record {
  name = name;
  namespace = "apim";
  labels = none;
  annotations = none;
  owner_references = [];
  resource_version = "7";
}

abbrev pub sample_container : String → Container
sample_container name = record {
  name = name;
  image = "busybox";
  image_pull_policy = "";
  termination_message_path = "";
  termination_message_policy = "";
  env = [];
  env_from = [];
  ports = [];
  volume_mounts = record { name = "scratch"; mount_path = "/scratch"; sub_path = "" } ∷ [];
  liveness_probe = none;
  readiness_probe = none;
  resources = record { requests = ""; limits = "" };
  rest = "";
}

abbrev sample_service : Service
sample_service = record {
  enabled = true;
  annotations = none;
  type = "LoadBalancer";
  ports = record { name = "https"; port = pos 8443; target_port = pos 8443; protocol = "TCP" } ∷ [];
}

abbrev sample_bundle : String → Bundle
sample_bundle type = record {
  type = type;
  name = "restman-bundle";
  config_map = record { default_mode = some (pos 420); optional = false; name = "" };
  csi = record {
    driver = "";
    read_only = false;
    volume_attributes = record { secret_provider_class = "" };
  };
}

abbrev sample_status : GatewayStatus
sample_status = record {
  host = "";
  conditions = none;
  phase = "";
  gateway = none;
  observed_generation = pos 0;
  commit_id = "";
  ready = pos 0;
  state = "";
  replicas = pos 0;
  version = "";
  image = "";
  label_selector_path = "";
  management_pod = "";
}

abbrev pub sample : Gateway
sample = record {
  type_meta = record { api_version = "security.brcmlabs.com/v1"; kind = "Gateway" };
  meta = sample_meta "ssg";
  spec = record {
    license = record { accept = "true"; secret_name = "license" };
    version = "10.1.00";
    app = record {
      annotations = none;
      cluster_properties = record {
        enabled = true;
        properties = record { name = "io.httpsHostAllowWildcard"; value = "true" } ∷ [];
      };
      java = record {
        jvm_heap = record { calculate = true; percentage = pos 75; default = "3g" };
        extra_args = "-Dcom.l7tech.bootstrap.autoTrustSslKey=trustAnchor" ∷ [];
      };
      management = record {
        secret_name = "";
        username = "admin";
        password = "7layer";
        cluster = record { password = "7layer"; hostname = "gateway.local" };
        database = record { enabled = false; jdbc_url = ""; username = ""; password = "" };
        restman = record { enabled = true };
        graphman = record { enabled = true };
        service = sample_service;
      };
      system = record { properties = "" };
      update_strategy = record { type = "RollingUpdate"; rolling_update = "{}" };
      image = "gateway:10.1.00";
      image_pull_secrets = [];
      image_pull_policy = "IfNotPresent";
      listen_ports = record {
        harden = true;
        cipher_suites = "TLS_AES_256_GCM_SHA384" ∷ [];
        tls_versions = "TLSv1.3" ∷ [];
      };
      replicas = pos 2;
      service = sample_service;
      bundle = sample_bundle "configMap" ∷ sample_bundle "secret" ∷ [];
      repository = record {
        enabled = true;
        name = "bundles";
        url = "https://git.local/bundles.git";
        method = "init";
        init = sample_container "clone";
        secret_name = "graphman";
        bundle_directory = "/bundles";
      };
      ingress = record {
        enabled = true;
        annotations = none;
        ingress_class_name = "nginx";
        tls = none;
        rules = record { host = "gateway.local"; http = none } ∷ [];
      };
      sidecars = sample_container "log" ∷ [];
      init_containers = sample_container "prepare" ∷ [];
      resources = record { requests = ""; limits = "4Gi" };
      autoscaling = record {
        enabled = true;
        hpa = record {
          min_replicas = some (pos 1);
          max_replicas = pos 3;
          behavior = "";
          metrics = none;
        };
      };
      service_account_name = "ssg";
      hazelcast = record { external = true; endpoint = "hazelcast:5701" };
    };
  };
  status = sample_status;
}
