-- ===== src/Tests/Stored.antt =====
-- The theorems on ConfigMaps, on the Ingress and on what is there after a pass, at a cluster in memory.
use layer7_operator.Prelude.{◌≡◌, refl, false, List, String, ok, some, inl, [], ◌∷◌}
use layer7_operator.Kube.Meta.{CoreSecret}
use layer7_operator.Api.Gateway.{Gateway}
use layer7_operator.Build.Config.{new_config_map, config_entries}
use layer7_operator.Build.Deployment.Containers.{secret_name}
use layer7_operator.Controller.Run.{Run}
use layer7_operator.Controller.Objects.{reconcile_config_map, reconcile_ingress, reconcile_secret}
use layer7_operator.Controller.Reconcile.{reconcile_credentials}
use layer7_operator.Controller.Repeat.ConfigMap.{reconcile_config_map_settled}
use layer7_operator.Controller.Repeat.Network.{reconcile_ingress_settled}
use layer7_operator.Controller.Present.{IsPresent}
use layer7_operator.Controller.Present.Objects.{reconcile_credentials-IsPresent}
use layer7_operator.Api.Settings.{ClusterProperty}
use layer7_operator.Prelude.Dict.{lookup, NodupKeys}
use layer7_operator.Build.Config.{collect_properties}
use layer7_operator.Build.Config.Properties.{last_value, collect_properties-last_value}
use layer7_operator.Tests.Sample.{sample, sample_runtime, sample_meta}
use layer7_operator.Tests.Cluster.{
  sample_client, sample_client-KeepsKeys, empty_cluster, api_of-IsStore, set_config_maps,
  set_secrets, set_ingresses,
}

abbrev pub license : CoreSecret
license = record {
  type_meta = record { api_version = "v1"; kind = "Secret" };
  meta = sample_meta "license";
  type = "Opaque";
  contents = some (("license.xml", "<license/>") ∷ []);
}

-- Without the ConfigMaps whose entries are drawn.
abbrev pub plain : Gateway
plain = record sample {
  spec = record sample.spec {
    app = record sample.spec.app {
      cluster_properties = record { enabled = false; properties = [] };
      listen_ports = record { harden = false; cipher_suites = []; tls_versions = [] };
    };
  };
}

abbrev pub licensed_run : Run sample_runtime sample_client
licensed_run = record {
  gateway = plain;
  cluster = record empty_cluster { secrets = license ∷ [] };
  entropy = 0;
}

abbrev config_run : Run sample_runtime sample_client
config_run = (reconcile_config_map "ssg" licensed_run).1

config_written : reconcile_config_map "ssg" licensed_run ≡ (ok tt, config_run)
unfolding reconcile_config_map new_config_map config_entries
config_written = refl

reconcile_config_map_settled_example : reconcile_config_map "ssg" config_run ≡ (ok tt, config_run)
reconcile_config_map_settled_example =
    reconcile_config_map_settled sample_client-KeepsKeys
      (api_of-IsStore (λ x. x.meta) (λ s. s.config_maps) set_config_maps (λ x. x.contents)
        (λ xs s. refl))
      "ssg" licensed_run config_run (inl refl) config_written

abbrev ingress_run : Run sample_runtime sample_client
ingress_run = (reconcile_ingress licensed_run).1

ingress_written : reconcile_ingress licensed_run ≡ (ok tt, ingress_run)
unfolding reconcile_ingress
ingress_written = refl

reconcile_ingress_settled_example : reconcile_ingress ingress_run ≡ (ok tt, ingress_run)
reconcile_ingress_settled_example =
    reconcile_ingress_settled sample_client-KeepsKeys
      (api_of-IsStore (λ x. x.meta) (λ s. s.ingresses) set_ingresses (λ x. x.spec) (λ xs s. refl))
      licensed_run ingress_run ingress_written

abbrev credentials_run : Run sample_runtime sample_client
credentials_run = (reconcile_credentials licensed_run).1

credentials_written : reconcile_credentials licensed_run ≡ (ok tt, credentials_run)
unfolding reconcile_credentials reconcile_secret
credentials_written = refl

reconcile_credentials-IsPresent_example :
    IsPresent sample_client.secrets plain.meta.namespace (secret_name plain) credentials_run.cluster
reconcile_credentials-IsPresent_example =
    reconcile_credentials-IsPresent sample_client-KeepsKeys (λ x. x.contents)
      (api_of-IsStore (λ x. x.meta) (λ s. s.secrets) set_secrets (λ x. x.contents) (λ xs s. refl))
      licensed_run credentials_run credentials_written

abbrev twice : List ClusterProperty
twice = record { name = "a"; value = "1" } ∷ record { name = "a"; value = "2" } ∷ []

collect_properties-last_value_example :
    NodupKeys (collect_properties twice [])
    × ((name : String) → lookup name (collect_properties twice []) ≡ last_value name twice)
collect_properties-last_value_example = collect_properties-last_value twice
