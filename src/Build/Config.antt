-- ===== src/Build/Config.antt =====
-- `NewConfigMap` and `setJVMHeapSize` of pkg/gateway/config/config.go.
pub mod Entries
pub mod Heap
pub mod Properties
use layer7_operator.Prelude.{
  String, ◌<>◌, ◌&&◌, not, none, some, List, [], ◌∷◌, join, ◌==◌, if◌then◌else◌,
}
use layer7_operator.Prelude.Dict.{Dict, insert}
use layer7_operator.Prelude.Exec.{Exec, pure, ignore_error, ◌>>=◌}
use layer7_operator.Kube.Meta.{CoreConfigMap}
use layer7_operator.Api.Settings.{ClusterProperty}
use layer7_operator.Api.Gateway.{Gateway}
use layer7_operator.Runtime.{Runtime}
use layer7_operator.Labels.{default_labels}
use layer7_operator.Bundle.Cwp.{build_cwp_bundle}
use layer7_operator.Bundle.ListenPort.{build_listen_port_bundle}

-- The client configuration of an external Hazelcast, before, between and after its two values.
abbrev hazelcast_head : String
hazelcast_head =
    "<hazelcast-client xmlns:xsi=\"http://www.w3.org/2001/XMLSchema-instance\" xsi:schemaLocation=\"http://www.hazelcast.com/schema/client-config http://www.hazelcast.com/schema/client-config/hazelcast-client-config-3.10.xsd\" xmlns=\"http://www.hazelcast.com/schema/client-config\"><instance-name>"

abbrev hazelcast_middle : String
hazelcast_middle = "-hazelcast-client</instance-name><network><cluster-members><address>"

abbrev hazelcast_tail : String
hazelcast_tail =
    "</address></cluster-members><connection-attempt-limit>10</connection-attempt-limit><redo-operation>true</redo-operation></network><connection-strategy async-start=\"false\" reconnect-mode=\"ON\" /></hazelcast-client>"

abbrev hazelcast_args : String
hazelcast_args =
    " -Dcogw.l7tech.server.extension.sharedCounterProvider=externalhazelcast -Dcogw.l7tech.server.extension.sharedKeyValueStoreProvider=externalhazelcast -Dcogw.l7tech.server.extension.sharedClusterInfoProvider=externalhazelcast"

-- `props[p.Name] = p.Value` for each property in turn.
unfoldable pub collect_properties : List ClusterProperty → Dict String → Dict String
collect_properties [] props = props
collect_properties (p ∷ ps) props = collect_properties ps (insert p.name p.value props)

module _ (R : Runtime) where
  unfoldable pub set_jvm_heap_size : Gateway → String
  set_jvm_heap_size gw =
      let java = gw.spec.app.java in
      let limits = gw.spec.app.resources.limits in
      let default_heap : String =
        if java.jvm_heap.calculate && (R.memory_is_zero limits && not (java.jvm_heap.default == ""))
        then java.jvm_heap.default
        else "" in
      let memory_mb = R.mul (R.float64 (R.memory_value limits)) (R.constant "0.00000095367432") in
      let heap_percentage = R.div (R.float64 java.jvm_heap.percentage) (R.constant "100.0") in
      let heap_mb = R.format_int (R.int64 (R.mul memory_mb heap_percentage)) in
      let jvm_heap : String =
        if java.jvm_heap.calculate && not (R.memory_is_zero limits)
        then heap_mb <> "m"
        else default_heap in
      if jvm_heap == "" then "2g" else jvm_heap

  java_args : Gateway → String
  java_args gw = join gw.spec.app.java.extra_args " "

  with_database : Gateway → Dict String → Dict String
  with_database gw entries =
      let database = gw.spec.app.management.database in
      if database.enabled then insert "SSG_DATABASE_JDBC_URL" database.jdbc_url entries else entries

  with_hazelcast : Gateway → Dict String → Dict String
  with_hazelcast gw entries =
      let hazelcast = gw.spec.app.hazelcast in
      if hazelcast.external
      then insert "EXTRA_JAVA_ARGS" (java_args gw <> hazelcast_args) (
          insert "hazelcast-client.xml"
            (hazelcast_head
              <> (gw.meta.name <> (hazelcast_middle <> (hazelcast.endpoint <> hazelcast_tail))))
            entries)
      else entries

  -- The case of the gateway's own ConfigMap, from which the container takes its environment.
  unfoldable pub gateway_entries : Gateway → Dict String
  unfolding java_args with_database with_hazelcast
  gateway_entries gw = with_hazelcast gw (
      with_database gw (
        insert "EXTRA_JAVA_ARGS" (java_args gw) (
          insert "SSG_JVM_HEAP" (set_jvm_heap_size gw) (
            insert "SSG_CLUSTER_HOST" gw.spec.app.management.cluster.hostname
              (insert "ACCEPT_LICENSE" gw.spec.license.accept [])))))

  -- The error of the builder is ignored, which leaves an empty bundle.
  unfoldable pub cwp_entries : Gateway → Exec R.Entropy (Dict String)
  cwp_entries gw = do
    bundle ←
        ignore_error ""
          (build_cwp_bundle R (collect_properties gw.spec.app.cluster_properties.properties []))
    pure (insert "cwp.bundle" bundle [])

  unfoldable pub listen_port_entries : Gateway → Exec R.Entropy (Dict String)
  listen_port_entries gw = do
    let ports = gw.spec.app.listen_ports
    bundle ← ignore_error "" (build_listen_port_bundle R ports.cipher_suites ports.tls_versions)
    pure (insert "listen-ports.bundle" bundle [])

  -- The switch over the name.
  unfoldable pub config_entries : Gateway → String → Exec R.Entropy (Dict String)
  unfolding cwp_entries listen_port_entries
  config_entries gw name =
      if name == gw.meta.name <> "-system"
      then pure (insert "system.properties" gw.spec.app.system.properties [])
      else if name == gw.meta.name
      then pure (gateway_entries gw)
      else if name == gw.meta.name <> "-cwp-bundle"
      then cwp_entries gw
      else if name == gw.meta.name <> "-listen-port-bundle"
      then listen_port_entries gw
      else pure []

  unfoldable pub new_config_map : Gateway → String → Exec R.Entropy CoreConfigMap
  unfolding config_entries
  new_config_map gw name = do
    entries ← config_entries gw name
    pure (record {
      type_meta = record { api_version = "v1"; kind = "ConfigMap" };
      meta = record {
        name = name;
        namespace = gw.meta.namespace;
        labels = some (default_labels gw);
        annotations = none;
        owner_references = [];
        resource_version = "";
      };
      contents = some entries;
    })
