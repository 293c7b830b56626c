-- ===== src/Build/Deployment/Storage.antt =====
-- The volumes of the pod, and the mounts of the gateway container, as `NewDeployment` collects them.
pub mod Paired
pub mod Covers
pub mod Backed
use layer7_operator.Prelude.{
  String, ◌<>◌, Bool, true, false, ◌&&◌, ◌||◌, not, none, some, List, [], ◌∷◌, ◌++◌, map, ◌==◌,
  if◌then◌else◌,
}
use layer7_operator.Prelude.Int.{pos}
use layer7_operator.Kube.Pods.{Volume, VolumeMount, secret, config_map, empty_dir, csi, Container}
use layer7_operator.Api.Settings.{Bundle, ConfigMap, Csi}
use layer7_operator.Api.Gateway.{Gateway}
use layer7_operator.Build.Deployment.Repository.{repository_init, uses_repository_init}

-- The two slices `volumes` and `volumeMounts`.
pub record Storage : Type 0 where
  pub volumes : List Volume
  pub mounts : List VolumeMount

-- Both appends of one part.
abbrev pub attach : VolumeMount → Volume → Storage → Storage
attach mount volume st = record {
  volumes = st.volumes ++ volume ∷ [];
  mounts = st.mounts ++ mount ∷ [];
}

abbrev bundle_dir : String
bundle_dir = "/opt/SecureSpan/Gateway/node/default/etc/bootstrap/bundle/"

abbrev services_dir : String
services_dir = "/opt/SecureSpan/Gateway/node/default/etc/bootstrap/services/"

-- A mount with no sub-path.
abbrev mount_at : String → String → VolumeMount
mount_at name mount_path = record { name = name; mount_path = mount_path; sub_path = "" }

-- A ConfigMap as a volume, mode 420 and not optional.
abbrev config_map_volume : String → Volume
config_map_volume name = record {
  name = name;
  source =
      config_map (record {
        name = name;
        entries = [];
        default_mode = some (pos 420);
        optional = some false;
      });
}

-- The license and the system properties, which every gateway mounts.
base_storage : Gateway → Storage
base_storage gw = record {
  volumes =
      record {
        name = "gateway-license";
        source = secret (record {
          secret_name = "gateway-license";
          entries = record { path = "license.xml"; key = "license.xml" } ∷ [];
          default_mode = some (pos 420);
          optional = some false;
        });
      }
      ∷ record {
        name = "system-properties";
        source = config_map (record {
          name = gw.meta.name <> "-system";
          entries = record { path = "system.properties"; key = "system.properties" } ∷ [];
          default_mode = some (pos 420);
          optional = some false;
        });
      }
      ∷ [];
  mounts =
      record {
        name = "gateway-license";
        mount_path = "/opt/SecureSpan/Gateway/node/default/etc/bootstrap/license/license.xml";
        sub_path = "license.xml";
      }
      ∷ record {
        name = "system-properties";
        mount_path = "/opt/SecureSpan/Gateway/node/default/etc/conf/system.properties";
        sub_path = "system.properties";
      }
      ∷ [];
}

add_cluster_properties : Gateway → Storage → Storage
add_cluster_properties gw st =
    let name = gw.meta.name <> "-cwp-bundle" in
    if gw.spec.app.cluster_properties.enabled
    then attach (mount_at name (bundle_dir <> name)) (config_map_volume name) st
    else st

add_listen_ports : Gateway → Storage → Storage
add_listen_ports gw st =
    let name = gw.meta.name <> "-listen-port-bundle" in
    if gw.spec.app.listen_ports.harden
    then attach (mount_at name (bundle_dir <> name)) (config_map_volume name) st
    else st

add_restman : Gateway → Storage → Storage
add_restman gw st =
    if gw.spec.app.management.restman.enabled
    then attach (mount_at "restman" (services_dir <> "restman"))
        (record { name = "restman"; source = empty_dir }) st
    else st

add_graphman : Gateway → Storage → Storage
add_graphman gw st =
    if gw.spec.app.management.graphman.enabled
    then attach (mount_at "graphman" (services_dir <> "graphman"))
        (record { name = "graphman"; source = empty_dir }) st
    else st

add_hazelcast : Gateway → Storage → Storage
add_hazelcast gw st =
    if gw.spec.app.hazelcast.external
    then attach
        (record {
          name = "hazelcast-client";
          mount_path =
              "/opt/SecureSpan/Gateway/node/default/etc/bootstrap/assertions/ExternalHazelcastSharedStateProviderAssertion/hazelcast-client.xml";
          sub_path = "hazelcast-client.xml";
        })
        (record {
          name = "hazelcast-client";
          source = config_map (record {
            name = gw.meta.name;
            entries = record { path = "hazelcast-client.xml"; key = "hazelcast-client.xml" } ∷ [];
            default_mode = none;
            optional = none;
          });
        })
        st
    else st

-- `ConfigMap != (securityv1.ConfigMap{})`
config_map_is_set : ConfigMap → Bool
config_map_is_set c =
    elim c.default_mode [ none ↦ false | some mode ↦ true ] || (c.optional || not (c.name == ""))

-- `CSI == (securityv1.CSI{})`
csi_is_zero : Csi → Bool
csi_is_zero c =
    c.driver == "" && (not c.read_only && c.volume_attributes.secret_provider_class == "")

pub config_map_bundle : Bundle → Volume
unfolding config_map_is_set
config_map_bundle b =
    if config_map_is_set b.config_map
    then record {
      name = b.name;
      source = config_map (record {
        name = b.name;
        entries = [];
        default_mode = b.config_map.default_mode;
        optional = some b.config_map.optional;
      });
    }
    else config_map_volume b.name

pub secret_bundle : Bundle → Volume
unfolding csi_is_zero
secret_bundle b =
    if csi_is_zero b.csi
    then record {
      name = b.name;
      source =
          secret
            (record { secret_name = b.name; entries = []; default_mode = none; optional = none });
    }
    else record {
      name = b.name;
      source = csi (record {
        driver = b.csi.driver;
        read_only = some b.csi.read_only;
        volume_attributes =
            ("secretProviderClass", b.csi.volume_attributes.secret_provider_class) ∷ [];
      });
    }

-- A bundle of another type adds nothing.
pub add_bundle : Bundle → Storage → Storage
unfolding config_map_bundle secret_bundle
add_bundle b st =
    if b.type == "configMap"
    then attach (mount_at b.name (bundle_dir <> b.name)) (config_map_bundle b) st
    else if b.type == "secret"
    then attach (mount_at b.name (bundle_dir <> b.name)) (secret_bundle b) st
    else st

pub add_bundles : List Bundle → Storage → Storage
add_bundles [] st = st
add_bundles (b ∷ bs) st = add_bundles bs (add_bundle b st)

-- The volume of a mount of another container: an empty directory of that name.
abbrev pub empty_volume : VolumeMount → Volume
empty_volume m = record { name = m.name; source = empty_dir }

-- A container's mounts are added to the gateway's, with an empty directory for each.
pub add_container_mounts : Container → Storage → Storage
add_container_mounts c st = record {
  volumes = st.volumes ++ map empty_volume c.volume_mounts;
  mounts = st.mounts ++ c.volume_mounts;
}

pub add_containers : List Container → Storage → Storage
unfolding add_container_mounts
add_containers [] st = st
add_containers (c ∷ cs) st = add_containers cs (add_container_mounts c st)

add_repository : Gateway → Storage → Storage
unfolding add_container_mounts
add_repository gw st =
    if uses_repository_init gw then add_container_mounts (repository_init gw) st else st

unfoldable pub storage : Gateway → Storage
unfolding base_storage add_cluster_properties add_listen_ports add_restman add_graphman
    add_hazelcast add_repository
storage gw = add_repository gw (
    add_containers gw.spec.app.sidecars (
      add_containers gw.spec.app.init_containers (
        add_bundles gw.spec.app.bundle (
          add_hazelcast gw (
            add_graphman gw (
              add_restman gw
                (add_listen_ports gw (add_cluster_properties gw (base_storage gw)))))))))
