-- ===== src/Build/Secret.antt =====
-- `NewSecret` of pkg/gateway/secrets/secrets.go.
use layer7_operator.Prelude.{none, some, [], if◌then◌else◌}
use layer7_operator.Prelude.Dict.{Dict, insert}
use layer7_operator.Prelude.{String}
use layer7_operator.Kube.Meta.{CoreSecret}
use layer7_operator.Api.Gateway.{Gateway}
use layer7_operator.Labels.{default_labels}

unfoldable pub secret_entries : Gateway → Dict String
secret_entries gw =
    let management = gw.spec.app.management in
    let entries : Dict String = insert "SSG_CLUSTER_PASSWORD" management.cluster.password (
      insert "SSG_ADMIN_PASSWORD" management.password
        (insert "SSG_ADMIN_USERNAME" management.username [])) in
    if management.database.enabled
    then insert "SSG_DATABASE_USER" management.database.username
        (insert "SSG_DATABASE_PASSWORD" management.database.password entries)
    else entries

unfoldable pub new_secret : Gateway → CoreSecret
unfolding secret_entries
new_secret gw = record {
  type_meta = record { api_version = "v1"; kind = "Secret" };
  meta = record {
    name = gw.meta.name;
    namespace = gw.meta.namespace;
    labels = some (default_labels gw);
    annotations = none;
    owner_references = [];
    resource_version = "";
  };
  type = "Opaque";
  contents = some (secret_entries gw);
}
