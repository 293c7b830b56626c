-- ===== src/Bundle/Cwp.antt =====
-- `BuildCWPBundle` of pkg/gateway/util/bundle.go.
pub mod Entries
use layer7_operator.Prelude.{String, false, none, some, List, [], ◌∷◌, ◌++◌}
use layer7_operator.Prelude.Dict.{Dict}
use layer7_operator.Prelude.Exec.{Exec, pure, lift, ◌>>=◌}
use layer7_operator.Runtime.{Runtime}
use layer7_operator.Bundle.Xml.{Item, Mapping, Property, Bundle}
use layer7_operator.Bundle.Token.{rand_token}

abbrev pub namespace_uri : String
namespace_uri = "http://ns.l7tech.com/2010/04/gateway-management"

-- The properties of every mapping: it maps by name, to that name.
unfoldable pub map_by_name : String → List Property
map_by_name name =
    record { key = "MapBy"; string_value = "name"; boolean_value = false }
    ∷ record { key = "MapTo"; string_value = name; boolean_value = false }
    ∷ []

unfoldable pub cluster_property_item : String → String → String → Item
cluster_property_item cwp val random_id = record {
  name = cwp;
  id = random_id;
  type = "CLUSTER_PROPERTY";
  resource = record {
    cluster_property = some (record { id = random_id; name = cwp; value = val });
    listen_port = none;
  };
}

unfoldable pub cluster_property_mapping : String → String → Mapping
unfolding map_by_name
cluster_property_mapping cwp random_id = record {
  action = "NewOrUpdate";
  src_id = random_id;
  type = "CLUSTER_PROPERTY";
  properties = record { property = map_by_name cwp };
}

unfoldable pub build_bundle : List Item → List Mapping → Bundle
build_bundle items mapping = record {
  xmlns = namespace_uri;
  references = record { item = items };
  mappings = record { mapping = mapping };
}

module _ (R : Runtime) where
  -- The loop over the properties, with the items and mappings so far.
  unfoldable pub cwp_loop :
      Dict String → List Item → List Mapping → Exec R.Entropy (List Item × List Mapping)
  cwp_loop [] items mapping = pure (items, mapping)
  cwp_loop ((cwp, val) ∷ cwps) items mapping = do
    random_id ← rand_token R 16
    cwp_loop cwps (items ++ cluster_property_item cwp val random_id ∷ [])
        (mapping ++ cluster_property_mapping cwp random_id ∷ [])

  unfoldable pub build_cwp_bundle : Dict String → Exec R.Entropy String
  unfolding cwp_loop
  build_cwp_bundle cwps = do
    order ← R.range cwps
    (items, mapping) ← cwp_loop order [] []
    lift (R.marshal (build_bundle items mapping))
