-- ===== src/Tests/Builders.antt =====
-- The theorems on the builders and on the bundles, at a sample Gateway.
use layer7_operator.Prelude.{
  ◌≡◌, ◌↔◌, refl, String, true, false, ok, none, some, [], ◌∷◌, ◌++◌, map, All, arith, eq_iff,
  if◌then◌else◌,
}
use layer7_operator.Prelude.Dict.{Dict, lookup}
use layer7_operator.Prelude.Slice.{items}
use layer7_operator.Prelude.Exec.{lift, ◌>>=◌}
use layer7_operator.Build.Deployment.{new_deployment}
use layer7_operator.Build.Deployment.Containers.{gateway_container}
use layer7_operator.Build.Deployment.Pod.{Resolves, pod-Resolves}
use layer7_operator.Build.Service.{new_service, new_management_service}
use layer7_operator.Build.Selectors.{picks, selects, management_selects_iff, selects-template}
use layer7_operator.Build.PortNames.{Reaches, services-Reaches}
use layer7_operator.Build.Ingress.{new_ingress}
use layer7_operator.Build.IngressRoutes.{LeadsToHttps, new_ingress-LeadsToHttps}
use layer7_operator.Bundle.Token.{rand_token, encode_to_string, nth}
use layer7_operator.Bundle.Cwp.{build_bundle, build_cwp_bundle}
use layer7_operator.Bundle.Cwp.Entries.{items_of, mappings_of, draw_ids, build_cwp_bundle-eq}
use layer7_operator.Bundle.ListenPort.{PortIds, listen_port_items, listen_port_mappings}
use layer7_operator.Bundle.ListenPort.Hardening.{
  AreDistinct, HoldsAsAsked, map_to, name_with_id, listen_port_mappings-find,
  listen_port_items-AsAsked,
}
use layer7_operator.Tests.Sample.{sample, sample_runtime}

pod-Resolves_example :
    let pod = (new_deployment sample).template.spec in
    All (Resolves pod) (pod.containers ++ pod.init_containers)
pod-Resolves_example = pod-Resolves sample

abbrev leader_labels : Dict String
leader_labels = ("management-access", "leader") ∷ []

management_selects_iff_example :
    (selects (new_management_service sample).selector (some leader_labels) ≡ true) ↔ (
      (selects (new_service sample).selector (some leader_labels) ≡ true)
      × (lookup "management-access" leader_labels ≡ some "leader"))
management_selects_iff_example = management_selects_iff sample leader_labels

selects-template_example :
    ((picks (new_service sample) (new_deployment sample) ≡ true)
      ↔ ((sample.meta.namespace ≡ sample.meta.namespace) × (sample.meta.name ≡ sample.meta.name)))
    × (picks (new_management_service sample) (new_deployment sample) ≡ false)
selects-template_example = selects-template sample sample

services-Reaches_example :
    All (Reaches (gateway_container sample).ports) (new_service sample).ports
    × All (Reaches (gateway_container sample).ports) (
        if sample.spec.app.management.service.enabled
        then (new_management_service sample).ports
        else [])
services-Reaches_example = services-Reaches sample

new_ingress-LeadsToHttps_example :
    All (LeadsToHttps sample) (items (new_ingress sample).spec.rules)
    × (map (λ r. r.host) (items (new_ingress sample).spec.rules)
        ≡ map (λ r. r.host) sample.spec.app.ingress.rules)
new_ingress-LeadsToHttps_example = new_ingress-LeadsToHttps sample refl

abbrev two_properties : Dict String
two_properties = ("a", "1") ∷ ("b", "2") ∷ []

build_cwp_bundle-eq_example :
    build_cwp_bundle sample_runtime two_properties 0
    ≡ (do
      order ← sample_runtime.range two_properties
      ids ← draw_ids sample_runtime order
      lift (sample_runtime.marshal (build_bundle (items_of order ids) (mappings_of order ids))))
        0
build_cwp_bundle-eq_example = build_cwp_bundle-eq sample_runtime two_properties 0

two_ids : draw_ids sample_runtime two_properties 10 ≡ (ok ("0a" ∷ "0b" ∷ []), 12)
unfolding draw_ids rand_token encode_to_string nth
two_ids = refl

abbrev four_ids : PortIds
four_ids = record { traffic = "t"; management = "m"; plaintext = "p"; internode = "i" }

four_ids-AreDistinct : AreDistinct four_ids
four_ids-AreDistinct = record {
  traffic-ne-management = ground (arith, eq_iff "t" "m");
  traffic-ne-plaintext = ground (arith, eq_iff "t" "p");
  traffic-ne-internode = ground (arith, eq_iff "t" "i");
  management-ne-plaintext = ground (arith, eq_iff "m" "p");
  management-ne-internode = ground (arith, eq_iff "m" "i");
  plaintext-ne-internode = ground (arith, eq_iff "p" "i");
}

listen_port_mappings-find_example :
    (map (λ m. map_to m.properties.property) (listen_port_mappings four_ids)
      ≡ "Default HTTP (8080)" ∷ "Default HTTPS (9443)" ∷ "Default HTTPS (8443)"
        ∷ "Node HTTPS (2124)" ∷ [])
    × (map
          (λ m. name_with_id (listen_port_items [] ("TLSv1.3" ∷ []) four_ids) m.src_id)
          (listen_port_mappings four_ids)
        ≡ some "Default HTTP (8080)"
          ∷ none
          ∷ some "Default HTTPS (9443)"
          ∷ some "Node HTTPS (2124)"
          ∷ [])
listen_port_mappings-find_example =
    listen_port_mappings-find [] ("TLSv1.3" ∷ []) four_ids four_ids-AreDistinct

listen_port_items-AsAsked_example :
    All (HoldsAsAsked [] ("TLSv1.3" ∷ [])) (listen_port_items [] ("TLSv1.3" ∷ []) four_ids)
listen_port_items-AsAsked_example = listen_port_items-AsAsked [] ("TLSv1.3" ∷ []) four_ids
