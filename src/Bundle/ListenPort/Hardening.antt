-- ===== src/Bundle/ListenPort/Hardening.antt =====
-- What `BuildListenPortBundle` of pkg/gateway/util/bundle.go says of the ports, and how its mappings
-- find its items.
use layer7_operator.Prelude.{
  String, ◌≡◌, refl, ◌≢◌, Option, none, some, List, [], ◌∷◌, map, ◌==◌, ◌||◌, elem, eq_refl, All,
  ◌⊎◌, inl, inr, if◌then◌else◌,
}
use layer7_operator.Prelude.Texts.{eq_false, eq_false_sym}
use layer7_operator.Bundle.Xml.{Item, ListenPort, Property}
use layer7_operator.Bundle.ListenPort.{
  PortIds, listen_port_items, listen_port_mappings, plaintext_port, management_port, traffic_port,
  internode_communication_port,
}

-- The value of the property "MapTo" of a mapping.
abbrev pub map_to : List Property → String
map_to [] = ""
map_to (p ∷ ps) = if p.key == "MapTo" then p.string_value else map_to ps

-- The name of the first item with that id.
abbrev pub name_with_id : List Item → String → Option String
name_with_id [] id = none
name_with_id (i ∷ items) id = if i.id == id then some i.name else name_with_id items id

pub record AreDistinct (ids : PortIds) : Type 0 where
  pub traffic-ne-management : ids.traffic ≢ ids.management
  pub traffic-ne-plaintext : ids.traffic ≢ ids.plaintext
  pub traffic-ne-internode : ids.traffic ≢ ids.internode
  pub management-ne-plaintext : ids.management ≢ ids.plaintext
  pub management-ne-internode : ids.management ≢ ids.internode
  pub plaintext-ne-internode : ids.plaintext ≢ ids.internode

-- With four different ids, the bundle's mappings map to the names of the ports 8080, 9443, 8443 and
-- 2124, in this order. By their ids, the first and the last find the items of these names; the mapping
-- for 9443 finds no item, and the mapping for 8443 finds the item of 9443.
pub listen_port_mappings-find :
    (cipher_suites tls_versions : List String) (ids : PortIds)
    → AreDistinct ids
    → (map (λ m. map_to m.properties.property) (listen_port_mappings ids)
        ≡ "Default HTTP (8080)" ∷ "Default HTTPS (9443)" ∷ "Default HTTPS (8443)"
          ∷ "Node HTTPS (2124)" ∷ [])
      × (map
            (λ m. name_with_id (listen_port_items cipher_suites tls_versions ids) m.src_id)
            (listen_port_mappings ids)
          ≡ some "Default HTTP (8080)"
            ∷ none
            ∷ some "Default HTTPS (9443)"
            ∷ some "Node HTTPS (2124)"
            ∷ [])
unfolding listen_port_mappings listen_port_items plaintext_port management_port traffic_port
    internode_communication_port
listen_port_mappings-find cipher_suites tls_versions ids d = (
  refl,
  rw
      (
        eq_refl ids.plaintext,
        eq_false_sym _ _ d.management-ne-plaintext,
        eq_false _ _ d.traffic-ne-management,
        eq_false_sym _ _ d.management-ne-internode,
        eq_false_sym _ _ d.traffic-ne-plaintext,
        eq_refl ids.traffic,
        eq_false _ _ d.plaintext-ne-internode,
        eq_false _ _ d.traffic-ne-internode,
        eq_refl ids.internode,
      )
      refl,
)

-- The TLS versions and cipher suites of a port.
abbrev tls_of : ListenPort → Option (List String × List String)
tls_of p = elim p.tls_settings [
  | none ↦ none
  | some t ↦ some (t.enabled_versions.string_value, t.enabled_cipher_suites.string_value)
]

module _ (cipher_suites tls_versions : List String) where
  -- The ports 8443 and 9443 are enabled, and no other. A port that is enabled speaks HTTPS, with the TLS
  -- versions and cipher suites that were asked for, and a port gives administrative access exactly if it
  -- has the number 9443.
  abbrev pub IsAsAsked : ListenPort → Type 0
  IsAsAsked p =
      ((p.enabled == "true") ≡ (p.port == "8443" || p.port == "9443"))
      × ((p.enabled ≡ "false")
          ⊎ ((p.protocol ≡ "HTTPS") × (tls_of p ≡ some (tls_versions, cipher_suites))))
      × (elem "Administrative access" p.enabled_features.string_value ≡ (p.port == "9443"))

  abbrev pub HoldsAsAsked : Item → Type 0
  HoldsAsAsked i = (p : ListenPort) × (i.resource.listen_port ≡ some p) × IsAsAsked p

  -- Every item of the bundle holds a listen port. The ports 8443 and 9443 are enabled and the others are
  -- disabled, that of the internode communication, 2124, included. One that is enabled speaks HTTPS,
  -- with the TLS versions and cipher suites that were asked for, whatever they are, and a port gives
  -- administrative access exactly if it has the number 9443.
  pub listen_port_items-AsAsked :
      (ids : PortIds) → All HoldsAsAsked (listen_port_items cipher_suites tls_versions ids)
  unfolding listen_port_items plaintext_port management_port traffic_port
      internode_communication_port
  listen_port_items-AsAsked ids = (
    (_, refl, (refl, inl refl, refl)),
    (
      (_, refl, (refl, inr (refl, refl), refl)),
      ((_, refl, (refl, inr (refl, refl), refl)), ((_, refl, (refl, inl refl, refl)), tt)),
    ),
  )
