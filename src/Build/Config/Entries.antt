-- ===== src/Build/Config/Entries.antt =====
-- The entries of the Gateway's ConfigMaps, by name and by key (pkg/gateway/config/config.go).
use layer7_operator.Prelude.{String, ◌<>◌, ◌≡◌, refl, ok, some, [], Bool-cases, inl, inr, true}
use layer7_operator.Prelude.Dict.{Dict, lookup, insert, NodupKeys}
use layer7_operator.Prelude.Exec.{pure}
use layer7_operator.Prelude.Texts.{text_tests}
use layer7_operator.Api.Gateway.{Gateway}
use layer7_operator.Runtime.{Runtime}
use layer7_operator.Build.Config.{gateway_entries, config_entries, cwp_entries, listen_port_entries}

module _ (R : Runtime) (gw : Gateway) where
  pub config_entries-gateway : config_entries R gw gw.meta.name ≡ pure (gateway_entries R gw)
  unfolding config_entries
  config_entries-gateway = simp text_tests

  pub config_entries-system :
      config_entries R gw (gw.meta.name <> "-system")
      ≡ pure (insert "system.properties" gw.spec.app.system.properties [])
  unfolding config_entries
  config_entries-system = simp text_tests

  config_entries-cwp : config_entries R gw (gw.meta.name <> "-cwp-bundle") ≡ cwp_entries R gw
  unfolding config_entries
  config_entries-cwp = simp text_tests

  config_entries-listen_port :
      config_entries R gw (gw.meta.name <> "-listen-port-bundle") ≡ listen_port_entries R gw
  unfolding config_entries
  config_entries-listen_port = simp text_tests

  -- Whatever is drawn, the ConfigMap of that name has a value for the key.
  abbrev pub Provides : String → String → Type 0
  Provides name key =
      (e : R.Entropy)
      → (entries : Dict String) × (value : String) × ((config_entries R gw name e).0 ≡ ok entries)
        × (lookup key entries ≡ some value)

  pub Provides-system : Provides (gw.meta.name <> "-system") "system.properties"
  Provides-system e = (
    insert "system.properties" gw.spec.app.system.properties [],
    gw.spec.app.system.properties,
    rw config_entries-system refl,
    refl,
  )

  gateway_entries-hazelcast :
      gw.spec.app.hazelcast.external ≡ true
      → (value : String) × (lookup "hazelcast-client.xml" (gateway_entries R gw) ≡ some value)
  unfolding gateway_entries
  gateway_entries-hazelcast on = elim (Bool-cases gw.spec.app.management.database.enabled) [
    | inl e ↦ rw (on, e) (_, refl)
    | inr e ↦ rw (on, e) (_, refl)
  ]

  pub Provides-hazelcast :
      gw.spec.app.hazelcast.external ≡ true → Provides gw.meta.name "hazelcast-client.xml"
  Provides-hazelcast on e =
      let (value, found) = gateway_entries-hazelcast on in
      (gateway_entries R gw, value, rw config_entries-gateway refl, found)

  -- The gateway's own ConfigMap holds a key once.
  pub gateway_entries-NodupKeys : NodupKeys (gateway_entries R gw)
  unfolding gateway_entries
  gateway_entries-NodupKeys = elim (Bool-cases gw.spec.app.management.database.enabled) [
    | inl d ↦ elim (Bool-cases gw.spec.app.hazelcast.external) [
      | inl e ↦ rw (d, e) (refl, (refl, (refl, (refl, (refl, (refl, tt))))))
      | inr e ↦ rw (d, e) (refl, (refl, (refl, (refl, (refl, tt)))))
    ]
    | inr d ↦ elim (Bool-cases gw.spec.app.hazelcast.external) [
      | inl e ↦ rw (d, e) (refl, (refl, (refl, (refl, (refl, tt)))))
      | inr e ↦ rw (d, e) (refl, (refl, (refl, (refl, tt))))
    ]
  ]
