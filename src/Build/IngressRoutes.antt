-- ===== src/Build/IngressRoutes.antt =====
-- Where the rules of the Ingress lead (pkg/gateway/ingress/ingress.go).
use layer7_operator.Prelude.{
  String, Bool, true, false, ◌≡◌, refl, ap, some, List, [], ◌∷◌, map, arith, ◌==◌, ◌&&◌, ◌||◌,
  eq_refl, All, Bool-cases, inl, inr, ◌⊎◌,
}
use layer7_operator.Prelude.Int.{pos, int_eq}
use layer7_operator.Prelude.Slice.{items}
use layer7_operator.Kube.Net.{ServicePort, IngressRule, HttpIngressPath}
use layer7_operator.Api.Settings.{Ports}
use layer7_operator.Api.Gateway.{Gateway}
use layer7_operator.Build.Service.{service_port, new_service}
use layer7_operator.Build.Ingress.{https_port_name, ingress_rule, new_ingress}

-- Some port has the number 8443.
abbrev pub has_https : List Ports → Bool
has_https [] = false
has_https (p ∷ ports) = int_eq p.port (pos 8443) || has_https ports

-- A Service port of that name has the number 8443.
abbrev pub offers : List ServicePort → String → Bool
offers [] name = false
offers (p ∷ ports) name = p.name == name && int_eq p.port (pos 8443) || offers ports name

-- The name that was found before the loop is kept, or another one is found.
https_port_name_cases :
    (ports : List Ports) (name : String)
    → (https_port_name ports name ≡ name)
      ⊎ (offers (map service_port ports) (https_port_name ports name) ≡ true)
unfolding https_port_name service_port
https_port_name_cases [] name = inl refl
https_port_name_cases (p ∷ ports) name = elim (Bool-cases (int_eq p.port (pos 8443))) [
  | inl e ↦ rw e (elim (https_port_name_cases ports p.name) [
    | inl kept ↦ inr (rw (kept, eq_refl) refl)
    | inr found ↦ inr (ground (arith, found))
  ])
  | inr e ↦ rw e (elim (https_port_name_cases ports name) [
    | inl kept ↦ inl kept
    | inr found ↦ inr (ground (arith, found))
  ])
]

https_port_name-offers :
    (ports : List Ports) (name : String)
    → has_https ports ≡ true
    → offers (map service_port ports) (https_port_name ports name) ≡ true
unfolding https_port_name service_port
https_port_name-offers [] name h = cc
https_port_name-offers (p ∷ ports) name h = elim (Bool-cases (int_eq p.port (pos 8443))) [
  | inl e ↦ rw e (elim (https_port_name_cases ports p.name) [
    | inl kept ↦ rw (kept, eq_refl) refl
    | inr found ↦ ground (arith, found)
  ])
  | inr e ↦ rw e (ground (arith, https_port_name-offers ports name))
]

-- A rule of the Ingress has one path, "/", and leads to the gateway's Service, to a port of that
-- Service with the number 8443.
abbrev pub LeadsToHttps : Gateway → IngressRule → Type 0
LeadsToHttps gw rule =
    (path : HttpIngressPath) × (rule.http ≡ some (path ∷ []))
    × (path.path ≡ "/")
    × (path.service_name ≡ (new_service gw).meta.name)
    × (offers (new_service gw).ports path.service_port ≡ true)

ingress_rule-LeadsToHttps :
    (gw : Gateway)
    → has_https gw.spec.app.service.ports ≡ true
    → (rules : List IngressRule)
    → let name = https_port_name gw.spec.app.service.ports "" in
      All (LeadsToHttps gw) (map (ingress_rule gw name) rules)
unfolding ingress_rule new_service
ingress_rule-LeadsToHttps gw h [] = tt
ingress_rule-LeadsToHttps gw h (r ∷ rules) = (
  (
    record {
      path = "/";
      path_type = some "Prefix";
      service_name = gw.meta.name;
      service_port = https_port_name gw.spec.app.service.ports "";
    },
    refl,
    refl,
    refl,
    https_port_name-offers gw.spec.app.service.ports "" h,
  ),
  ingress_rule-LeadsToHttps gw h rules,
)

hosts-map-ingress_rule :
    (gw : Gateway) (name : String) (rules : List IngressRule)
    → map (λ r. r.host) (map (ingress_rule gw name) rules) ≡ map (λ r. r.host) rules
unfolding ingress_rule
hosts-map-ingress_rule gw name [] = refl
hosts-map-ingress_rule gw name (r ∷ rules) =
    ap (λ hosts. r.host ∷ hosts) (hosts-map-ingress_rule gw name rules)

-- If some port of the gateway's Service has the number 8443, every rule of the Ingress has exactly one
-- path, "/", which leads to the gateway's Service and names a port of it with the number 8443. The
-- Ingress has a rule for each rule of the spec, in order and with the same host.
pub new_ingress-LeadsToHttps :
    (gw : Gateway)
    → has_https gw.spec.app.service.ports ≡ true
    → All (LeadsToHttps gw) (items (new_ingress gw).spec.rules)
      × (map (λ r. r.host) (items (new_ingress gw).spec.rules)
          ≡ map (λ r. r.host) gw.spec.app.ingress.rules)
unfolding new_ingress
new_ingress-LeadsToHttps gw h = (
  ingress_rule-LeadsToHttps gw h gw.spec.app.ingress.rules,
  hosts-map-ingress_rule gw _ gw.spec.app.ingress.rules,
)
