-- ===== src/Build/PortNames.antt =====
-- The ports that Services, the Ingress and the gateway container name (pkg/gateway/service/service.go,
-- pkg/gateway/ingress/ingress.go and pkg/gateway/deployment.go).
use layer7_operator.Prelude.{
  Bool, true, false, ◌≡◌, List, [], ◌∷◌, ◌++◌, map, arith, ◌==◌, ◌&&◌, ◌||◌, eq_refl, All, All-imp,
  if◌then◌else◌, Bool-cases, inl, inr,
}
use layer7_operator.Prelude.Int.{ℤ, int_eq, int_eq_iff}
use layer7_operator.Kube.Pods.{ContainerPort}
use layer7_operator.Kube.Net.{IntOrString, ServicePort, string_value, int_value}
use layer7_operator.Api.Settings.{Ports}
use layer7_operator.Api.Gateway.{Gateway}
use layer7_operator.Build.Service.{service_port, new_service, new_management_service}
use layer7_operator.Build.Deployment.Containers.{container_port, container_ports, gateway_container}

-- A container port of that number goes by the name that is targeted.
abbrev pub exposed : List ContainerPort → IntOrString → ℤ → Bool
exposed ports (int_value n) port = false
exposed [] (string_value name) port = false
exposed (c ∷ ports) (string_value name) port =
    c.name == name && int_eq c.container_port port || exposed ports (string_value name) port

abbrev pub Reaches : List ContainerPort → ServicePort → Type 0
Reaches ports p = exposed ports p.target_port p.port ≡ true

exposed-append_left :
    (xs ys : List ContainerPort) (target : IntOrString) (port : ℤ)
    → exposed xs target port ≡ true
    → exposed (xs ++ ys) target port ≡ true
exposed-append_left [] ys (string_value name) port h = cc
exposed-append_left (x ∷ xs) ys (string_value name) port h =
    ground (arith, exposed-append_left xs ys (string_value name) port)
exposed-append_left _ ys (int_value n) port h = cc

exposed-append_right :
    (xs ys : List ContainerPort) (target : IntOrString) (port : ℤ)
    → exposed ys target port ≡ true
    → exposed (xs ++ ys) target port ≡ true
exposed-append_right [] ys target port h = h
exposed-append_right (x ∷ xs) ys (string_value name) port h =
    ground (arith, exposed-append_right xs ys (string_value name) port h)
exposed-append_right (x ∷ xs) [] (int_value n) port h = cc
exposed-append_right (x ∷ xs) (y ∷ ys) (int_value n) port h = cc

Reaches-map : (ps : List Ports) → All (Reaches (map container_port ps)) (map service_port ps)
unfolding service_port container_port
Reaches-map [] = tt
Reaches-map (p ∷ ps) = (
  ground (arith, eq_refl p.name, int_eq_iff p.port p.port),
  All-imp
      (λ s h.
        exposed-append_right (container_port p ∷ []) (map container_port ps) s.target_port s.port h)
      (map service_port ps) (Reaches-map ps),
)

-- Every port of the gateway's Service, and of its management Service if that is enabled, targets by
-- name a port of the gateway container that has the same number.
pub services-Reaches :
    (gw : Gateway)
    → All (Reaches (gateway_container gw).ports) (new_service gw).ports
      × All
          (Reaches (gateway_container gw).ports)
          (if gw.spec.app.management.service.enabled then (new_management_service gw).ports else [])
unfolding gateway_container container_ports new_service new_management_service
services-Reaches gw = elim (Bool-cases management.enabled) [
  | inl on ↦ rw on (
    All-imp (λ s. exposed-append_left own others s.target_port s.port)
        (map service_port service.ports) (Reaches-map service.ports),
    All-imp (λ s. exposed-append_right own others s.target_port s.port)
        (map service_port management.ports) (Reaches-map management.ports),
  )
  | inr off ↦ rw off (Reaches-map service.ports, tt)
]
  where
    open gw.spec.app use {service, management.{service as management}}

    own : List ContainerPort
    own = map container_port service.ports

    others : List ContainerPort
    others = map container_port management.ports
