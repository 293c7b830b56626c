-- ===== src/Controller/Footprint/Served.antt =====
-- The requests that the operator serves one after another, with what other clients do in between
-- (`Reconcile` of controller.go, called by the manager of main.go).
use layer7_operator.Prelude.{
  true, String, ◌<>◌, ◌≡◌, ◌≢◌, ◌⊎◌, inl, inr, refl, ap, sym, ◌∙◌, none, ok, Result, value, failure,
  not_found, Error,
}
use layer7_operator.Prelude.Texts.{eq_false}
use layer7_operator.Api.Gateway.{Gateway}
use layer7_operator.Runtime.{Runtime}
use layer7_operator.Controller.Client.{Client}
use layer7_operator.Controller.Run.{Run, is_not_found}
use layer7_operator.Controller.Reconcile.{Reply, reconcile, reconcile_gateway}
use layer7_operator.Controller.Repeat.{KeepsKeys}
use layer7_operator.Controller.Converge.Places.{
  Kind, config_maps, secrets, services, ingresses, hpas, deployments, object, SameAt, api_at,
  IsCluster,
}
use layer7_operator.Controller.Converge.Credentials.{named_secret}
use layer7_operator.Controller.Converge.Objects.{IsLicensed}
use layer7_operator.Controller.Converge.Isolated.{IsForeign, object-apart}
use layer7_operator.Controller.Converge.Desired.{IsDesired, reconcile_gateway-IsDesired}
use layer7_operator.Controller.Footprint.Bounds.{IsOutside, IsLocal}
use layer7_operator.Controller.Footprint.Whole.{reconcile_gateway-confined}

-- A Gateway is read in the namespace that was asked for.
pub record FindsInNamespace (C : Client) : Type 0 where
  pub namespace :
      (ns name : String) (s : C.State) (gw : Gateway)
      → C.get_gateway ns name s ≡ value gw
      → gw.meta.namespace ≡ ns

-- The operator and other clients take steps in turn: the operator serves a request, with any outcome; another
-- client changes the cluster. Neither touches the objects that are kept: the Gateway of the request
-- does not own them, and the client leaves them.
pub data Serves {R : Runtime} {C : Client} (Kept : Kind → String → String → Type 0)
    : Run R C → Run R C → Type 1 where
  idle : {run : Run R C} → Serves Kept run run
  request :
      {a b : Run R C} (request_ns request_name : String)
      → ((gw : Gateway)
          → C.get_gateway request_ns request_name a.cluster ≡ value gw
          → (k : Kind) (ns name : String) → Kept k ns name
          → IsOutside gw (object k ns name))
      → Serves Kept (reconcile request_ns request_name a).1 b
      → Serves Kept a b
  client :
      {a b : Run R C} (s : C.State)
      → ((k : Kind) (ns name : String) → Kept k ns name → SameAt C (object k ns name) a.cluster s)
      → Serves Kept (record a { cluster = s }) b
      → Serves Kept a b

-- Nothing in another namespace is the Gateway's.
IsForeign-IsOutside :
    (ns : String) (gw : Gateway)
    → IsForeign ns gw
    → (k : Kind) (name : String) → IsOutside gw (object k ns name)
IsForeign-IsOutside ns gw h k name = record {
  gateway_map = object-apart ns gw h config_maps gw.meta.name k name;
  system_map = object-apart ns gw h config_maps (gw.meta.name <> "-system") k name;
  properties_map = λ _. object-apart ns gw h config_maps (gw.meta.name <> "-cwp-bundle") k name;
  ports_map = λ _. object-apart ns gw h config_maps (gw.meta.name <> "-listen-port-bundle") k name;
  secret = λ _. object-apart ns gw h secrets gw.meta.name k name;
  service = object-apart ns gw h services gw.meta.name k name;
  management_service =
      λ _. object-apart ns gw h services (gw.meta.name <> "-management-service") k name;
  ingress = λ _. object-apart ns gw h ingresses gw.meta.name k name;
  hpa = λ _. object-apart ns gw h hpas gw.meta.name k name;
  deployment = object-apart ns gw h deployments gw.meta.name k name;
}

module _ {R : Runtime} {C : Client} (keys : KeepsKeys C) (local : IsLocal C) where
  -- One request.
  request-same :
      (run : Run R C) (request_ns request_name : String) (k : Kind) (ns name : String)
      → ((gw : Gateway)
          → C.get_gateway request_ns request_name run.cluster ≡ value gw
          → IsOutside gw (object k ns name))
      → SameAt C (object k ns name) run.cluster (reconcile request_ns request_name run).1.cluster
  unfolding reconcile
  request-same run request_ns request_name k ns name outside =
      by_read (C.get_gateway request_ns request_name run.cluster) refl
    where
      by_read :
          (got : Result Gateway)
          → C.get_gateway request_ns request_name run.cluster ≡ got
          → SameAt C
              (object k ns name)
              run.cluster
              (reconcile request_ns request_name run).1.cluster
      by_read (value gw) e =
          rw (e, reconcile)
            (reconcile_gateway-confined keys local (record run { gateway = gw }) k ns name
              (outside gw e)).0
      by_read (failure (not_found x)) e = rw (e, reconcile) refl
      by_read (failure (Error.other x)) e = rw (e, reconcile) refl

  -- By induction on the steps.
  Serves-same :
      (Kept : Kind → String → String → Type 0) {a b : Run R C}
      → Serves Kept a b
      → (k : Kind) (ns name : String) → Kept k ns name
      → SameAt C (object k ns name) a.cluster b.cluster
  Serves-same Kept idle k ns name kept = refl
  Serves-same Kept (request {a} request_ns request_name outside rest) k ns name kept =
      Serves-same Kept rest k ns name kept
      ∙ request-same a request_ns request_name k ns name (λ gw e. outside gw e k ns name kept)
  Serves-same Kept (client s same rest) k ns name kept =
      Serves-same Kept rest k ns name kept ∙ same k ns name kept

  -- A request for a Gateway changes no object in another namespace, whatever its outcome, an error or a
  -- panic included, while no other client writes to the cluster, if setting an owner keeps the name
  -- and the namespace, and a Gateway is read in the namespace that was asked for: each read of a
  -- ConfigMap, a Secret, a Service, an Ingress, a HorizontalPodAutoscaler or a Deployment there
  -- answers as before.
  pub reconcile-isolated :
      FindsInNamespace C
      → (run : Run R C) (request_ns request_name ns : String) → request_ns ≢ ns
      → (k : Kind) (name : String)
      → (api_at C k).get ns name (reconcile request_ns request_name run).1.cluster
        ≡ (api_at C k).get ns name run.cluster
  reconcile-isolated found run request_ns request_name ns differ k name =
      request-same run request_ns request_name k ns name λ gw e.
        IsForeign-IsOutside ns gw
          (eq_false gw.meta.namespace ns (λ same.
            differ (sym (found.namespace request_ns request_name run.cluster gw e) ∙ same)))
          k name

-- The objects of a Gateway that it should find as they were made, the Secrets that it names included.
abbrev pub Wanted : Gateway → Kind → String → Type 0
Wanted gw config_maps name =
    ((name ≡ gw.meta.name) ⊎ (name ≡ gw.meta.name <> "-system"))
    ⊎ (((gw.spec.app.cluster_properties.enabled ≡ true) × (name ≡ gw.meta.name <> "-cwp-bundle"))
        ⊎ ((gw.spec.app.listen_ports.harden ≡ true)
            × (name ≡ gw.meta.name <> "-listen-port-bundle")))
Wanted gw secrets name =
    (name ≡ gw.meta.name)
    ⊎ ((name ≡ gw.spec.license.secret_name) ⊎ (name ≡ gw.spec.app.management.secret_name))
Wanted gw services name = (name ≡ gw.meta.name) ⊎ (name ≡ gw.meta.name <> "-management-service")
Wanted gw ingresses name = name ≡ gw.meta.name
Wanted gw hpas name = (gw.spec.app.autoscaling.enabled ≡ true) × (name ≡ gw.meta.name)
Wanted gw deployments name = name ≡ gw.meta.name

abbrev pub WantedAt : Gateway → Kind → String → String → Type 0
WantedAt gw k ns name = (ns ≡ gw.meta.namespace) × Wanted gw k name

-- What the cluster holds for a Gateway is a matter of these objects.
IsDesired-same :
    {R : Runtime} {C : Client} (gw : Gateway) (s s' : C.State)
    → ((k : Kind) (name : String)
        → Wanted gw k name
        → SameAt C (object k gw.meta.namespace name) s s')
    → IsDesired R C gw s
    → IsDesired R C gw s'
IsDesired-same {C} gw s s' same d = record {
  gateway_map = rw (same config_maps gw.meta.name (inl (inl refl))) d.gateway_map;
  system_map = rw (same config_maps (gw.meta.name <> "-system") (inl (inr refl))) d.system_map;
  deployment = rw (same deployments gw.meta.name refl) d.deployment;
  service = ap is_not_found (same services gw.meta.name (inl refl)) ∙ d.service;
  license = ap is_not_found (same secrets gw.spec.license.secret_name (inr (inl refl))) ∙ d.license;
  management_service = λ e.
      ap is_not_found (same services (gw.meta.name <> "-management-service") (inr refl))
      ∙ d.management_service e;
  ingress = λ e. rw (same ingresses gw.meta.name refl) (d.ingress e);
  own_secret = λ e. rw (same secrets gw.meta.name (inl refl)) (d.own_secret e);
  properties_there = λ e.
      ap is_not_found (same config_maps (gw.meta.name <> "-cwp-bundle") (inr (inl (e, refl))))
      ∙ d.properties_there e;
  ports_there = λ e.
      ap is_not_found
        (same config_maps (gw.meta.name <> "-listen-port-bundle") (inr (inr (e, refl))))
      ∙ d.ports_there e;
  hpa_there = λ e. ap is_not_found (same hpas gw.meta.name (e, refl)) ∙ d.hpa_there e;
  named_secret =
      λ e. ap is_not_found (same secrets (named_secret gw) (inr (inr refl))) ∙ d.named_secret e;
}

-- Once a Gateway, whose license Secret is not the one that the operator writes, has been reconciled with no
-- error reported, the parts of its objects that the controller compares stay as built: the entries of
-- the two ConfigMaps, the JSON of the containers and the service account of the Deployment, the spec of
-- the Ingress and the data of the operator's own Secret, where the spec asks for them; and no read of the
-- other objects that it asks for comes to answer "not found". So it is in whatever order the operator then
-- serves requests for Gateways that own none of these objects by their names, each with any outcome,
-- and other clients change the cluster, as long as these leave these objects. During a reconciliation no
-- other client writes, and setting an owner keeps the name and the namespace.
pub Serves-IsDesired :
    {R : Runtime} {C : Client}
    → KeepsKeys C
    → IsCluster C
    → IsLocal C
    → (run run' later : Run R C) (reply : Reply) → IsLicensed run.gateway
    → reply.error ≡ none
    → reconcile_gateway run ≡ (ok reply, run')
    → Serves (WantedAt run'.gateway) run' later
    → IsDesired R C run'.gateway later.cluster
Serves-IsDesired keys cluster local run run' later reply licensed no_error h steps =
    let (desired, _, _) =
      reconcile_gateway-IsDesired keys cluster run run' reply licensed no_error h in
    IsDesired-same run'.gateway run'.cluster later.cluster
      (λ k name wanted.
        Serves-same keys local (WantedAt run'.gateway) steps k run'.gateway.meta.namespace name
          (refl, wanted))
      desired
