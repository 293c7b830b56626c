-- ===== src/Tests/Held.antt =====
-- The Gateways of the cluster in memory, and two requests for one of them.
use mathlib.Core.Path.{subst, subst₂}
use layer7_operator.Prelude.{
  All, String, Bool, true, ◌≡◌, refl, ap, sym, ◌∙◌, ok, none, value, failure, Result, List, [], ◌∷◌,
  ◌==◌, ◌&&◌, Bool-cases, inl, inr, eq_refl, eq_iff, arith,
}
use layer7_operator.Api.Gateway.{Gateway, status_equal}
use layer7_operator.Kube.Pods.{Volume}
use layer7_operator.Controller.Footprint.Collision.{reconcile-collides}
use layer7_operator.Controller.Converge.Mounted.{IsMounted, reconcile-mounts}
use layer7_operator.Controller.Converge.Desired.{IsDesired}
use layer7_operator.Controller.Run.{Run, update_status}
use layer7_operator.Controller.Objects.{
  reconcile_config_map, reconcile_ingress, reconcile_deployment, reconcile_service,
  reconcile_management_service, reconcile_hpa, reconcile_secret,
}
use layer7_operator.Controller.Leader.{tag_management_pod, tag_first, has_leader}
use layer7_operator.Controller.Reconcile.{
  reconcile_credentials, reconcile_objects, reconcile_workload, reconcile_config_maps,
  require_secret, reconcile_status, reconcile_gateway, reconcile,
}
use layer7_operator.Controller.Status.{update_gateway_status, gateway_states, deployment_status}
use layer7_operator.Controller.Commit.{reconcile_bundles, get_latest_commit, head_commit}
use layer7_operator.Build.Config.{new_config_map, config_entries}
use layer7_operator.Build.Deployment.{new_deployment}
use layer7_operator.Build.Service.{new_service}
use layer7_operator.Controller.Converge.Resumed.{with_gateway, reconcile-settled}
use layer7_operator.Controller.Converge.Places.{
  Kind, config_maps, secrets, services, ingresses, hpas, deployments, Object,
}
use layer7_operator.Controller.Converge.Stored.{StoresGateways, IsHeld, read_back}
use layer7_operator.Tests.Cluster.{Cluster, sample_client, sample_client-KeepsKeys, find, as_read}
use layer7_operator.Tests.Sample.{sample_runtime}
use layer7_operator.Tests.Settled.{
  written, updated, ok-injective, first_run, steady, steady-IsPlain, sample_client-IsCluster,
}

got : Result Gateway → Gateway → Gateway
got (value x) y = x
got (failure e) y = y

value-injective : (x y : Gateway) → value x ≡ value y → x ≡ y
unfolding got
value-injective x y e = ap (λ r. got r x) e

-- What is found stands at its namespace and name.
find-key :
    (ns name : String) (l : List Gateway) (gw : Gateway)
    → find (λ g. g.meta) ns name l ≡ value gw
    → (gw.meta.namespace ≡ ns) × (gw.meta.name ≡ name)
find-key ns name [] gw e = ground arith
find-key ns name (g ∷ l) gw e = elim (Bool-cases (g.meta.namespace == ns && g.meta.name == name)) [
  | inl same ↦
      let found : value g ≡ value gw = rw same at e in
      let is_it = value-injective g gw found in
      let (same_ns, same_name) = both (g.meta.namespace == ns) (g.meta.name == name) same in
      (
        ap (λ x. x.meta.namespace) (sym is_it) ∙ (eq_iff g.meta.namespace ns).0 same_ns,
        ap (λ x. x.meta.name) (sym is_it) ∙ (eq_iff g.meta.name name).0 same_name,
      )
  | inr other ↦ find-key ns name l gw (rw other at e)
]
  where
    both : (a b : Bool) → (a && b) ≡ true → (a ≡ true) × (b ≡ true)
    both a b h = ground arith

gateways_kept :
    (k : Kind) (x : Object k) (s : Cluster) (ns name : String)
    → sample_client.get_gateway ns name (written k x s) ≡ sample_client.get_gateway ns name s
gateways_kept config_maps x s ns name = refl
gateways_kept secrets x s ns name = refl
gateways_kept services x s ns name = refl
gateways_kept ingresses x s ns name = refl
gateways_kept hpas x s ns name = refl
gateways_kept deployments x s ns name = refl

-- The Gateway that was just written is found.
held_so :
    (gw : Gateway) (s : Cluster)
    → IsHeld sample_client gw (record s { gateways = as_read gw ∷ s.gateways })
held_so gw s =
    (as_read gw, rw (eq_refl gw.meta.namespace, eq_refl gw.meta.name) refl, refl, inr refl)

pub sample_client-StoresGateways : StoresGateways sample_client
sample_client-StoresGateways = record {
  create = λ k x s s' e ns name.
      subst (λ t. sample_client.get_gateway ns name t ≡ sample_client.get_gateway ns name s)
        (ap (λ r. r.1) e) (gateways_kept k x s ns name);
  update = λ k x s s' e ns name.
      subst (λ t. sample_client.get_gateway ns name t ≡ sample_client.get_gateway ns name s)
        (ap (λ r. r.1) (sym (updated k x s) ∙ e)) (gateways_kept k x s ns name);
  update_status = λ gw gw' s s' e.
      subst₂ (λ g t. IsHeld sample_client g t) (ok-injective (ap (λ r. r.0) e)) (ap (λ r. r.1) e)
        (held_so gw s);
  key = λ ns name s gw e. find-key ns name s.gateways gw e;
}

abbrev asked_run : Run sample_runtime sample_client
asked_run = record first_run { cluster = record first_run.cluster { gateways = steady ∷ [] } }

abbrev answered_run : Run sample_runtime sample_client
answered_run = (reconcile "apim" "ssg" asked_run).1

answered :
    reconcile "apim" "ssg" asked_run
    ≡ (ok (record { requeue_after = 30; error = none }), answered_run)
unfolding reconcile reconcile_gateway reconcile_status update_gateway_status reconcile_bundles
    get_latest_commit head_commit update_status reconcile_objects require_secret
    reconcile_config_maps reconcile_config_map reconcile_credentials reconcile_secret
    reconcile_workload reconcile_service reconcile_management_service tag_management_pod tag_first
    has_leader reconcile_ingress reconcile_hpa reconcile_deployment new_config_map config_entries
    new_service new_deployment gateway_states status_equal deployment_status
answered = refl

full : read_back answered_run.gateway.status ≡ answered_run.gateway.status
unfolding reconcile reconcile_gateway reconcile_status update_gateway_status reconcile_bundles
    get_latest_commit head_commit update_status reconcile_objects require_secret
    reconcile_config_maps reconcile_config_map reconcile_credentials reconcile_secret
    reconcile_workload reconcile_service reconcile_management_service tag_management_pod tag_first
    has_leader reconcile_ingress reconcile_hpa reconcile_deployment new_config_map config_entries
    new_service new_deployment gateway_states status_equal deployment_status
full = refl

reconcile-settled_example :
    (g : Gateway) × (g.status ≡ answered_run.gateway.status)
    × (reconcile "apim" "ssg" answered_run
        ≡ (ok (record { requeue_after = 30; error = none }), with_gateway g answered_run))
reconcile-settled_example =
    reconcile-settled sample_client-KeepsKeys sample_client-IsCluster sample_client-StoresGateways
      "apim" "ssg" steady asked_run answered_run (record { requeue_after = 30; error = none }) refl
      steady-IsPlain refl answered full

-- A Gateway that is named as the first one's ConfigMap of system properties.
abbrev colliding : Gateway
colliding = record steady { meta = record steady.meta { name = "ssg-system" } }

reconcile-collides_example : ¬ IsDesired sample_runtime sample_client colliding answered_run.cluster
reconcile-collides_example =
    reconcile-collides sample_client-KeepsKeys sample_client-IsCluster sample_client-StoresGateways
      "apim" "ssg" steady colliding asked_run answered_run
      (record { requeue_after = 30; error = none }) refl steady-IsPlain.other_license refl answered
      refl refl

reconcile-mounts_example :
    All
      (λ (v : Volume).
        IsMounted sample_runtime sample_client answered_run.gateway answered_run.cluster v.source)
      (new_deployment answered_run.gateway).template.spec.volumes
reconcile-mounts_example =
    reconcile-mounts sample_client-KeepsKeys sample_client-IsCluster sample_client-StoresGateways
      "apim" "ssg" steady asked_run answered_run (record { requeue_after = 30; error = none }) refl
      steady-IsPlain.other_license refl answered
