-- ===== src/Tests/Served.antt =====
-- Requests served at a cluster in memory.
use mathlib.Core.Path.{subst}
use mathlib.Core.Bool.{false≢true}
use layer7_operator.Prelude.{
  ◌∙◌, ◌≡◌, refl, sym, ap, true, false, List, [], ◌∷◌, ◌<>◌, String, ok, none, Bool, inl, inr,
  value, arith, ◌==◌, ◌&&◌, eq_iff, Result, failure, if◌then◌else◌,
}
use layer7_operator.Api.Gateway.{Gateway}
use layer7_operator.Controller.Run.{Run, found_or}
use layer7_operator.Controller.Reconcile.{Reply, reconcile}
use layer7_operator.Controller.Status.Report.{all_started}
use layer7_operator.Controller.Converge.Places.{
  Kind, config_maps, secrets, services, ingresses, hpas, deployments, object, SameAt,
}
use layer7_operator.Controller.Converge.Facts.{core}
use layer7_operator.Controller.Converge.Desired.{IsDesired, reconcile_gateway-IsDesired}
use layer7_operator.Controller.Footprint.Bounds.{IsOutside, IsLocal}
use layer7_operator.Controller.Footprint.Whole.{reconcile_gateway-confined}
use layer7_operator.Controller.Footprint.Served.{
  FindsInNamespace, Serves, idle, request, client, reconcile-isolated, Wanted, WantedAt,
  Serves-IsDesired,
}
use layer7_operator.Controller.Returns.{returns, IsTame}
use layer7_operator.Controller.Returns.Whole.{reconcile-replies}
use layer7_operator.Tests.Sample.{sample_runtime}
use layer7_operator.Tests.Safe.{sample_runtime-IsSafe}
use layer7_operator.Tests.Cluster.{Cluster, find, sample_client, sample_client-KeepsKeys}
use layer7_operator.Tests.Settled.{
  published, at_object, updated, created, steady, first_run, second_run, steady-IsPlain,
  first_ended, sample_client-IsCluster, all_started-listed_pods,
}

sample_client-IsLocal : IsLocal sample_client
sample_client-IsLocal = record {
  create = λ k x s k' ns name h. at_object k k' x ns name s h;
  update = λ k x s k' ns name h.
      subst (λ t. SameAt sample_client (object k' ns name) s t)
        (ap (λ r. r.1) (sym (updated k x s))) (at_object k k' x ns name s h);
  patch_pod = λ pod text s k ns name. refl;
  update_status = λ gw s k ns name. published gw s (object k ns name);
  answer = λ gw gw' s s' e. let same : gw ≡ gw' = ground arith in ap core (sym same);
}

abbrev namespace_or : String → Result Gateway → String
namespace_or ns (value g) = g.meta.namespace
namespace_or ns (failure e) = ns

-- A Gateway that is found stands in the namespace.
find-namespace :
    (ns name : String) (all : List Gateway) → namespace_or ns (find (λ g. g.meta) ns name all) ≡ ns
find-namespace ns name [] = refl
find-namespace ns name (g ∷ all) =
    by_tests (find-namespace ns name all) (g.meta.namespace == ns) (g.meta.name == name) refl
  where
    by_tests :
        namespace_or ns (find (λ g. g.meta) ns name all) ≡ ns
        → (b b' : Bool) → (g.meta.namespace == ns) ≡ b
        → namespace_or ns (if b && b' then value g else find (λ g. g.meta) ns name all) ≡ ns
    by_tests rest true true e = (eq_iff g.meta.namespace ns).0 e
    by_tests rest true false e = rest
    by_tests rest false b' e = rest

sample_client-FindsInNamespace : FindsInNamespace sample_client
sample_client-FindsInNamespace = record {
  namespace = λ ns name s gw e. sym (ap (namespace_or ns) e) ∙ find-namespace ns name s.gateways;
}

sample_client-IsTame : IsTame sample_runtime sample_client
sample_client-IsTame = record {
  safe = sample_runtime-IsSafe;
  create = λ k x s. ap returns (created k x s);
  update = λ k x s. ap (λ r. returns r.0) (updated k x s);
  patch_pod = λ pod text s. refl;
  update_status = λ gw s. refl;
  started = λ ns labels s pods found.
      subst (λ l. all_started l ≡ true) (ap (found_or []) found) (all_started-listed_pods s.pods);
  head = λ url s repo e none_there. ground arith;
}

reconcile-replies_example :
    (reply : Reply) × ((reconcile {R = sample_runtime} {C = sample_client} "apim" "ssg" first_run).0
      ≡ ok reply)
reconcile-replies_example = reconcile-replies sample_client-IsTame "apim" "ssg" first_run

-- A second Gateway in the same namespace.
abbrev other : Gateway
other = record steady { meta = record steady.meta { name = "other" } }

other-IsOutside :
    (k : Kind) (name : String)
    → ("other" == name) ≡ false
    → ("other-system" == name) ≡ false
    → ("other-management-service" == name) ≡ false
    → IsOutside other (object k "apim" name)
other-IsOutside k name h h' h'' = record {
  gateway_map = rw h (ground arith);
  system_map = rw h' (ground arith);
  properties_map = λ e. absurd (false≢true e);
  ports_map = λ e. absurd (false≢true e);
  secret = λ e. rw h (ground arith);
  service = rw h (ground arith);
  management_service = λ e. rw h'' (ground arith);
  ingress = λ e. rw h (ground arith);
  hpa = λ e. rw h (ground arith);
  deployment = rw h (ground arith);
}

-- It owns none of the objects of the first one.
other-IsApart :
    (gw : Gateway)
    → core gw ≡ core steady
    → (k : Kind) (ns name : String) → WantedAt gw k ns name
    → IsOutside other (object k ns name)
other-IsApart gw same k ns name (ns_eq, wanted) =
    subst (λ n. IsOutside other (object k n name)) (sym (ns_eq ∙ ap (λ g. g.meta.namespace) same))
      (by_kind k wanted)
  where
    own : (k : Kind) (name : String) → name ≡ gw.meta.name → IsOutside other (object k "apim" name)
    own k name e =
        subst (λ n. IsOutside other (object k "apim" n)) (sym (e ∙ ap (λ g. g.meta.name) same))
          (other-IsOutside k "ssg" refl refl refl)

    by_kind : (k : Kind) → Wanted gw k name → IsOutside other (object k "apim" name)
    by_kind config_maps (inl (inl e)) = own config_maps name e
    by_kind config_maps (inl (inr e)) =
        subst (λ n. IsOutside other (object config_maps "apim" n))
          (sym (e ∙ ap (λ g. g.meta.name <> "-system") same))
          (other-IsOutside config_maps "ssg-system" refl refl refl)
    by_kind config_maps (inr (inl (asks, e))) =
        absurd (false≢true (sym (ap (λ g. g.spec.app.cluster_properties.enabled) same) ∙ asks))
    by_kind config_maps (inr (inr (asks, e))) =
        absurd (false≢true (sym (ap (λ g. g.spec.app.listen_ports.harden) same) ∙ asks))
    by_kind secrets (inl e) = own secrets name e
    by_kind secrets (inr (inl e)) =
        subst (λ n. IsOutside other (object secrets "apim" n))
          (sym (e ∙ ap (λ g. g.spec.license.secret_name) same))
          (other-IsOutside secrets "license" refl refl refl)
    by_kind secrets (inr (inr e)) =
        subst (λ n. IsOutside other (object secrets "apim" n))
          (sym (e ∙ ap (λ g. g.spec.app.management.secret_name) same))
          (other-IsOutside secrets "" refl refl refl)
    by_kind services (inl e) = own services name e
    by_kind services (inr e) =
        subst (λ n. IsOutside other (object services "apim" n))
          (sym (e ∙ ap (λ g. g.meta.name <> "-management-service") same))
          (other-IsOutside services "ssg-management-service" refl refl refl)
    by_kind ingresses e = own ingresses name e
    by_kind hpas (asks, e) = own hpas name e
    by_kind deployments e = own deployments name e

-- What a read fills in, or the given Gateway.
abbrev gateway_or : Gateway → Result Gateway → Gateway
gateway_or g (value x) = x
gateway_or g (failure e) = g

found_other :
    (gw : Gateway) → find (λ g. g.meta) "apim" "other" (steady ∷ other ∷ []) ≡ value gw → other ≡ gw
found_other gw e = ap (gateway_or gw) e

first-IsOutside : IsOutside steady (object config_maps "apim" "other")
first-IsOutside = record {
  gateway_map = refl;
  system_map = refl;
  properties_map = λ e. absurd (false≢true e);
  ports_map = λ e. absurd (false≢true e);
  secret = λ e. refl;
  service = refl;
  management_service = λ e. refl;
  ingress = λ e. refl;
  hpa = λ e. refl;
  deployment = refl;
}

reconcile_gateway-confined_example :
    (sample_client.config_maps.get "apim" "other" second_run.cluster
      ≡ sample_client.config_maps.get "apim" "other" first_run.cluster)
    × (core second_run.gateway ≡ core first_run.gateway)
reconcile_gateway-confined_example =
    reconcile_gateway-confined sample_client-KeepsKeys sample_client-IsLocal first_run config_maps
      "apim" "other" first-IsOutside

-- Both Gateways are there, and a client has taken the pods away.
abbrev crowded : Cluster
crowded = record second_run.cluster { gateways = steady ∷ other ∷ []; pods = [] }

abbrev served : Run sample_runtime sample_client
served = (reconcile "apim" "other" (record second_run { cluster = crowded })).1

reconcile-isolated_example :
    sample_client.config_maps.get "elsewhere" "ssg" served.cluster
    ≡ sample_client.config_maps.get "elsewhere" "ssg" crowded
reconcile-isolated_example =
    reconcile-isolated sample_client-KeepsKeys sample_client-IsLocal sample_client-FindsInNamespace
      (record second_run { cluster = crowded }) "apim" "other" "elsewhere"
      (ground (arith, eq_iff "apim" "elsewhere")) config_maps "ssg"

kept : core second_run.gateway ≡ core steady
kept =
    (reconcile_gateway-IsDesired sample_client-KeepsKeys sample_client-IsCluster first_run
      second_run (record { requeue_after = 30; error = none }) steady-IsPlain.other_license refl
      first_ended).2

crowded-same :
    (k : Kind) (ns name : String)
    → SameAt sample_client (object k ns name) second_run.cluster crowded
crowded-same config_maps ns name = refl
crowded-same secrets ns name = refl
crowded-same services ns name = refl
crowded-same ingresses ns name = refl
crowded-same hpas ns name = refl
crowded-same deployments ns name = refl

steps : Serves (WantedAt second_run.gateway) second_run served
steps =
    client crowded (λ k ns name wanted. crowded-same k ns name)
      (request "apim" "other"
        (λ gw e k ns name wanted.
          subst (λ g. IsOutside g (object k ns name)) (found_other gw e)
            (other-IsApart second_run.gateway kept k ns name wanted))
        idle)

Serves-IsDesired_example : IsDesired sample_runtime sample_client second_run.gateway served.cluster
Serves-IsDesired_example =
    Serves-IsDesired sample_client-KeepsKeys sample_client-IsCluster sample_client-IsLocal first_run
      second_run served (record { requeue_after = 30; error = none }) steady-IsPlain.other_license
      refl first_ended steps
