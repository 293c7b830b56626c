-- ===== src/Tests/Settled.antt =====
-- A reconciliation at a cluster in memory, and what that cluster promises.
use mathlib.Core.Path.{subst}
use mathlib.Core.Bool.{false≢true}
use layer7_operator.Prelude.{
  Outcome, err, panic, some, ◌∙◌, ◌≡◌, ◌≢◌, refl, sym, ap, true, false, List, All, [], ◌∷◌, String,
  ok, none, Bool, Bool-cases, Option, Option-cases, inl, inr, not, ◌==◌, arith, value, eq_iff,
}
use layer7_operator.Kube.Pods.{Pod}
use layer7_operator.Controller.Converge.Places.{
  Kind, config_maps, secrets, services, ingresses, hpas, deployments, Object, meta_of, view_of,
  api_at, Place, object, pods, nowhere, apart, SameAt, SameElsewhere, IsCluster,
}
use layer7_operator.Controller.Settled.{IsStore}
use layer7_operator.Controller.Run.{Run, found_or, update_status}
use layer7_operator.Controller.Objects.{
  reconcile_config_map, reconcile_ingress, reconcile_deployment, reconcile_service,
  reconcile_management_service, reconcile_hpa, reconcile_secret,
}
use layer7_operator.Controller.Leader.{tag_management_pod, tag_first, has_leader}
use layer7_operator.Controller.Reconcile.{
  reconcile_credentials, reconcile_objects, reconcile_workload, reconcile_config_maps,
  require_secret, reconcile_status, reconcile_gateway,
}
use layer7_operator.Controller.Status.{update_gateway_status, gateway_states, deployment_status}
use layer7_operator.Controller.Commit.{reconcile_bundles, get_latest_commit, head_commit}
use layer7_operator.Controller.Converge.Objects.{IsPlain}
use layer7_operator.Controller.Status.Report.{all_started}
use layer7_operator.Controller.Converge.Obedient.{IsObedient}
use layer7_operator.Build.Config.{new_config_map, config_entries}
use layer7_operator.Build.Deployment.{new_deployment}
use layer7_operator.Build.Service.{new_service}
use layer7_operator.Api.Gateway.{Gateway, status_equal}
use layer7_operator.Tests.Stored.{plain, license}
use layer7_operator.Tests.Sample.{sample_runtime}
use layer7_operator.Tests.Cluster.{
  empty_cluster, sample_pod, Cluster, as_read, sample_client, api_of-IsStore, get-elsewhere,
  add_started, listed_pods, set_config_maps, set_secrets, set_services, set_ingresses, set_hpas,
  set_deployments,
}

abbrev pub written : (k : Kind) → Object k → Cluster → Cluster
written k x s = ((api_at sample_client k).create x s).1

stores : (k : Kind) → IsStore (api_at sample_client k) (meta_of k) (view_of sample_client k)
stores config_maps =
    api_of-IsStore (meta_of config_maps) (λ s. s.config_maps) set_config_maps
      (view_of sample_client config_maps) (λ xs s. refl)
stores secrets =
    api_of-IsStore (meta_of secrets) (λ s. s.secrets) set_secrets (view_of sample_client secrets)
      (λ xs s. refl)
stores services =
    api_of-IsStore (meta_of services) (λ s. s.services) set_services
      (view_of sample_client services) (λ xs s. refl)
stores ingresses =
    api_of-IsStore (meta_of ingresses) (λ s. s.ingresses) set_ingresses
      (view_of sample_client ingresses) (λ xs s. refl)
stores hpas =
    api_of-IsStore (meta_of hpas) (λ s. s.hpas) set_hpas (view_of sample_client hpas) (λ xs s. refl)
stores deployments =
    api_of-IsStore (meta_of deployments) (λ s. s.deployments) set_deployments
      (view_of sample_client deployments) (λ xs s. refl)

not-true : (b : Bool) → not b ≡ true → b ≡ false
not-true b h = ground arith

-- A write changes no other object.
pub at_object :
    (k k' : Kind) (x : Object k) (ns name : String) (s : Cluster)
    → apart (object k (meta_of k x).namespace (meta_of k x).name) (object k' ns name) ≡ true
    → (api_at sample_client k').get ns name (written k x s)
      ≡ (api_at sample_client k').get ns name s
at_object config_maps config_maps x ns name s h =
    get-elsewhere (meta_of config_maps) (λ s. s.config_maps) set_config_maps x ns name s
      (λ xs. refl) (not-true _ h)
at_object config_maps k' x ns name s h = refl
at_object secrets secrets x ns name s h =
    get-elsewhere (meta_of secrets) (λ s. s.secrets) set_secrets x ns name s (λ xs. refl)
      (not-true _ h)
at_object secrets k' x ns name s h = refl
at_object services services x ns name s h =
    get-elsewhere (meta_of services) (λ s. s.services) set_services x ns name s (λ xs. refl)
      (not-true _ h)
at_object services k' x ns name s h = refl
at_object ingresses ingresses x ns name s h =
    get-elsewhere (meta_of ingresses) (λ s. s.ingresses) set_ingresses x ns name s (λ xs. refl)
      (not-true _ h)
at_object ingresses k' x ns name s h = refl
at_object hpas hpas x ns name s h =
    get-elsewhere (meta_of hpas) (λ s. s.hpas) set_hpas x ns name s (λ xs. refl) (not-true _ h)
at_object hpas k' x ns name s h = refl
at_object deployments deployments x ns name s h =
    get-elsewhere (meta_of deployments) (λ s. s.deployments) set_deployments x ns name s
      (λ xs. refl) (not-true _ h)
at_object deployments k' x ns name s h = refl

elsewhere :
    (k : Kind) (x : Object k) (s s' : Cluster)
    → written k x s ≡ s'
    → SameElsewhere sample_client k x s s'
elsewhere k x s s' e (object k' ns name) h =
    subst (λ t. SameAt sample_client (object k' ns name) s t) e (at_object k k' x ns name s h)
elsewhere k x s s' e pods h = subst (λ t. SameAt sample_client pods s t) e (pods_kept k x)
  where
    pods_kept : (k : Kind) (x : Object k) → SameAt sample_client pods s (written k x s)
    pods_kept config_maps x ns labels = refl
    pods_kept secrets x ns labels = refl
    pods_kept services x ns labels = refl
    pods_kept ingresses x ns labels = refl
    pods_kept hpas x ns labels = refl
    pods_kept deployments x ns labels = refl
elsewhere k x s s' e nowhere h = tt

pub updated :
    (k : Kind) (x : Object k) (s : Cluster)
    → (api_at sample_client k).update x s ≡ (ok tt, written k x s)
updated config_maps x s = refl
updated secrets x s = refl
updated services x s = refl
updated ingresses x s = refl
updated hpas x s = refl
updated deployments x s = refl

All-named : (l : List Pod) → All (λ p. p.meta.name ≢ "") (listed_pods l)
All-named [] = tt
All-named (pod ∷ l) = elim (Bool-cases (pod.meta.name == "")) [
  | inl e ↦ rw e (All-named l)
  | inr e ↦ rw e (
      by_start pod.start_time (λ same. false≢true (sym e ∙ (eq_iff pod.meta.name "").1 same))
        (All-named l))
]
  where
    by_start :
        (start : Option String)
        → pod.meta.name ≢ ""
        → All (λ p. p.meta.name ≢ "") (listed_pods l)
        → All (λ p. p.meta.name ≢ "") (add_started pod start (listed_pods l))
    by_start none named rest = rest
    by_start (some t) named rest = (named, rest)

pub all_started-listed_pods : (l : List Pod) → all_started (listed_pods l) ≡ true
all_started-listed_pods [] = refl
all_started-listed_pods (pod ∷ l) = elim (Bool-cases (pod.meta.name == "")) [
  | inl e ↦ rw e (all_started-listed_pods l)
  | inr e ↦ elim (Option-cases pod.start_time) [
    | inl start ↦ rw (e, start) (all_started-listed_pods l)
    | inr (t, start) ↦ rw (e, start) (all_started-listed_pods l)
  ]
]

unchanged : (s s' : Cluster) → s ≡ s' → (q : Place) → SameAt sample_client q s s'
unchanged s s' e (object k ns name) = ap (λ t. (api_at sample_client k).get ns name t) (sym e)
unchanged s s' e pods = λ ns labels. ap (λ t. value (listed_pods t.pods)) (sym e)
unchanged s s' e nowhere = tt

-- A status update writes the Gateway alone.
pub published :
    (gw : Gateway) (s : Cluster) (q : Place)
    → SameAt sample_client q s (record s { gateways = as_read gw ∷ s.gateways })
published gw s (object config_maps ns name) = refl
published gw s (object secrets ns name) = refl
published gw s (object services ns name) = refl
published gw s (object ingresses ns name) = refl
published gw s (object hpas ns name) = refl
published gw s (object deployments ns name) = refl
published gw s pods = λ ns labels. refl
published gw s nowhere = tt

value_of : Gateway → Outcome Gateway → Gateway
value_of gw (ok gw') = gw'
value_of gw (err e) = gw
value_of gw panic = gw

pub ok-injective : {gw gw' : Gateway} → ok gw ≡ ok gw' → gw ≡ gw'
unfolding value_of
ok-injective {gw} e = ap (value_of gw) e

pub sample_client-IsCluster : IsCluster sample_client
sample_client-IsCluster = record {
  stores = stores;
  create-elsewhere = λ k x s s' e. elsewhere k x s s' (ap (λ r. r.1) e);
  update-elsewhere = λ k x s s' e. elsewhere k x s s' (ap (λ r. r.1) (sym (updated k x s) ∙ e));
  patch_pod-objects =
      λ pod text s s' e k ns name. unchanged s s' (ap (λ r. r.1) e) (object k ns name);
  patch_pod-names = λ pod text s s' e ns labels listed found.
      (listed, ap (λ r. value (listed_pods r.1.pods)) (sym e) ∙ found, refl);
  pods_named = λ ns labels s listed found.
      subst (All (λ p. p.meta.name ≢ "")) (ap (found_or []) found) (All-named s.pods);
  update_status-places =
      λ gw gw' s s' e. λ q. subst (SameAt sample_client q s) (ap (λ r. r.1) e) (published gw s q);
  update_status-clone = λ gw gw' s s' e url. refl;
  update_status-echo = λ gw gw' s s' e.
      let same : gw ≡ gw' = ok-injective (ap (λ r. r.0) e) in
      (
        ap (λ g. g.status) (sym same),
        ap (λ g. g.spec) (sym same),
        ap (λ g. g.meta.name) (sym same),
        ap (λ g. g.meta.namespace) (sym same),
      );
}

abbrev pub steady : Gateway
steady = record plain {
  spec = record plain.spec {
    app = record plain.spec.app {
      autoscaling = record plain.spec.app.autoscaling { enabled = false };
    };
  };
}

abbrev pub first_run : Run sample_runtime sample_client
first_run = record {
  gateway = steady;
  cluster = record empty_cluster {
    secrets = license ∷ [];
    pods = sample_pod "ssg-0" true (some "noon") ∷ [];
  };
  entropy = 0;
}

abbrev pub second_run : Run sample_runtime sample_client
second_run = (reconcile_gateway first_run).1

pub steady-IsPlain : IsPlain steady
steady-IsPlain = record {
  no_properties = refl;
  no_ports = refl;
  no_autoscaling = refl;
  other_license = ground (arith, eq_iff "ssg" "license");
}

pub first_ended :
    reconcile_gateway first_run ≡ (ok (record { requeue_after = 30; error = none }), second_run)
unfolding reconcile_gateway reconcile_status update_gateway_status reconcile_bundles
    get_latest_commit head_commit update_status reconcile_objects require_secret
    reconcile_config_maps reconcile_config_map reconcile_credentials reconcile_secret
    reconcile_workload reconcile_service reconcile_management_service tag_management_pod tag_first
    has_leader reconcile_ingress reconcile_hpa reconcile_deployment new_config_map config_entries
    new_service new_deployment gateway_states status_equal deployment_status
first_ended = refl

pub created :
    (k : Kind) (x : Object k) (s : Cluster) → ((api_at sample_client k).create x s).0 ≡ ok tt
created config_maps x s = refl
created secrets x s = refl
created services x s = refl
created ingresses x s = refl
created hpas x s = refl
created deployments x s = refl

pub sample_client-IsObedient : IsObedient sample_client
unfolding get_latest_commit head_commit
sample_client-IsObedient = record {
  create = created;
  update = λ k x s. ap (λ r. r.0) (updated k x s);
  patch_pod = λ pod text s. refl;
  update_status = λ gw s. (gw, refl);
  list_pods = λ ns labels s. (listed_pods s.pods, refl, all_started-listed_pods s.pods);
  latest = λ url s. (url, refl);
}
