-- ===== src/Controller/Converge/Obedient.antt =====
-- Calls of controller.go on a cluster that accepts what it is sent.
use mathlib.Core.Path.{subst}
use layer7_operator.Prelude.{
  String, Bool, true, false, ◌≡◌, refl, ap, sym, ◌∙◌, Option, none, some, Result, value, failure,
  not_found, Error, ok, List, [], ◌∷◌, Bool-cases, inl, inr,
}
use layer7_operator.Prelude.Dict.{Dict}
use layer7_operator.Prelude.Exec.{Exec, proceed, ◌>>◌}
use layer7_operator.Kube.Pods.{Pod}
use layer7_operator.Api.Gateway.{Gateway}
use layer7_operator.Runtime.{Runtime}
use layer7_operator.Labels.{default_labels}
use layer7_operator.Controller.Client.{Client}
use layer7_operator.Controller.Run.{
  Run, is_not_found, answered, modify_gateway, when, update_status,
}
use layer7_operator.Controller.Objects.{create_or_update, write_if}
use layer7_operator.Controller.Leader.{has_leader, leader_patch, tag_first, tag_management_pod}
use layer7_operator.Controller.Status.{update_gateway_status}
use layer7_operator.Controller.Status.Report.{
  all_started, deployment_read, update_gateway_status-published,
}
use layer7_operator.Controller.Commit.{get_latest_commit, set_commit_id, reconcile_bundles}
use layer7_operator.Controller.Converge.Places.{Kind, Object, api_at}
use layer7_operator.Controller.Converge.Passes.{Pass, run_pass, read_at, plan_of}

-- The API server accepts what it is sent, and lists pods that have all started; the repository can be read.
pub record IsObedient (C : Client) : Type 0 where
  pub create : (k : Kind) (x : Object k) (s : C.State) → ((api_at C k).create x s).0 ≡ ok tt
  pub update : (k : Kind) (x : Object k) (s : C.State) → ((api_at C k).update x s).0 ≡ ok tt
  pub patch_pod : (pod : Pod) (text : String) (s : C.State) → (C.patch_pod pod text s).0 ≡ ok tt
  pub update_status :
      (gw : Gateway) (s : C.State) → (gw' : Gateway) × ((C.update_status gw s).0 ≡ ok gw')
  pub list_pods :
      (ns : String) (labels : Dict String) (s : C.State)
      → (pods : List Pod) × (C.list_pods ns labels s ≡ value pods) × (all_started pods ≡ true)
  pub latest :
      (url : String) (s : C.State) → (commit : String) × (get_latest_commit C url s ≡ ok commit)

module _ {R : Runtime} {C : Client} where
  abbrev pub Ends : Exec (Run R C) (Unit {0}) → Run R C → Type 0
  Ends m run = (m run).0 ≡ ok tt

  pub >>-Ends :
      (m k : Exec (Run R C) (Unit {0})) (run : Run R C)
      → Ends m run
      → Ends k (m run).1
      → Ends (m >> k) run
  >>-Ends m k run e h = subst (λ r. (proceed r (m run).1 (λ _. k)).0 ≡ ok tt) (sym e) h

  pub when-Ends :
      (b : Bool) (m : Exec (Run R C) (Unit {0})) (run : Run R C)
      → (b ≡ true → Ends m run)
      → Ends (when b m) run
  when-Ends true m run h = h refl
  when-Ends false m run h = refl

  module _ (obedient : IsObedient C) where
    pub update_status-Ends : (run : Run R C) → Ends update_status run
    unfolding update_status
    update_status-Ends run =
        let (gw', e) = obedient.update_status run.gateway run.cluster in
        subst (λ r. (answered run (r, (C.update_status run.gateway run.cluster).1)).0 ≡ ok tt)
          (sym e) refl

    publish-Ends :
        (b : Bool) (f : Gateway → Gateway) (run : Run R C)
        → Ends (when b (modify_gateway f >> update_status)) run
    publish-Ends b f run =
        when-Ends b (modify_gateway f >> update_status) run
          (λ _. update_status-Ends (record run { gateway = f run.gateway }))

    pub create_or_update-Ends :
        (k : Kind) (got : Result (Object k)) (zero_value fresh : Object k)
        (plan : Object k → Option (Object k)) (run : Run R C)
        → Ends (create_or_update (api_at C k) got zero_value fresh plan) run
    create_or_update-Ends k got zero_value fresh plan run = by_read got
      where
        by_plan :
            (o : Option (Object k)) → (write_if {R = R} {C = C} (api_at C k).update o run).0 ≡ ok tt
        by_plan none = refl
        by_plan (some x) = obedient.update k x run.cluster

        by_read :
            (got : Result (Object k))
            → (create_or_update {R = R} {C = C} (api_at C k) got zero_value fresh plan run).0
              ≡ ok tt
        by_read (value x) = by_plan (plan x)
        by_read (failure (not_found x)) = obedient.create k fresh run.cluster
        by_read (failure (Error.other x)) = by_plan (plan zero_value)

    pub run_pass-Ends : (p : Pass C) (run : Run R C) → Ends (run_pass p) run
    run_pass-Ends p run =
        create_or_update-Ends p.kind (read_at p run.gateway run.cluster) p.zero_value
          (p.fresh run.gateway) (plan_of p run.gateway) run

    tag_first-Ends : (listed : List Pod) (run : Run R C) → Ends (tag_first listed) run
    unfolding tag_first
    tag_first-Ends [] run = refl
    tag_first-Ends (pod ∷ pods) run =
        rw (obedient.patch_pod pod leader_patch run.cluster) (update_status-Ends _)

    pub tag_management_pod-Ends : (run : Run R C) → Ends tag_management_pod run
    unfolding tag_management_pod
    tag_management_pod-Ends run =
        let (listed, found, _) =
          obedient.list_pods run.gateway.meta.namespace (default_labels run.gateway) run.cluster in
        elim (Bool-cases (has_leader run.gateway listed)) [
          | inl e ↦ rw (found, e) refl
          | inr e ↦ rw (found, e) (tag_first-Ends listed run)
        ]

    pub update_gateway_status-Ends :
        (run : Run R C) → is_not_found (deployment_read run) ≡ none → Ends update_gateway_status run
    update_gateway_status-Ends run readable =
        let (listed, found, started) =
          obedient.list_pods run.gateway.meta.namespace (default_labels run.gateway) run.cluster in
        let (status, same, _, _, _, _) =
          update_gateway_status-published run readable found started in
        ap (λ r. r.0) same ∙ publish-Ends _ (λ g. record g { status = status }) run

    pub reconcile_bundles-Ends : (run : Run R C) → Ends reconcile_bundles run
    unfolding reconcile_bundles
    reconcile_bundles-Ends run =
        let (commit, latest) = obedient.latest run.gateway.spec.app.repository.url run.cluster in
        rw latest (publish-Ends _ (set_commit_id commit) run)
