-- ===== src/Controller/Returns/Statuses.antt =====
-- The functions of controller.go that write the status, or nothing, return.
use layer7_operator.Prelude.{
  String, Bool, true, false, ◌≡◌, ◌≢◌, refl, Outcome, ok, err, panic, Option, none, some, Result,
  value, failure, not_found, Error, from_result, List, [], ◌∷◌, not, ◌==◌, Option-cases, inl, inr,
  if◌then◌else◌,
}
use layer7_operator.Prelude.Exec.{Exec, proceed, pure, raise, ◌>>◌}
use layer7_operator.Kube.Pods.{Pod}
use layer7_operator.Api.Gateway.{Gateway, GatewayState, GatewayStatus, status_equal}
use layer7_operator.Runtime.{Runtime}
use layer7_operator.Labels.{default_labels}
use layer7_operator.Controller.Client.{Client}
use layer7_operator.Controller.Zero.{zero_deployment}
use layer7_operator.Controller.Run.{
  Run, is_not_found, found_or, answered, modify_gateway, when, update_status,
}
use layer7_operator.Controller.Leader.{tag_first, tag_management_pod, leader_patch, has_leader}
use layer7_operator.Controller.Status.{update_gateway_status, deployment_status, gateway_states}
use layer7_operator.Controller.Status.Report.{all_started, gateway_states-reported}
use layer7_operator.Controller.Commit.{
  head_commit, get_latest_commit, reconcile_bundles, set_commit_id,
}
use layer7_operator.Controller.Reconcile.{require_secret}
use layer7_operator.Controller.Returns.{
  returns, Returns, IsTame, proceed-returns, when-Returns, if-Returns,
}

module _ {R : Runtime} {C : Client} (tame : IsTame R C) where
  update_status-Returns : Returns {S = Run R C} update_status
  unfolding update_status
  update_status-Returns run =
      by_answer (C.update_status run.gateway run.cluster).0
        (tame.update_status run.gateway run.cluster)
    where
      by_answer :
          (r : Outcome Gateway)
          → returns r ≡ true
          → returns (answered run (r, (C.update_status run.gateway run.cluster).1)).0 ≡ true
      by_answer (ok gw) h = refl
      by_answer (err e) h = refl
      by_answer panic h = h

  publish-Returns :
      (b : Bool) (f : Gateway → Gateway)
      → Returns {S = Run R C} (when b (modify_gateway f >> update_status))
  publish-Returns b f =
      when-Returns b (modify_gateway f >> update_status)
        λ run. update_status-Returns (record run { gateway = f run.gateway })

  tag_first-Returns : (pods : List Pod) → Returns {S = Run R C} (tag_first pods)
  unfolding tag_first
  tag_first-Returns [] run = refl
  tag_first-Returns (pod ∷ pods) run =
      proceed-returns (C.patch_pod pod leader_patch run.cluster).0 _ _
        (tame.patch_pod pod leader_patch run.cluster) λ _ t. update_status-Returns _

  pub tag_management_pod-Returns : Returns {S = Run R C} tag_management_pod
  unfolding tag_management_pod
  tag_management_pod-Returns run =
      by_list (C.list_pods run.gateway.meta.namespace (default_labels run.gateway) run.cluster)
    where
      go : List Pod → Exec (Run R C) (Unit {0})
      go pods = if has_leader run.gateway pods then pure tt else tag_first pods

      by_list : (got : Result (List Pod)) → returns (proceed (from_result got) run go).0 ≡ true
      by_list (value pods) =
          if-Returns (has_leader run.gateway pods) (pure tt) (tag_first pods) (λ s. refl)
            (tag_first-Returns pods) run
      by_list (failure e) = refl

  -- A test for an object that was read.
  found-Returns :
      {A : Type 0} (got : Result A)
      → Returns {S = Run R C} (elim (is_not_found got) [ none ↦ pure tt | some e ↦ raise e ])
  found-Returns (value x) run = refl
  found-Returns (failure (not_found x)) run = refl
  found-Returns (failure (Error.other x)) run = refl

  pub require_secret-Returns : (name : String) → Returns {S = Run R C} (require_secret name)
  unfolding require_secret
  require_secret-Returns name run =
      found-Returns (C.secrets.get run.gateway.meta.namespace name run.cluster) run

  pub update_gateway_status-Returns : Returns {S = Run R C} update_gateway_status
  unfolding update_gateway_status
  update_gateway_status-Returns run =
      let gw = run.gateway in
      let got = C.deployments.get gw.meta.namespace gw.meta.name run.cluster in
      let listed = C.list_pods gw.meta.namespace (default_labels gw) run.cluster in
      elim (Option-cases (is_not_found got)) [
        | inl e ↦
            rw e (by_list listed (tame.started gw.meta.namespace (default_labels gw) run.cluster))
        | inr (x, e) ↦ rw e refl
      ]
    where
      gw : Gateway
      gw = run.gateway

      reported : List GatewayState → GatewayStatus
      reported states =
          record (deployment_status gw (
            found_or zero_deployment
              (C.deployments.get gw.meta.namespace gw.meta.name run.cluster))) {
                gateway = some states;
              }

      publish : List GatewayState → Exec (Run R C) (Unit {0})
      publish states =
          when (not (status_equal (reported states) gw.status))
            (modify_gateway (λ g. record g { status = reported states }) >> update_status)

      collect : List Pod → Exec (Run R C) (Unit {0})
      collect pods t = proceed (gateway_states gw.spec.app.image pods false) t publish

      by_list :
          (r : Result (List Pod))
          → ((pods : List Pod) → r ≡ value pods → all_started pods ≡ true)
          → returns (proceed (from_result r) run collect).0 ≡ true
      by_list (value pods) started =
          let (states, made, _) =
            gateway_states-reported gw.spec.app.image pods (started pods refl) in
          rw made (
            publish-Returns (not (status_equal (reported states) gw.status))
              (λ g. record g { status = reported states }) run)
      by_list (failure e) started = refl

  get_latest_commit-returns :
      (url : String) (s : C.State) → returns (get_latest_commit C url s) ≡ true
  unfolding get_latest_commit head_commit
  get_latest_commit-returns url s = by_clone (C.clone url s) (tame.head url s)
    where
      by_head :
          (repo : C.Repo) (h : Option String) → h ≢ none → returns (head_commit C repo h) ≡ true
      by_head repo none there = absurd (there refl)
      by_head repo (some hash) there = by_object (C.commit_object repo hash)
        where
          by_object : (r : Result String) → returns (from_result r) ≡ true
          by_object (value x) = refl
          by_object (failure e) = refl

      by_clone :
          (r : Result C.Repo)
          → ((repo : C.Repo) → r ≡ value repo → C.head repo ≢ none)
          → returns (elim r as (λ _. Outcome String) [
            | value repo ↦ head_commit C repo (C.head repo)
            | failure e ↦ err e
          ])
            ≡ true
      by_clone (value repo) there = by_head repo (C.head repo) (there repo refl)
      by_clone (failure e) there = refl

  pub reconcile_bundles-Returns : Returns {S = Run R C} reconcile_bundles
  unfolding reconcile_bundles
  reconcile_bundles-Returns run =
      let url = run.gateway.spec.app.repository.url in
      proceed-returns (get_latest_commit C url run.cluster) run _
        (get_latest_commit-returns url run.cluster)
        λ commit.
          publish-Returns (not (run.gateway.status.commit_id == commit)) (set_commit_id commit)
