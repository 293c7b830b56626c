-- ===== src/Controller/Footprint/Statuses.antt =====
-- The functions of controller.go that write the status, or nothing, leave every object.
use layer7_operator.Prelude.{
  from_result, String, Bool, false, ◌≡◌, refl, ◌∙◌, some, not, ◌==◌, Option-cases, inl, inr, List,
  [], ◌∷◌,
}
use layer7_operator.Prelude.Exec.{pure, ◌>>◌}
use layer7_operator.Kube.Pods.{Pod}
use layer7_operator.Labels.{default_labels}
use layer7_operator.Controller.Zero.{zero_deployment}
use layer7_operator.Api.Gateway.{Gateway, GatewayState, GatewayStatus, status_equal}
use layer7_operator.Runtime.{Runtime}
use layer7_operator.Controller.Client.{Client}
use layer7_operator.Controller.Run.{is_not_found, found_or, modify_gateway, when, update_status}
use layer7_operator.Controller.Leader.{
  tag_first, tag_management_pod, leader_patch, set_management_pod, has_leader,
}
use layer7_operator.Controller.Status.{update_gateway_status, deployment_status, gateway_states}
use layer7_operator.Controller.Commit.{reconcile_bundles, set_commit_id}
use layer7_operator.Controller.Reconcile.{require_secret, reconcile_status}
use layer7_operator.Controller.Converge.Places.{Kind}
use layer7_operator.Controller.Converge.Facts.{core}
use layer7_operator.Controller.Footprint.Bounds.{IsLocal}
use layer7_operator.Controller.Footprint.Confined.{
  Confined, proceed-IsKept, call-IsKept, when-Confined, on_cluster-Confined, if-Confined,
  found-Confined, update_status-Confined,
}

module _ (R : Runtime) {C : Client} (local : IsLocal C) (gw : Gateway) (k : Kind)
    (ns name : String) where
  -- A change of the status, and its publication.
  publish-Confined :
      (b : Bool) (f : Gateway → Gateway)
      → ((g : Gateway) → core (f g) ≡ core g)
      → Confined {R = R} {C = C} gw k ns name (when b (modify_gateway f >> update_status))
  publish-Confined b f h =
      when-Confined gw k ns name b (modify_gateway f >> update_status) λ _ s run (same, at).
        update_status-Confined gw k ns name local s (record run { gateway = f run.gateway })
          (h run.gateway ∙ same, at)

  tag_first-Confined : (pods : List Pod) → Confined {R = R} {C = C} gw k ns name (tag_first pods)
  unfolding tag_first
  tag_first-Confined [] s run kept = kept
  tag_first-Confined (pod ∷ pods) s run kept =
      proceed-IsKept gw k ns name s _ _ _
        (on_cluster-Confined gw k ns name (C.patch_pod pod leader_patch)
          (λ t. local.patch_pod pod leader_patch t k ns name) s run kept)
        λ _ t kept'.
          update_status-Confined gw k ns name local s
            (record t { gateway = set_management_pod pod.meta.name t.gateway }) kept'

  pub tag_management_pod-Confined : Confined {R = R} {C = C} gw k ns name tag_management_pod
  unfolding tag_management_pod
  tag_management_pod-Confined s run kept = proceed-IsKept gw k ns name s _ _ _ kept λ pods t kept'.
      if-Confined gw k ns name (has_leader run.gateway pods) (pure tt) (tag_first pods)
        (λ _ s run kept. kept) (λ _. tag_first-Confined pods) s t kept'

  update_gateway_status-Confined : Confined {R = R} {C = C} gw k ns name update_gateway_status
  unfolding update_gateway_status
  update_gateway_status-Confined s run kept =
      let g = run.gateway in
      let got = C.deployments.get g.meta.namespace g.meta.name run.cluster in
      let listed = C.list_pods g.meta.namespace (default_labels g) run.cluster in
      let reported : List GatewayState → GatewayStatus = λ states.
        record (deployment_status g (found_or zero_deployment got)) { gateway = some states } in
      elim (Option-cases (is_not_found got)) [
        | inl e ↦ rw e (
            proceed-IsKept gw k ns name s (from_result listed) run _ kept λ pods u kept'.
              proceed-IsKept gw k ns name s (gateway_states g.spec.app.image pods false) u _ kept'
                λ states.
                  publish-Confined (not (status_equal (reported states) g.status))
                    (λ x. record x { status = reported states }) (λ x. refl) s)
        | inr (x, e) ↦ rw e kept
      ]

  reconcile_bundles-Confined : Confined {R = R} {C = C} gw k ns name reconcile_bundles
  unfolding reconcile_bundles
  reconcile_bundles-Confined s run kept = proceed-IsKept gw k ns name s _ _ _ kept λ commit t kept'.
      publish-Confined (not (run.gateway.status.commit_id == commit)) (set_commit_id commit)
        (λ g. refl) s t kept'

  pub require_secret-Confined :
      (n : String) → Confined {R = R} {C = C} gw k ns name (require_secret n)
  unfolding require_secret
  require_secret-Confined n s run kept =
      found-Confined gw k ns name (C.secrets.get run.gateway.meta.namespace n run.cluster) s run
        kept

  pub reconcile_status-Confined : Confined {R = R} {C = C} gw k ns name reconcile_status
  unfolding reconcile_status
  reconcile_status-Confined s run kept =
      call-IsKept gw k ns name update_gateway_status _ s run update_gateway_status-Confined kept
        λ _ t.
          when-Confined gw k ns name t.gateway.spec.app.repository.enabled reconcile_bundles
            (λ _. reconcile_bundles-Confined) s t
