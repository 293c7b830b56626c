-- ===== src/Controller/Repeat/Deployment.antt =====
-- Reconciling the Deployment (`reconcileDeployment` of controller.go).
use mathlib.Core.Bool.{false≢true}
use layer7_operator.Prelude.{
  sym, ◌≢◌, ◌⊎◌, not, ◌||◌, eq_iff, String, Bool, true, false, ◌≡◌, refl, ◌∙◌, ap, some, none,
  value, ok, eq_refl, arith, if◌then◌else◌, Bool-cases, inl, inr,
}
use layer7_operator.Prelude.Exec.{Exec}
use layer7_operator.Kube.Pods.{Deployment}
use layer7_operator.Api.Gateway.{Gateway}
use layer7_operator.Runtime.{Runtime}
use layer7_operator.Build.Deployment.{new_deployment}
use layer7_operator.Controller.Client.{Client}
use layer7_operator.Controller.Zero.{zero_deployment}
use layer7_operator.Controller.Run.{Run, on_cluster}
use layer7_operator.Controller.Objects.{
  reconcile_deployment, keep_replicas, needs_update, own_deployment, create_or_update,
}
use layer7_operator.Controller.Settled.{IsStore, pass_settled, gateway-create_or_update}
use layer7_operator.Controller.Repeat.{KeepsKeys, own_pass_settled}

-- What the comparison reads of a Deployment: the JSON of its containers, and the service account.
abbrev pub compared_view : Client → Deployment → String × String
compared_view C d =
    (C.marshal_containers d.template.spec.containers, d.template.spec.service_account_name)

neither : (a b : Bool) → (not a || not b) ≡ false → (a ≡ true) × (b ≡ true)
neither a b h = ground arith

module _ (R : Runtime) (C : Client) (gw : Gateway) where
  abbrev pub revised : Deployment → Deployment
  revised curr = own_deployment C gw (keep_replicas gw curr (new_deployment gw))

  abbrev pub differs : Deployment → Bool
  differs curr = needs_update C curr (keep_replicas gw curr (new_deployment gw))

  abbrev deployment_pass : Exec (Run R C) (Unit {0})
  deployment_pass run =
      create_or_update C.deployments (C.deployments.get gw.meta.namespace gw.meta.name run.cluster)
        zero_deployment (own_deployment C gw (new_deployment gw))
        (λ curr. if differs curr then some (revised curr) else none) run

  -- Keeping the replicas changes neither the template nor the metadata.
  pub template-keep_replicas :
      (curr : Deployment)
      → (keep_replicas gw curr (new_deployment gw)).template ≡ (new_deployment gw).template
  unfolding keep_replicas
  template-keep_replicas curr = ground arith

  pub meta-keep_replicas :
      (curr : Deployment)
      → (keep_replicas gw curr (new_deployment gw)).meta ≡ (new_deployment gw).meta
  unfolding keep_replicas
  meta-keep_replicas curr = ground arith

  -- The revised Deployment stands where the new one stands, and is compared alike.
  pub meta-revised :
      (curr : Deployment)
      → (revised curr).meta ≡ C.set_controller_reference gw (new_deployment gw).meta
  unfolding own_deployment
  meta-revised curr = ap (C.set_controller_reference gw) (meta-keep_replicas curr)

  pub revised-view :
      (curr : Deployment) → compared_view C (revised curr) ≡ compared_view C (new_deployment gw)
  unfolding own_deployment
  revised-view curr =
      ap (λ t. (C.marshal_containers t.spec.containers, t.spec.service_account_name))
        (template-keep_replicas curr)

  pub meta-own_deployment :
      (own_deployment C gw (new_deployment gw)).meta
      ≡ C.set_controller_reference gw (new_deployment gw).meta
  unfolding own_deployment
  meta-own_deployment = refl

  pub own_deployment-view :
      compared_view C (own_deployment C gw (new_deployment gw))
      ≡ compared_view C (new_deployment gw)
  unfolding own_deployment
  own_deployment-view = refl

  pub needs_update-same :
      (curr : Deployment)
      → compared_view C curr ≡ compared_view C (new_deployment gw)
      → differs curr ≡ false
  unfolding needs_update
  needs_update-same curr e =
      rw (template-keep_replicas curr, ap (λ v. v.0) e, ap (λ v. v.1) e, eq_refl, eq_refl) refl

  -- A Deployment that needs no update has the view that is wanted.
  pub view-needs_update :
      (curr : Deployment)
      → differs curr ≡ false
      → compared_view C curr ≡ compared_view C (new_deployment gw)
  unfolding needs_update
  view-needs_update curr h =
      let (containers, account) = neither _ _ (rw (template-keep_replicas curr) at h) in
      λ i. ((eq_iff _ _).0 containers i, (eq_iff _ _).0 account i)

  replicas-keep_replicas :
      (curr : Deployment)
      → (keep_replicas gw curr (new_deployment gw)).replicas
        ≡ (if gw.spec.app.autoscaling.enabled then curr.replicas else some gw.spec.app.replicas)
  unfolding keep_replicas new_deployment
  replicas-keep_replicas curr = elim (Bool-cases gw.spec.app.autoscaling.enabled) [
    | inl e ↦ rw e refl
    | inr e ↦ rw e refl
  ]

module _ {R : Runtime} {C : Client} where
  -- One update is sent, of what is built for the Gateway, after the Deployment that was found.
  abbrev pub Revises : Run R C → Deployment → Type 0
  Revises run curr =
      (dep : Deployment) × (reconcile_deployment run ≡ on_cluster (C.deployments.update dep) run)
      × (dep.meta.name ≡ run.gateway.meta.name)
      × (dep.meta.namespace ≡ run.gateway.meta.namespace)
      × (dep.template ≡ (new_deployment run.gateway).template)
      × (dep.replicas ≡ (
          if run.gateway.spec.app.autoscaling.enabled
          then curr.replicas
          else some run.gateway.spec.app.replicas))

  -- For a Deployment that is found, if setting an owner keeps the name and the namespace: where the JSON of
  -- its containers and its service account are those that are built, it is left alone, whatever else
  -- differs. Where one of them differs, one update is sent, of the Deployment of the Gateway's name
  -- and namespace, with the template that is built; its replicas are those of the found one under
  -- autoscaling, and those of the spec otherwise.
  pub reconcile_deployment-found :
      KeepsKeys C
      → (run : Run R C) (curr : Deployment)
      → C.deployments.get run.gateway.meta.namespace run.gateway.meta.name run.cluster ≡ value curr
      → ((compared_view C curr ≡ compared_view C (new_deployment run.gateway))
          × (reconcile_deployment run ≡ (ok tt, run)))
        ⊎ ((compared_view C curr ≢ compared_view C (new_deployment run.gateway)) × Revises run curr)
  unfolding reconcile_deployment own_deployment new_deployment
  reconcile_deployment-found keys run curr found =
      let gw = run.gateway in
      elim (Bool-cases (differs R C gw curr)) [
        | inl e ↦ inr (
          (λ same. false≢true (sym (needs_update-same R C gw curr same) ∙ e)),
          (
            revised R C gw curr,
            rw (found, e) refl,
            ap (λ m. m.name) (meta-revised R C gw curr) ∙ keys.name gw (new_deployment gw).meta,
            ap (λ m. m.namespace) (meta-revised R C gw curr)
                ∙ keys.namespace gw (new_deployment gw).meta,
            template-keep_replicas R C gw curr,
            replicas-keep_replicas R C gw curr,
          ),
        )
        | inr e ↦ inl (view-needs_update R C gw curr e, rw (found, e) refl)
      ]

  pub gateway-reconcile_deployment :
      (run : Run R C) → (reconcile_deployment run).1.gateway ≡ run.gateway
  unfolding reconcile_deployment
  gateway-reconcile_deployment run =
      let gw = run.gateway in
      gateway-create_or_update C.deployments
        (C.deployments.get gw.meta.namespace gw.meta.name run.cluster) zero_deployment
        (own_deployment C gw (new_deployment gw))
        (λ curr. if differs R C gw curr then some (revised R C gw curr) else none) run

  -- After a reconciliation of the Deployment that returns no error, the next one returns no error and
  -- changes nothing, if the server stores the containers and the service account as sent, and setting an
  -- owner keeps the name and the namespace.
  pub reconcile_deployment_settled :
      KeepsKeys C
      → IsStore C.deployments (λ d. d.meta) (compared_view C)
      → (run run' : Run R C) → reconcile_deployment run ≡ (ok tt, run')
      → reconcile_deployment run' ≡ (ok tt, run')
  unfolding reconcile_deployment own_deployment new_deployment
  reconcile_deployment_settled keys store run run' h =
      let gw = run.gateway in
      own_pass_settled (deployment_pass R C) run run' (gateway-reconcile_deployment run) h (
        pass_settled C.deployments (λ d. d.meta) (compared_view C) store gw.meta.namespace
          gw.meta.name zero_deployment (own_deployment C gw (new_deployment gw))
          (keys.namespace gw _) (keys.name gw _) (differs R C gw) (revised R C gw)
          (λ y e. needs_update-same R C gw y e)
          (λ y. (
            keys.namespace gw _ ∙ ap (λ m. m.namespace) (meta-keep_replicas R C gw y),
            keys.name gw _ ∙ ap (λ m. m.name) (meta-keep_replicas R C gw y),
            ap (λ t. (C.marshal_containers t.spec.containers, t.spec.service_account_name))
                (template-keep_replicas R C gw y),
          ))
          run run' h)
