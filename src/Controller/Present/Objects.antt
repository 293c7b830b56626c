-- ===== src/Controller/Present/Objects.antt =====
-- The Secret and the Deployment are there once they are reconciled (`reconcileSecret` and
-- `reconcileDeployment` of controller.go, and the choice of the Secret in `Reconcile`).
use mathlib.Core.Path.{subst}
use layer7_operator.Prelude.{
  ◌≡◌, refl, ◌∙◌, ap, sym, none, some, ok, not, ◌==◌, if◌then◌else◌, Bool-cases, Result, value,
  failure, not_found, Error, inl, inr, Bool, true, false, arith, String,
}
use layer7_operator.Prelude.Slice.{map_equal}
use layer7_operator.Kube.Meta.{CoreSecret}
use layer7_operator.Kube.Pods.{Deployment}
use layer7_operator.Runtime.{Runtime}
use layer7_operator.Build.Secret.{new_secret}
use layer7_operator.Build.Deployment.{new_deployment}
use layer7_operator.Build.Deployment.Containers.{secret_name}
use layer7_operator.Controller.Client.{Client}
use layer7_operator.Controller.Zero.{zero_secret, zero_deployment}
use layer7_operator.Controller.Run.{Run}
use layer7_operator.Controller.Objects.{
  reconcile_secret, reconcile_deployment, keep_replicas, own_deployment, needs_update,
}
use layer7_operator.Controller.Reconcile.{require_secret, reconcile_credentials}
use layer7_operator.Controller.Settled.{IsStore}
use layer7_operator.Controller.Repeat.{KeepsKeys}
use layer7_operator.Controller.Repeat.Deployment.{meta-keep_replicas}
use layer7_operator.Controller.Present.{IsPresent, pass-IsPresent}

module _ {A : Type 0} where
  -- A plan that can only answer one object.
  planned-eq : (test : Bool) (x z : A) → (if test then some x else none) ≡ some z → x ≡ z
  planned-eq true x z h = ground arith
  planned-eq false x z h = ground arith

module _ {R : Runtime} {C : Client} {V : Type 0} (keys : KeepsKeys C) (view : CoreSecret → V)
    (store : IsStore C.secrets (λ s. s.meta) view) (run run' : Run R C) where
  reconcile_secret-IsPresent :
      reconcile_secret run ≡ (ok tt, run')
      → IsPresent C.secrets run.gateway.meta.namespace run.gateway.meta.name run'.cluster
  unfolding reconcile_secret new_secret
  reconcile_secret-IsPresent h =
      let gw = run.gateway in
      let secret : CoreSecret = record (new_secret gw) {
        meta = C.set_controller_reference gw (new_secret gw).meta;
      } in
      pass-IsPresent C.secrets (λ s. s.meta) view store gw.meta.namespace gw.meta.name zero_secret
        secret
        (λ curr.
          if not (map_equal curr.contents (new_secret gw).contents) then some secret else none)
        (keys.namespace gw _, keys.name gw _)
        (λ y z e.
          let same = planned-eq _ secret z e in
          (
            ap (λ x. x.meta.namespace) (sym same) ∙ keys.namespace gw _,
            ap (λ x. x.meta.name) (sym same) ∙ keys.name gw _,
          ))
        run run' h

  require_secret-IsPresent :
      (name : String)
      → require_secret name run ≡ (ok tt, run')
      → IsPresent C.secrets run.gateway.meta.namespace name run'.cluster
  unfolding require_secret
  require_secret-IsPresent name h =
      by_read (C.secrets.get run.gateway.meta.namespace name run.cluster) refl
    where
      by_read :
          (got : Result CoreSecret)
          → C.secrets.get run.gateway.meta.namespace name run.cluster ≡ got
          → IsPresent C.secrets run.gateway.meta.namespace name run'.cluster
      by_read (value secret) e =
          let idle : (ok tt, run) ≡ (ok tt, run') = rw e at h in
          subst (IsPresent C.secrets run.gateway.meta.namespace name) (λ i. (idle i).1.cluster)
            (rw e refl)
      by_read (failure (not_found missing)) e = let raised = rw e at h in ground arith
      by_read (failure (Error.other message)) e =
          let idle : (ok tt, run) ≡ (ok tt, run') = rw e at h in
          subst (IsPresent C.secrets run.gateway.meta.namespace name) (λ i. (idle i).1.cluster)
            (rw e refl)

  -- Once the credentials are reconciled without error, a read of the Secret that the gateway container
  -- takes its environment from does not answer "not found", whether it is the operator's own Secret or
  -- one that the spec names, if the server keeps a Secret that it has accepted, and setting an owner
  -- keeps the name and the namespace.
  pub reconcile_credentials-IsPresent :
      reconcile_credentials run ≡ (ok tt, run')
      → IsPresent C.secrets run.gateway.meta.namespace (secret_name run.gateway) run'.cluster
  unfolding reconcile_credentials secret_name
  reconcile_credentials-IsPresent h =
      elim (Bool-cases (run.gateway.spec.app.management.secret_name == "")) [
        | inl e ↦ rw e (reconcile_secret-IsPresent (rw e at h))
        | inr e ↦ rw e (require_secret-IsPresent _ (rw e at h))
      ]

module _ {R : Runtime} {C : Client} {V : Type 0} (keys : KeepsKeys C) (view : Deployment → V)
    (store : IsStore C.deployments (λ d. d.meta) view) (run run' : Run R C) where
  -- Once the Deployment is reconciled without error, a read of it does not answer "not found", if the
  -- server keeps a Deployment that it has accepted, and setting an owner keeps the name and the
  -- namespace.
  pub reconcile_deployment-IsPresent :
      reconcile_deployment run ≡ (ok tt, run')
      → IsPresent C.deployments run.gateway.meta.namespace run.gateway.meta.name run'.cluster
  unfolding reconcile_deployment new_deployment own_deployment keep_replicas
  reconcile_deployment-IsPresent h =
      let gw = run.gateway in
      pass-IsPresent C.deployments (λ d. d.meta) view store gw.meta.namespace gw.meta.name
        zero_deployment (own_deployment C gw (new_deployment gw))
        (λ curr.
          if needs_update C curr (keep_replicas gw curr (new_deployment gw))
          then some (own_deployment C gw (keep_replicas gw curr (new_deployment gw)))
          else none)
        (keys.namespace gw _, keys.name gw _)
        (λ y z e.
          let same =
            planned-eq _ (own_deployment C gw (keep_replicas gw y (new_deployment gw))) z e in
          let meta = meta-keep_replicas R C gw y in
          (
            ap (λ x. x.meta.namespace) (sym same)
                ∙ keys.namespace gw _
                ∙ ap (λ m. m.namespace) meta,
            ap (λ x. x.meta.name) (sym same) ∙ keys.name gw _ ∙ ap (λ m. m.name) meta,
          ))
        run run' h
