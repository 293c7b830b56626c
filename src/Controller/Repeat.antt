-- ===== src/Controller/Repeat.antt =====
-- A second reconciliation of an object (`reconcileSecret`, `reconcileConfigMap`, `reconcileIngress` and
-- `reconcileDeployment` of controller.go).
pub mod Deployment
pub mod Hpa
pub mod ConfigMap
pub mod Network
use mathlib.Core.Path.{subst}
use layer7_operator.Prelude.{
  Bool, Option, true, false, ◌≡◌, refl, sym, ◌∙◌, ap, Bool-cases, inl, inr, some, none, not, ok,
  if◌then◌else◌,
}
use layer7_operator.Prelude.Dict.{NodupKeys}
use layer7_operator.Prelude.Slice.{map_equal}
use layer7_operator.Prelude.Exec.{Exec}
use layer7_operator.Prelude.Equality.{dict_equal_refl}
use layer7_operator.Kube.Meta.{ObjectMeta, CoreSecret}
use layer7_operator.Api.Gateway.{Gateway}
use layer7_operator.Runtime.{Runtime}
use layer7_operator.Build.Secret.{secret_entries, new_secret}
use layer7_operator.Controller.Client.{Client}
use layer7_operator.Controller.Zero.{zero_secret}
use layer7_operator.Controller.Run.{Run}
use layer7_operator.Controller.Objects.{reconcile_secret, create_or_update}
use layer7_operator.Controller.Settled.{IsStore, pass_settled, gateway-create_or_update}

-- `ctrl.SetControllerReference` adds an owner, and leaves the namespace and the name.
pub record KeepsKeys (C : Client) : Type 0 where
  pub name : (gw : Gateway) (m : ObjectMeta) → (C.set_controller_reference gw m).name ≡ m.name
  pub namespace :
      (gw : Gateway) (m : ObjectMeta) → (C.set_controller_reference gw m).namespace ≡ m.namespace

-- A pass over an object of the state's own Gateway: the next pass reads the same Gateway.
pub own_pass_settled :
    {R : Runtime} {C : Client} (at : Gateway → Exec (Run R C) (Unit {0})) (run run' : Run R C)
    → (at run.gateway run).1.gateway ≡ run.gateway
    → at run.gateway run ≡ (ok tt, run')
    → at run.gateway run' ≡ (ok tt, run')
    → at run'.gateway run' ≡ (ok tt, run')
own_pass_settled at run run' kept h again =
    subst (λ gw. at gw run' ≡ (ok tt, run')) (sym kept ∙ ap (λ r. r.1.gateway) h) again

-- What a test that answers true on equal views says of it.
not-equal : (b : Bool) → b ≡ true → not b ≡ false
not-equal b e = rw e refl

module _ (R : Runtime) (C : Client) (gw : Gateway) where
  abbrev pub secret_of : CoreSecret
  secret_of =
      let secret = new_secret gw in
      record secret { meta = C.set_controller_reference gw secret.meta }

  abbrev secret_plan : CoreSecret → Option CoreSecret
  secret_plan curr =
      if not (map_equal curr.contents (new_secret gw).contents) then some secret_of else none

  abbrev secret_pass : Exec (Run R C) (Unit {0})
  secret_pass run =
      create_or_update C.secrets (C.secrets.get gw.meta.namespace gw.meta.name run.cluster)
        zero_secret secret_of secret_plan run

secret_entries-NodupKeys : (gw : Gateway) → NodupKeys (secret_entries gw)
unfolding secret_entries
secret_entries-NodupKeys gw = elim (Bool-cases gw.spec.app.management.database.enabled) [
  | inl e ↦ rw e (refl, (refl, (refl, (refl, (refl, tt)))))
  | inr e ↦ rw e (refl, (refl, (refl, tt)))
]

-- The data of the Secret compare as the same with themselves.
pub new_secret-unchanged :
    (gw : Gateway) → not (map_equal (new_secret gw).contents (new_secret gw).contents) ≡ false
unfolding new_secret
new_secret-unchanged gw = not-equal _ (dict_equal_refl _ (secret_entries-NodupKeys gw))

module _ {R : Runtime} {C : Client} (keys : KeepsKeys C) where
  -- After a reconciliation of the Secret that returns no error, the next one returns no error and changes
  -- nothing, if the server stores a Secret's data as sent, and setting an owner keeps the name and the
  -- namespace.
  pub reconcile_secret_settled :
      IsStore C.secrets (λ s. s.meta) (λ s. s.contents)
      → (run run' : Run R C) → reconcile_secret run ≡ (ok tt, run')
      → reconcile_secret run' ≡ (ok tt, run')
  unfolding reconcile_secret new_secret
  reconcile_secret_settled store run run' h =
      let gw = run.gateway in
      own_pass_settled (secret_pass R C) run run'
        (gateway-create_or_update C.secrets
          (C.secrets.get gw.meta.namespace gw.meta.name run.cluster) zero_secret (secret_of R C gw)
          (secret_plan R C gw) run)
        h
        (pass_settled C.secrets (λ s. s.meta) (λ s. s.contents) store gw.meta.namespace gw.meta.name
          zero_secret (secret_of R C gw) (keys.namespace gw _) (keys.name gw _)
          (λ curr. not (map_equal curr.contents (new_secret gw).contents)) (λ _. secret_of R C gw)
          (λ y e. rw e (new_secret-unchanged gw)) (λ y. (keys.namespace gw _, keys.name gw _, refl))
          run run' h)
