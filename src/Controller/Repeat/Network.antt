-- ===== src/Controller/Repeat/Network.antt =====
-- A second reconciliation of the Ingress (`reconcileIngress` of controller.go).
use layer7_operator.Prelude.{
  Bool, true, ◌≡◌, refl, ok, some, none, not, ◌==◌, eq_refl, Option, if◌then◌else◌,
}
use layer7_operator.Prelude.Exec.{Exec}
use layer7_operator.Prelude.Equality.{list_equal_refl, option_equal_refl}
use layer7_operator.Kube.Net.{NetIngress, IngressRule, HttpIngressPath, IngressSpec}
use layer7_operator.Api.Gateway.{Gateway}
use layer7_operator.Runtime.{Runtime}
use layer7_operator.Build.Ingress.{new_ingress}
use layer7_operator.Controller.Client.{Client}
use layer7_operator.Controller.Equality.{path_equal, rule_equal, ingress_spec_equal}
use layer7_operator.Controller.Zero.{zero_ingress}
use layer7_operator.Controller.Run.{Run}
use layer7_operator.Controller.Objects.{reconcile_ingress, create_or_update}
use layer7_operator.Controller.Settled.{IsStore, pass_settled, gateway-create_or_update}
use layer7_operator.Controller.Repeat.{KeepsKeys, own_pass_settled}

path_equal_refl : (p : HttpIngressPath) → path_equal p p ≡ true
path_equal_refl p = rw (eq_refl, option_equal_refl ◌==◌ eq_refl p.path_type, eq_refl, eq_refl) refl

rule_equal_refl : (r : IngressRule) → rule_equal r r ≡ true
rule_equal_refl r =
    rw (eq_refl, option_equal_refl _ (list_equal_refl path_equal path_equal_refl) r.http) refl

pub ingress_spec_equal_refl : (s : IngressSpec) → ingress_spec_equal s s ≡ true
unfolding ingress_spec_equal
ingress_spec_equal_refl s =
    rw
      (
        option_equal_refl ◌==◌ eq_refl s.ingress_class_name,
        option_equal_refl _ (list_equal_refl ◌==◌ eq_refl) s.tls,
        option_equal_refl _ (list_equal_refl rule_equal rule_equal_refl) s.rules,
      )
      refl

module _ (R : Runtime) (C : Client) (gw : Gateway) where
  abbrev pub ingress_of : NetIngress
  ingress_of =
      let ingress = new_ingress gw in
      record ingress { meta = C.set_controller_reference gw ingress.meta }

  abbrev pub ingress_differs : NetIngress → Bool
  ingress_differs curr = not (ingress_spec_equal curr.spec (new_ingress gw).spec)

  abbrev ingress_plan : NetIngress → Option NetIngress
  ingress_plan curr = if ingress_differs curr then some ingress_of else none

  abbrev ingress_pass : Exec (Run R C) (Unit {0})
  ingress_pass run =
      create_or_update C.ingresses (C.ingresses.get gw.meta.namespace gw.meta.name run.cluster)
        zero_ingress ingress_of ingress_plan run

module _ {R : Runtime} {C : Client} (keys : KeepsKeys C) where
  -- After a reconciliation of the Ingress that returns no error, the next one returns no error and
  -- changes nothing, if the server stores an Ingress's spec as sent, and setting an owner keeps the name
  -- and the namespace.
  pub reconcile_ingress_settled :
      IsStore C.ingresses (λ x. x.meta) (λ x. x.spec)
      → (run run' : Run R C) → reconcile_ingress run ≡ (ok tt, run')
      → reconcile_ingress run' ≡ (ok tt, run')
  unfolding reconcile_ingress new_ingress
  reconcile_ingress_settled store run run' h =
      let gw = run.gateway in
      own_pass_settled (ingress_pass R C) run run'
        (gateway-create_or_update C.ingresses
          (C.ingresses.get gw.meta.namespace gw.meta.name run.cluster) zero_ingress
          (ingress_of R C gw) (ingress_plan R C gw) run)
        h
        (pass_settled C.ingresses (λ x. x.meta) (λ x. x.spec) store gw.meta.namespace gw.meta.name
          zero_ingress (ingress_of R C gw) (keys.namespace gw _) (keys.name gw _)
          (ingress_differs R C gw) (λ _. ingress_of R C gw)
          (λ y e. rw (e, ingress_spec_equal_refl (new_ingress gw).spec) refl)
          (λ y. (keys.namespace gw _, keys.name gw _, refl)) run run' h)
