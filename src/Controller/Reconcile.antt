-- ===== src/Controller/Reconcile.antt =====
-- `Reconcile` of controller.go.
use layer7_operator.Prelude.{
  ℕ, String, ◌<>◌, Error, Outcome, ok, err, panic, value, failure, not_found, Option, none, some,
  not, ◌==◌, if◌then◌else◌,
}
use layer7_operator.Prelude.Exec.{Exec, raise, pure, ◌>>=◌, ◌>>◌}
use layer7_operator.Runtime.{Runtime}
use layer7_operator.Controller.Client.{Client}
use layer7_operator.Controller.Run.{Run, is_not_found, read, ask, when}
use layer7_operator.Controller.Objects.{
  reconcile_config_map, reconcile_secret, reconcile_service, reconcile_management_service,
  reconcile_ingress, reconcile_hpa, reconcile_deployment,
}
use layer7_operator.Controller.Status.{update_gateway_status}
use layer7_operator.Controller.Leader.{tag_management_pod}
use layer7_operator.Controller.Commit.{reconcile_bundles}

-- `ctrl.Result` and the error. The delay is in seconds, 0 for none.
pub record Reply : Type 0 where
  pub requeue_after : ℕ
  pub error : Option Error

module _ {R : Runtime} {C : Client} where
  -- A Secret that must be there. An error other than "not found" is passed over.
  unfoldable pub require_secret : String → Exec (Run R C) (Unit {0})
  require_secret name = do
    gw ← ask (λ gw. gw)
    got ← read (C.secrets.get gw.meta.namespace name)
    elim (is_not_found got) [ none ↦ pure tt | some e ↦ raise e ]

  unfoldable pub reconcile_config_maps : Exec (Run R C) (Unit {0})
  reconcile_config_maps = do
    gw ← ask (λ gw. gw)
    reconcile_config_map gw.meta.name
    reconcile_config_map (gw.meta.name <> "-system")
    when gw.spec.app.cluster_properties.enabled
        (reconcile_config_map (gw.meta.name <> "-cwp-bundle"))
    when gw.spec.app.listen_ports.harden
        (reconcile_config_map (gw.meta.name <> "-listen-port-bundle"))

  unfoldable pub reconcile_credentials : Exec (Run R C) (Unit {0})
  unfolding require_secret
  reconcile_credentials = do
    name ← ask (λ gw. gw.spec.app.management.secret_name)
    if not (name == "") then require_secret name else reconcile_secret

  unfoldable pub reconcile_workload : Exec (Run R C) (Unit {0})
  reconcile_workload = do
    gw ← ask (λ gw. gw)
    reconcile_service
    when gw.spec.app.management.service.enabled (reconcile_management_service >> tag_management_pod)
    when gw.spec.app.ingress.enabled reconcile_ingress
    when gw.spec.app.autoscaling.enabled reconcile_hpa
    reconcile_deployment

  -- From the license to the Deployment. An error is returned with no delay.
  unfoldable pub reconcile_objects : Exec (Run R C) (Unit {0})
  unfolding require_secret reconcile_config_maps reconcile_credentials reconcile_workload
  reconcile_objects = do
    license ← ask (λ gw. gw.spec.license.secret_name)
    require_secret license
    reconcile_config_maps
    reconcile_credentials
    reconcile_workload

  -- The status and the commit. An error is returned with a delay of 10 seconds.
  unfoldable pub reconcile_status : Exec (Run R C) (Unit {0})
  reconcile_status = do
    update_gateway_status
    repository ← ask (λ gw. gw.spec.app.repository.enabled)
    when repository reconcile_bundles

  abbrev pub answer : ℕ → ℕ → Outcome (Unit {0}) × Run R C → Outcome Reply × Run R C
  answer done failed (ok u, run) = (ok (record { requeue_after = done; error = none }), run)
  answer done failed (err e, run) = (ok (record { requeue_after = failed; error = some e }), run)
  answer done failed (panic, run) = (panic, run)

  abbrev pub after_objects : Outcome (Unit {0}) × Run R C → Outcome Reply × Run R C
  after_objects (ok u, run) = answer 30 10 (reconcile_status run)
  after_objects (err e, run) = (ok (record { requeue_after = 0; error = some e }), run)
  after_objects (panic, run) = (panic, run)

  -- `Reconcile` once the Gateway is read.
  unfoldable pub reconcile_gateway : Exec (Run R C) Reply
  unfolding reconcile_objects reconcile_status
  reconcile_gateway run = after_objects (reconcile_objects run)

  -- `Reconcile` of a request, by the Gateway's namespace and name. The Gateway of the state that it
  -- starts in is not read.
  unfoldable pub reconcile : String → String → Exec (Run R C) Reply
  unfolding reconcile_gateway
  reconcile namespace name run = elim (C.get_gateway namespace name run.cluster) [
    | value gw ↦ reconcile_gateway (record run { gateway = gw })
    | failure (not_found gateway) ↦ (ok (record { requeue_after = 0; error = none }), run)
    | failure (Error.other message) ↦
        (ok (record { requeue_after = 0; error = some (Error.other message) }), run)
  ]
