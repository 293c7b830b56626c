-- ===== src/Controller/Repeat/Hpa.antt =====
-- Reconciling the HorizontalPodAutoscaler (`reconcileHPA` of controller.go).
use layer7_operator.Prelude.{false, ◌≡◌, ◌≢◌, refl, value, arith}
use layer7_operator.Prelude.Texts.{eq_false}
use layer7_operator.Kube.Net.{HorizontalPodAutoscaler}
use layer7_operator.Api.Gateway.{Gateway}
use layer7_operator.Runtime.{Runtime}
use layer7_operator.Build.Hpa.{new_hpa}
use layer7_operator.Controller.Client.{Client}
use layer7_operator.Controller.Equality.{hpa_equal}
use layer7_operator.Controller.Run.{Run, on_cluster}
use layer7_operator.Controller.Objects.{reconcile_hpa}

-- A stored object bears a resource version, and a new one does not.
hpa_equal-stored :
    (gw : Gateway) (curr : HorizontalPodAutoscaler)
    → curr.meta.resource_version ≢ ""
    → hpa_equal curr (new_hpa gw) ≡ false
unfolding hpa_equal new_hpa
hpa_equal-stored gw curr stored = rw (eq_false _ _ stored) ground arith

module _ {R : Runtime} {C : Client} where
  -- An HPA that is found is updated at every reconciliation, also if its spec is the one asked for, since
  -- the comparison takes in the resource version that the server has set.
  pub reconcile_hpa-rewrites :
      (run : Run R C) (curr : HorizontalPodAutoscaler)
      → C.hpas.get run.gateway.meta.namespace run.gateway.meta.name run.cluster ≡ value curr
      → curr.meta.resource_version ≢ ""
      → let hpa = new_hpa run.gateway in
        reconcile_hpa run
        ≡ on_cluster
            (C.hpas.update (record hpa { meta = C.set_controller_reference run.gateway hpa.meta }))
            run
  unfolding reconcile_hpa
  reconcile_hpa-rewrites run curr found stored =
      rw (found, hpa_equal-stored run.gateway curr stored) refl
