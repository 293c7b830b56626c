-- ===== src/Controller/Converge/Resumed.antt =====
-- Requests that are served one after the other, each with the Gateway as it is read (`Reconcile` of
-- controller.go).
use mathlib.Core.Path.{subst₂}
use layer7_operator.Prelude.{
  ◌≡◌, String, refl, ap, sym, ◌∙◌, none, ok, value, Bool, true, false, inl, inr,
}
use layer7_operator.Api.Gateway.{Gateway, GatewayStatus}
use layer7_operator.Runtime.{Runtime}
use layer7_operator.Controller.Client.{Client}
use layer7_operator.Controller.Run.{Run, found_or}
use layer7_operator.Controller.Zero.{zero_deployment}
use layer7_operator.Controller.Commit.{get_latest_commit}
use layer7_operator.Controller.Status.{deployment_status}
use layer7_operator.Controller.Status.Report.{deployment_read}
use layer7_operator.Controller.Reconcile.{Reply, reconcile, reconcile_gateway}
use layer7_operator.Controller.Repeat.{KeepsKeys}
use layer7_operator.Controller.Converge.Places.{IsCluster, object, pods, nowhere}
use layer7_operator.Controller.Converge.Facts.{core, AllHold, Moves}
use layer7_operator.Controller.Converge.Steps.{HoldsIf}
use layer7_operator.Controller.Converge.Objects.{IsPlain, IsPlain-core, IsLicensed, object_facts}
use layer7_operator.Controller.Converge.Parts.{has_management, has_ingress}
use layer7_operator.Controller.Converge.Status.{IsReported, IsRecorded, wanted, with_status}
use layer7_operator.Controller.Converge.Published.{IsReported-Moves}
use layer7_operator.Controller.Converge.Fixpoint.{Facts, objects_idle}
use layer7_operator.Controller.Converge.Whole.{
  Statuses, Statuses-idle, AllHold-nowhere, after_well, has_repository,
}
use layer7_operator.Controller.Converge.Stored.{
  StoresGateways, IsStored, IsHeld, ReadsAs, read_back,
}
use layer7_operator.Controller.Converge.Held.{reconcile_gateway-IsStored}
use layer7_operator.Controller.Converge.Desired.{IsDesired, reconcile_gateway-IsDesired}

-- The run with the Gateway as it was read.
abbrev pub with_gateway : {R : Runtime} {C : Client} → Gateway → Run R C → Run R C
with_gateway gw run = record run { gateway = gw }

module _ {R : Runtime} {C : Client} where
  -- A request for a Gateway that is read.
  pub reconcile-found :
      (ns name : String) (gw : Gateway) (run : Run R C)
      → C.get_gateway ns name run.cluster ≡ value gw
      → reconcile ns name run ≡ reconcile_gateway (with_gateway gw run)
  unfolding reconcile
  reconcile-found ns name gw run e = rw (reconcile, e) refl

  -- The same core and the same status.
  module _ (g : Gateway) (run : Run R C) (same : core g ≡ core run.gateway)
      (status : g.status ≡ run.gateway.status) where
    read_again-Moves : Moves nowhere run (with_gateway g run)
    read_again-Moves (object k ns name) other = (same, refl, tt)
    read_again-Moves pods other =
        (same, (λ ns labels. refl), ap (λ (st : GatewayStatus). st.management_pod) status)
    read_again-Moves nowhere other = (same, tt, tt)

    IsReported-read_again : IsReported run → IsReported (with_gateway g run)
    unfolding deployment_status
    IsReported-read_again r =
        IsReported-Moves run (with_gateway g run) read_again-Moves r.readable r.found r.made (
          (λ i.
            wanted (with_status (same i).spec (status i))
              (found_or zero_deployment (deployment_read run)) r.states)
          ∙ r.current
          ∙ sym status)

    IsRecorded-read_again : IsRecorded run → IsRecorded (with_gateway g run)
    IsRecorded-read_again r =
        (λ i. get_latest_commit C (same i).spec.app.repository.url run.cluster)
        ∙ r
        ∙ ap (λ (st : GatewayStatus). ok st.commit_id) (sym status)

    by_repository :
        (b : Bool) → HoldsIf b (IsRecorded run) → HoldsIf b (IsRecorded (with_gateway g run))
    by_repository true r = IsRecorded-read_again r
    by_repository false r = tt

    Statuses-read_again :
        Statuses (has_repository run.gateway) run → Statuses (has_repository g) (with_gateway g run)
    Statuses-read_again (reported, recorded) = (
      IsReported-read_again reported,
      rw (ap has_repository same) (by_repository (has_repository run.gateway) recorded),
    )

-- A status without empty lists is read as it was sent.
read_as_sent : (st st' : GatewayStatus) → read_back st ≡ st → ReadsAs st st' → st' ≡ st
read_as_sent st st' full (inl e) = e
read_as_sent st st' full (inr e) = e ∙ full

module _ {R : Runtime} {C : Client} (keys : KeepsKeys C) (cluster : IsCluster C)
    (server : StoresGateways C) where
  Facts-read_again :
      (g : Gateway) (run : Run R C)
      → core g ≡ core run.gateway
      → g.status ≡ run.gateway.status
      → Facts keys cluster run
      → Facts keys cluster (with_gateway g run)
  Facts-read_again g run same status facts =
      subst₂ (λ m i. AllHold (object_facts keys cluster m i) (with_gateway g run))
        (ap has_management (sym same)) (ap has_ingress (sym same))
        (AllHold-nowhere run (with_gateway g run)
          (object_facts keys cluster (has_management run.gateway) (has_ingress run.gateway))
          (read_again-Moves g run same status) facts)

  -- A Gateway that was read is the one that the server holds.
  pub read-IsStored :
      (ns name : String) (gw : Gateway) (run : Run R C)
      → C.get_gateway ns name run.cluster ≡ value gw
      → IsStored (with_gateway gw run)
  read-IsStored ns name gw run e =
      let (same_ns, same_name) = server.key ns name run.cluster gw e in
      (gw, (λ i. C.get_gateway (same_ns i) (same_name i) run.cluster) ∙ e, refl, inl refl)

  -- If a request for a Gateway reports no error, where its license Secret is not the one that the operator
  -- writes, setting an owner keeps the name and the namespace and no other client writes: after it
  -- the server answers a read of the Gateway with the status that is wanted of the Deployment and the pods that
  -- are then read, empty lists left out, and with the spec as it was. Of the objects, the
  -- two ConfigMaps answer as the entries that are built, the containers, as JSON, and the service
  -- account of the Deployment are those that are built, and the Ingress and the operator's own
  -- Secret, where the spec asks for them, are found equal to those that are built. No read of the Services,
  -- the bundles' ConfigMaps and the HorizontalPodAutoscaler that it asks for, or of the Secrets that
  -- it names, answers "not found".
  pub reconcile-IsDesired :
      (ns name : String) (gw : Gateway) (run run' : Run R C) (reply : Reply)
      → C.get_gateway ns name run.cluster ≡ value gw
      → IsLicensed gw
      → reply.error ≡ none
      → reconcile ns name run ≡ (ok reply, run')
      → IsHeld C run'.gateway run'.cluster
        × IsReported run'
        × IsDesired R C run'.gateway run'.cluster
        × (core run'.gateway ≡ core gw)
  reconcile-IsDesired ns name gw run run' reply found licensed no_error h =
      let start = with_gateway gw run in
      let h' = sym (reconcile-found ns name gw run found) ∙ h in
      let (desired, reported, same) =
        reconcile_gateway-IsDesired keys cluster start run' reply licensed no_error h' in
      (
        reconcile_gateway-IsStored server keys cluster start run' reply no_error h'
            (read-IsStored ns name gw run found),
        reported,
        desired,
        same,
      )

  -- The next request reads the Gateway anew.
  reconcile_gateway-idle :
      (run : Run R C)
      → IsPlain run.gateway
      → Facts keys cluster run
      → Statuses (has_repository run.gateway) run
      → reconcile_gateway run ≡ (ok (record { requeue_after = 30; error = none }), run)
  unfolding reconcile_gateway
  reconcile_gateway-idle run plain facts held =
      rw (objects_idle keys cluster run plain facts, Statuses-idle run held) refl

  -- If a request for a plain Gateway reports no error, and no list of the status that it leaves is empty
  -- without being nil: the next request for it reads that status, reports no error, changes nothing in
  -- the cluster and draws no random bytes, and it asks to be called again in 30 seconds. Setting an owner
  -- keeps the name and the namespace, and no other client writes.
  pub reconcile-settled :
      (ns name : String) (gw : Gateway) (run run' : Run R C) (reply : Reply)
      → C.get_gateway ns name run.cluster ≡ value gw
      → IsPlain gw
      → reply.error ≡ none
      → reconcile ns name run ≡ (ok reply, run')
      → read_back run'.gateway.status ≡ run'.gateway.status
      → (g : Gateway) × (g.status ≡ run'.gateway.status)
        × (reconcile ns name run'
            ≡ (ok (record { requeue_after = 30; error = none }), with_gateway g run'))
  reconcile-settled ns name gw run run' reply found plain no_error h full =
      let start = with_gateway gw run in
      let h' = sym (reconcile-found ns name gw run found) ∙ h in
      let (facts, held, same) =
        after_well keys cluster start run' reply plain.other_license no_error h' in
      let (g, read, same_core, reads) =
        reconcile_gateway-IsStored server keys cluster start run' reply no_error h'
          (read-IsStored ns name gw run found) in
      let status = read_as_sent run'.gateway.status g.status full reads in
      let (same_ns, same_name) = server.key ns name run.cluster gw found in
      let found' : C.get_gateway ns name run'.cluster ≡ value g =
        (λ i.
          C.get_gateway (sym (ap (λ x. x.meta.namespace) same ∙ same_ns) i)
            (sym (ap (λ x. x.meta.name) same ∙ same_name) i) run'.cluster)
        ∙ read in
      (
        g,
        status,
        reconcile-found ns name g run' found'
            ∙ reconcile_gateway-idle (with_gateway g run')
                (IsPlain-core gw g (same_core ∙ same) plain)
                (Facts-read_again g run' same_core status facts)
                (Statuses-read_again g run' same_core status held),
      )
