-- ===== src/Controller/Converge/Reached.antt =====
-- `Reconcile` of controller.go on a cluster that accepts what it is sent.
use layer7_operator.Api.Gateway.{Gateway}
use layer7_operator.Prelude.{String, value, ◌≡◌, refl, ap, ◌∙◌, none, ok}
use layer7_operator.Runtime.{Runtime}
use layer7_operator.Controller.Client.{Client}
use layer7_operator.Controller.Run.{Run}
use layer7_operator.Controller.Reconcile.{
  reconcile_objects, reconcile_status, reconcile, reconcile_gateway, answer, after_objects,
}
use layer7_operator.Controller.Repeat.{KeepsKeys}
use layer7_operator.Controller.Converge.Places.{IsCluster}
use layer7_operator.Controller.Converge.Objects.{IsLicensed}
use layer7_operator.Controller.Converge.Parts.{ended}
use layer7_operator.Controller.Converge.Fixpoint.{objects_done}
use layer7_operator.Controller.Converge.Status.{IsReported}
use layer7_operator.Controller.Converge.Desired.{IsDesired}
use layer7_operator.Controller.Converge.Facts.{core}
use layer7_operator.Controller.Converge.Stored.{StoresGateways, IsHeld}
use layer7_operator.Controller.Converge.Resumed.{with_gateway, reconcile-found, reconcile-IsDesired}
use layer7_operator.Controller.Converge.Ending.{
  HasSecrets, reconcile_objects-Ends, reconcile_status-Ends,
}
use layer7_operator.Controller.Converge.Mapped.{IsSafeFor}
use layer7_operator.Controller.Converge.Obedient.{IsObedient}

module _ {R : Runtime} {C : Client} (keys : KeepsKeys C) (cluster : IsCluster C)
    (obedient : IsObedient C) where
  -- It ends without an error.
  reconcile_gateway-ended :
      (run : Run R C)
      → IsLicensed run.gateway
      → IsSafeFor R run.gateway
      → HasSecrets run
      → (run' : Run R C) × (reconcile_gateway run
          ≡ (ok (record { requeue_after = 30; error = none }), run'))
  unfolding reconcile_gateway
  reconcile_gateway-ended run licensed safe secrets =
      let s : Run R C = (reconcile_objects run).1 in
      let objects =
        ended reconcile_objects run
          (reconcile_objects-Ends keys cluster obedient run safe secrets) in
      let (facts, _) = objects_done keys cluster run s licensed objects in
      let status =
        ended reconcile_status s (reconcile_status-Ends keys cluster obedient s facts.0.0) in
      ((reconcile_status s).1, ap after_objects objects ∙ ap (answer 30 10) status)

  -- On a cluster that accepts what it is sent, that lists only pods that have started and that no other
  -- client writes to, where the repository can be read and setting an owner keeps the name and the
  -- namespace, for a Gateway whose Secrets are there and whose license Secret is not the one that
  -- the operator writes, and if the calls of Go's libraries do not panic where it asks for bundles
  -- with drawn ids: whatever else the cluster holds, one request for it ends without an error, and asks to
  -- be called again in 30 seconds. After it the server answers a read of the Gateway with the
  -- status that is wanted of the Deployment and the pods that are then read, empty lists left out,
  -- and with the spec as it was, and the objects are as built in the parts that the controller
  -- compares: the entries of the two ConfigMaps, the containers, as JSON, and the service account
  -- of the Deployment, the spec of the Ingress and the operator's own Secret, where the spec asks
  -- for them. No read of the Services, the bundles' ConfigMaps and the HorizontalPodAutoscaler that
  -- it asks for, or of the Secrets that it names, answers "not found".
  pub reconcile-converges :
      StoresGateways C
      → (ns name : String) (gw : Gateway) (run : Run R C)
      → C.get_gateway ns name run.cluster ≡ value gw
      → IsLicensed gw
      → IsSafeFor R gw
      → HasSecrets (with_gateway gw run)
      → (run' : Run R C) × (reconcile ns name run
          ≡ (ok (record { requeue_after = 30; error = none }), run'))
        × IsHeld C run'.gateway run'.cluster
        × IsReported run'
        × IsDesired R C run'.gateway run'.cluster
        × (core run'.gateway ≡ core gw)
  reconcile-converges server ns name gw run found licensed safe secrets =
      let (run', first) = reconcile_gateway-ended (with_gateway gw run) licensed safe secrets in
      let ended_so = reconcile-found ns name gw run found ∙ first in
      let (held, reported, desired, same) =
        reconcile-IsDesired keys cluster server ns name gw run run'
          (record { requeue_after = 30; error = none }) found licensed refl ended_so in
      (run', ended_so, held, reported, desired, same)
