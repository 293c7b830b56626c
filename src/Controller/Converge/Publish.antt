-- ===== src/Controller/Converge/Publish.antt =====
-- What a status update leaves.
use mathlib.Core.Path.{subst}
use layer7_operator.Prelude.{String, ◌≡◌, Outcome, ok, err, panic, arith, refl}
use layer7_operator.Api.Gateway.{Gateway}
use layer7_operator.Runtime.{Runtime}
use layer7_operator.Controller.Client.{Client}
use layer7_operator.Controller.Run.{Run, update_status, answered}
use layer7_operator.Controller.Converge.Places.{Place, SameAt, IsCluster}
use layer7_operator.Controller.Converge.Facts.{core, same-core}

-- The status is the one that was sent, the core is the same, and so is all that is read of the cluster.
pub record IsPublished {R : Runtime} {C : Client} (run run' : Run R C) : Type 0 where
  pub status : run'.gateway.status ≡ run.gateway.status
  pub core_kept : core run'.gateway ≡ core run.gateway
  pub places : (q : Place) → SameAt C q run.cluster run'.cluster
  pub clone : (url : String) → C.clone url run'.cluster ≡ C.clone url run.cluster

pub update_status-IsPublished :
    {R : Runtime} {C : Client}
    → IsCluster C
    → (run run' : Run R C) → update_status run ≡ (ok tt, run')
    → IsPublished run run'
unfolding update_status
update_status-IsPublished {R} {C} cluster run run' h =
    by_answer (C.update_status run.gateway run.cluster).0
      (C.update_status run.gateway run.cluster).1 refl h
  where
    by_answer :
        (r : Outcome Gateway) (s : C.State)
        → C.update_status run.gateway run.cluster ≡ (r, s)
        → answered run (r, s) ≡ (ok tt, run')
        → IsPublished run run'
    by_answer (ok gw') s e h' =
        let (status, spec, name, namespace) =
          cluster.update_status-echo run.gateway gw' run.cluster s e in
        subst (IsPublished run) (λ i. (h' i).1)
          (record {
            status = status;
            core_kept = same-core run.gateway gw' name namespace spec;
            places = cluster.update_status-places run.gateway gw' run.cluster s e;
            clone = cluster.update_status-clone run.gateway gw' run.cluster s e;
          })
    by_answer (err x) s e h' = ground arith
    by_answer panic s e h' = ground arith
