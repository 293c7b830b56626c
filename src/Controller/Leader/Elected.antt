-- ===== src/Controller/Leader/Elected.antt =====
-- The management pod that `tagManagementPod` of controller.go leaves in the status.
use layer7_operator.Prelude.{
  String, false, [], ◌⊎◌, true, ◌≡◌, refl, sym, ◌∙◌, ap, ok, err, panic, Outcome, List, ◌∷◌, arith,
}
use layer7_operator.Kube.Pods.{Pod}
use layer7_operator.Api.Gateway.{Gateway}
use layer7_operator.Runtime.{Runtime}
use layer7_operator.Controller.Client.{Client}
use layer7_operator.Controller.Run.{Run, answered, update_status}

-- `Status().Update` answers with the status that was sent, and with the same name and namespace.
pub record EchoesStatus (C : Client) : Type 0 where
  pub status :
      (gw gw' : Gateway) (s s' : C.State)
      → C.update_status gw s ≡ (ok gw', s')
      → gw'.status ≡ gw.status

-- One of the pods has that name.
abbrev pub IsNameOf : String → List Pod → Type 0
IsNameOf n [] = true ≡ false
IsNameOf n (pod ∷ pods) = (pod.meta.name ≡ n) ⊎ IsNameOf n pods

module _ {R : Runtime} {C : Client} (echoes : EchoesStatus C) where
  -- The Gateway after an update of the status that returns no error.
  pub update_status-echo :
      (run run' : Run R C)
      → update_status run ≡ (ok tt, run')
      → run'.gateway.status ≡ run.gateway.status
  unfolding update_status
  update_status-echo run run' h =
      by_answer (C.update_status run.gateway run.cluster).0
        (C.update_status run.gateway run.cluster).1 refl h
    where
      by_answer :
          (r : Outcome Gateway) (s : C.State)
          → C.update_status run.gateway run.cluster ≡ (r, s)
          → answered run (r, s) ≡ (ok tt, run')
          → run'.gateway.status ≡ run.gateway.status
      by_answer (ok gw') s e h' =
          ap (λ r. r.1.gateway.status) (sym h') ∙ echoes.status run.gateway gw' run.cluster s e
      by_answer (err x) s e h' = ground arith
      by_answer panic s e h' = ground arith
