-- ===== src/Controller/Converge/Published.antt =====
-- The status and the commit, published (`updateGatewayStatus` and `reconcileBundles` of controller.go).
use mathlib.Core.Path.{subst}
use layer7_operator.Prelude.{
  String, Bool, true, false, ◌≡◌, refl, ap, sym, ◌∙◌, none, Result, value, failure, Outcome, ok,
  err, panic, List, arith, not, Option-cases, ◌⊎◌, inl, inr, eq_iff,
}
use layer7_operator.Prelude.Exec.{◌>>◌}
use layer7_operator.Kube.Pods.{Pod}
use layer7_operator.Api.Gateway.{Gateway, GatewayState, GatewayStatus, status_equal}
use layer7_operator.Runtime.{Runtime}
use layer7_operator.Controller.Client.{Client}
use layer7_operator.Controller.Zero.{zero_deployment}
use layer7_operator.Controller.Run.{
  Run, is_not_found, found_or, modify_gateway, when, update_status,
}
use layer7_operator.Controller.Status.{gateway_states, deployment_status, update_gateway_status}
use layer7_operator.Controller.Status.Report.{deployment_read}
use layer7_operator.Controller.Status.Compared.{status_equal_sound}
use layer7_operator.Controller.Commit.{set_commit_id, get_latest_commit, reconcile_bundles}
use layer7_operator.Controller.Converge.Places.{object, pods, nowhere, deployments, IsCluster}
use layer7_operator.Controller.Converge.Facts.{core, Moves, Moves-same}
use layer7_operator.Controller.Converge.Publish.{IsPublished, update_status-IsPublished}
use layer7_operator.Controller.Converge.Leader.{list_of, list_of-same}
use layer7_operator.Controller.Converge.Status.{
  wanted, wanted-wanted, wanted-commit, IsReported, IsRecorded,
}

not-false : (b : Bool) → not b ≡ false → b ≡ true
not-false true h = refl
not-false false h = sym h

get_latest_commit-clone :
    (C : Client) (url : String) (s s' : C.State)
    → C.clone url s' ≡ C.clone url s
    → get_latest_commit C url s' ≡ get_latest_commit C url s
unfolding get_latest_commit
get_latest_commit-clone C url s s' e = rw (get_latest_commit, e) refl

module _ {R : Runtime} {C : Client} where
  abbrev changed_run : (Gateway → Gateway) → Run R C → Run R C
  changed_run f run = record run { gateway = f run.gateway }

  -- A change that is published only if a test says so.
  IsPublished-if :
      IsCluster C
      → (test : Bool) (f : Gateway → Gateway) (run run' : Run R C)
      → when test (modify_gateway f >> update_status) run ≡ (ok tt, run')
      → ((test ≡ false) × (run ≡ run')) ⊎ IsPublished (changed_run f run) run'
  IsPublished-if cluster true f run run' h =
      inr (update_status-IsPublished cluster (changed_run f run) run' h)
  IsPublished-if cluster false f run run' h = inl (refl, λ i. (h i).1)

  -- It changes no place, where it leaves the core and the management pod.
  published-Moves :
      (f : Gateway → Gateway) (run run' : Run R C)
      → core (f run.gateway) ≡ core run.gateway
      → (f run.gateway).status.management_pod ≡ run.gateway.status.management_pod
      → IsPublished (changed_run f run) run'
      → Moves nowhere run run'
  published-Moves f run run' same pod p (object k ns name) other =
      (p.core_kept ∙ same, p.places (object k ns name), tt)
  published-Moves f run run' same pod p pods other =
      (p.core_kept ∙ same, p.places pods, ap (λ st. st.management_pod) p.status ∙ pod)
  published-Moves f run run' same pod p nowhere other = (p.core_kept ∙ same, tt, tt)

  -- The Deployment is read alike.
  deployment_read-Moves :
      (run run' : Run R C) → Moves nowhere run run' → deployment_read run' ≡ deployment_read run
  deployment_read-Moves run run' moves =
      let (same, at, _) =
        moves (object deployments run.gateway.meta.namespace run.gateway.meta.name) refl in
      (λ i. C.deployments.get (same i).meta.namespace (same i).meta.name run'.cluster) ∙ at

  -- A report holds after a step that changes no place, if the status is then the one that is wanted.
  pub IsReported-Moves :
      (run run' : Run R C) {listed : List Pod} {states : List GatewayState}
      → Moves nowhere run run'
      → is_not_found (deployment_read run) ≡ none
      → list_of run ≡ value listed
      → gateway_states run.gateway.spec.app.image listed false ≡ ok states
      → wanted run'.gateway (found_or zero_deployment (deployment_read run)) states
        ≡ run'.gateway.status
      → IsReported run'
  IsReported-Moves run run' {listed} {states} moves readable found made current =
      let (same, at_pods, _) = moves pods refl in
      let read_alike = deployment_read-Moves run run' moves in
      record {
        readable = ap is_not_found read_alike ∙ readable;
        listed = listed;
        states = states;
        found = list_of-same run run' same at_pods ∙ found;
        made = ap (λ g. gateway_states g.spec.app.image listed false) same ∙ made;
        current =
            ap (λ got. wanted run'.gateway (found_or zero_deployment got) states) read_alike
            ∙ current;
      }

  module _ (cluster : IsCluster C) (run run' : Run R C) where
    reported :
        (listed : List Pod) (states : List GatewayState)
        → is_not_found (deployment_read run) ≡ none
        → list_of run ≡ value listed
        → gateway_states run.gateway.spec.app.image listed false ≡ ok states
        → update_gateway_status run ≡ (ok tt, run')
        → IsReported run' × Moves nowhere run run'
    unfolding update_gateway_status deployment_status
    reported listed states readable found made h =
        let status : GatewayStatus =
          wanted run.gateway (found_or zero_deployment (deployment_read run)) states in
        let sent : when (not (status_equal status run.gateway.status))
              (modify_gateway (λ g. record g { status = status }) >> update_status) run
            ≡ (ok tt, run') =
          rw (readable, found, made) at h in
        elim (IsPublished-if cluster _ (λ g. record g { status = status }) run run' sent) [
          | inl (idle, e) ↦
              let moves = Moves-same nowhere run run' e in
              (
                IsReported-Moves run run' moves readable found made (
                    subst
                      (λ (r : Run R C).
                        wanted r.gateway (found_or zero_deployment (deployment_read run)) states
                        ≡ r.gateway.status)
                      e (status_equal_sound status run.gateway.status (not-false _ idle))),
                moves,
              )
          | inr p ↦
              let moves =
                published-Moves (λ g. record g { status = status }) run run' refl refl p in
              (
                IsReported-Moves run run' moves readable found made (
                    wanted-wanted run.gateway run'.gateway
                      (found_or zero_deployment (deployment_read run)) states
                      (ap (λ g. g.spec) p.core_kept) p.status),
                moves,
              )
        ]

    by_states :
        (listed : List Pod) (r : Outcome (List GatewayState))
        → is_not_found (deployment_read run) ≡ none
        → list_of run ≡ value listed
        → gateway_states run.gateway.spec.app.image listed false ≡ r
        → update_gateway_status run ≡ (ok tt, run')
        → IsReported run' × Moves nowhere run run'
    unfolding update_gateway_status
    by_states listed (ok states) readable found made h =
        reported listed states readable found made h
    by_states listed (err e) readable found made h =
        let failed = rw (readable, found, made) at h in ground arith
    by_states listed panic readable found made h =
        let failed = rw (readable, found, made) at h in ground arith

    by_list :
        (got : Result (List Pod))
        → is_not_found (deployment_read run) ≡ none
        → list_of run ≡ got
        → update_gateway_status run ≡ (ok tt, run')
        → IsReported run' × Moves nowhere run run'
    unfolding update_gateway_status
    by_list (value listed) readable found h =
        by_states listed (gateway_states run.gateway.spec.app.image listed false) readable found
          refl h
    by_list (failure e) readable found h = let failed = rw (readable, found) at h in ground arith

    -- An update of the status that returns no error leaves the status that is wanted.
    pub update_gateway_status-done :
        update_gateway_status run ≡ (ok tt, run') → IsReported run' × Moves nowhere run run'
    unfolding update_gateway_status
    update_gateway_status-done h = elim (Option-cases (is_not_found (deployment_read run))) [
      | inl readable ↦ by_list (list_of run) readable refl h
      | inr (e, missing) ↦ let failed = rw missing at h in ground arith
    ]

    -- The commit is the one that is then recorded.
    IsRecorded-then :
        (commit : String)
        → get_latest_commit C run.gateway.spec.app.repository.url run.cluster ≡ ok commit
        → IsPublished (changed_run (set_commit_id commit) run) run'
        → IsRecorded run'
    IsRecorded-then commit latest p =
        get_latest_commit-clone C run'.gateway.spec.app.repository.url run.cluster run'.cluster
          (p.clone run'.gateway.spec.app.repository.url)
        ∙ ap (λ g. get_latest_commit C g.spec.app.repository.url run.cluster) p.core_kept
        ∙ latest
        ∙ ap ok (sym (ap (λ st. st.commit_id) p.status))

    -- An update of the commit leaves the commit that the repository is at, and the status otherwise.
    recorded :
        (commit : String)
        → get_latest_commit C run.gateway.spec.app.repository.url run.cluster ≡ ok commit
        → IsReported run
        → reconcile_bundles run ≡ (ok tt, run')
        → IsReported run' × IsRecorded run' × Moves nowhere run run'
    unfolding reconcile_bundles
    recorded commit latest r h =
        elim (IsPublished-if cluster _ (set_commit_id commit) run run' (rw latest at h)) [
          | inl (idle, e) ↦
              let same = (eq_iff run.gateway.status.commit_id commit).0 (not-false _ idle) in
              let holds : IsReported run × IsRecorded run = (r, latest ∙ ap ok (sym same)) in
              let (reported', recorded') =
                subst (λ (t : Run R C). IsReported t × IsRecorded t) e holds in
              (reported', recorded', Moves-same nowhere run run' e)
          | inr p ↦
              let moves = published-Moves (set_commit_id commit) run run' refl refl p in
              (
                IsReported-Moves run run' moves r.readable r.found r.made (
                    wanted-commit run.gateway run'.gateway
                      (found_or zero_deployment (deployment_read run)) r.states commit
                      (ap (λ g. g.spec) p.core_kept) p.status r.current),
                IsRecorded-then commit latest p,
                moves,
              )
        ]

    by_latest :
        (r : Outcome String)
        → get_latest_commit C run.gateway.spec.app.repository.url run.cluster ≡ r
        → IsReported run
        → reconcile_bundles run ≡ (ok tt, run')
        → IsReported run' × IsRecorded run' × Moves nowhere run run'
    unfolding reconcile_bundles
    by_latest (ok commit) latest r h = recorded commit latest r h
    by_latest (err e) latest r h = let failed = rw latest at h in ground arith
    by_latest panic latest r h = let failed = rw latest at h in ground arith

    pub reconcile_bundles-done :
        IsReported run
        → reconcile_bundles run ≡ (ok tt, run')
        → IsReported run' × IsRecorded run' × Moves nowhere run run'
    reconcile_bundles-done r h = by_latest _ refl r h
