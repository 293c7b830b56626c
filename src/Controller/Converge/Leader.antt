-- ===== src/Controller/Converge/Leader.antt =====
-- Tagging the management pod, as a step (`tagManagementPod` of controller.go).
use mathlib.Core.Path.{subst}
use mathlib.Core.Bool.{false≢true}
use layer7_operator.Prelude.{
  true, ◌≡◌, ◌≢◌, refl, ap, ◌∙◌, Result, value, failure, Outcome, ok, err, panic, List, [], ◌∷◌,
  ◌⊎◌, inl, inr, Bool-cases, not, ◌&&◌, ◌==◌, eq_refl, arith,
}
use layer7_operator.Prelude.Texts.{eq_false}
use layer7_operator.Prelude.Exec.{proceed}
use layer7_operator.Kube.Pods.{Pod}
use layer7_operator.Api.Gateway.{Gateway}
use layer7_operator.Labels.{default_labels, contains}
use layer7_operator.Runtime.{Runtime}
use layer7_operator.Controller.Client.{Client}
use layer7_operator.Controller.Run.{Run, update_status}
use layer7_operator.Controller.Leader.{
  get_pod_names, leader_patch, set_management_pod, has_leader, tag_first, tag_management_pod,
}
use layer7_operator.Controller.Converge.Places.{object, pods, nowhere, SameAt, IsCluster}
use layer7_operator.Controller.Converge.Facts.{core, Moves, Fact, Moves-same}
use layer7_operator.Controller.Converge.Publish.{IsPublished, update_status-IsPublished}
use layer7_operator.Controller.Converge.Steps.{Step}

-- The pods that are listed do not ask for another management pod.
abbrev pub Settled : Gateway → List Pod → Type 0
Settled gw listed = (listed ≡ []) ⊎ (has_leader gw listed ≡ true)

pub default_labels-core :
    (gw gw' : Gateway) → core gw' ≡ core gw → default_labels gw' ≡ default_labels gw
unfolding default_labels
default_labels-core gw gw' e = ap default_labels e

pub has_leader-status :
    (gw gw' : Gateway) (listed : List Pod)
    → gw'.status.management_pod ≡ gw.status.management_pod
    → has_leader gw' listed ≡ has_leader gw listed
unfolding has_leader
has_leader-status gw gw' listed e = ap (λ m. not (m == "") && contains (get_pod_names listed) m) e

pub has_leader-first :
    (gw : Gateway) (pod : Pod) (rest listed : List Pod)
    → pod.meta.name ≢ ""
    → get_pod_names listed ≡ get_pod_names (pod ∷ rest)
    → gw.status.management_pod ≡ pod.meta.name
    → has_leader gw listed ≡ true
unfolding has_leader contains get_pod_names
has_leader-first gw pod rest listed named names e = rw (names, e, eq_false _ _ named, eq_refl) refl

module _ {R : Runtime} {C : Client} where
  abbrev pub list_of : Run R C → Result (List Pod)
  list_of run = C.list_pods run.gateway.meta.namespace (default_labels run.gateway) run.cluster

  pub list_of-same :
      (run run' : Run R C)
      → core run'.gateway ≡ core run.gateway
      → SameAt C pods run.cluster run'.cluster
      → list_of run' ≡ list_of run
  list_of-same run run' same at_pods =
      (λ i.
        C.list_pods (same i).meta.namespace (default_labels-core run.gateway run'.gateway same i)
          run'.cluster)
      ∙ at_pods run.gateway.meta.namespace (default_labels run.gateway)

  abbrev pub tag_fact : Fact R C
  tag_fact = record {
    at = λ gw. pods;
    Holds = λ run. (listed : List Pod) × (list_of run ≡ value listed) × Settled run.gateway listed;
    keep = λ run run' (same, at_pods, pod) (listed, found, settled). (
      listed,
      list_of-same run run' same at_pods ∙ found,
      elim settled [
        | inl none_there ↦ inl none_there
        | inr leader ↦ inr (has_leader-status run.gateway run'.gateway listed pod ∙ leader)
      ],
    );
  }

  pub tag-idle : (run : Run R C) → tag_fact.Holds run → tag_management_pod run ≡ (ok tt, run)
  unfolding tag_management_pod
  tag-idle run (listed, found, inr leader) = rw (found, leader) refl
  tag-idle run (listed, found, inl empty) = elim (Bool-cases (has_leader run.gateway [])) [
    | inl e ↦ rw (found, empty, e) refl
    | inr e ↦ rw (found, empty, e) refl
  ]

  module _ (cluster : IsCluster C) (run run' : Run R C) where
    abbrev Left : Type 0
    Left = tag_fact.Holds run' × Moves pods run run'

    left_of_nothing : tag_fact.Holds run → run ≡ run' → Left
    left_of_nothing holds e =
        (subst (λ (r : Run R C). tag_fact.Holds r) e holds, Moves-same pods run run' e)

    -- The first pod is patched, and the status is updated.
    left_of_first :
        (pod : Pod) (rest : List Pod) (s : C.State)
        → list_of run ≡ value (pod ∷ rest)
        → C.patch_pod pod leader_patch run.cluster ≡ (ok tt, s)
        → IsPublished
            (record run { gateway = set_management_pod pod.meta.name run.gateway; cluster = s })
            run'
        → Left
    left_of_first pod rest s found patched published =
        let (listed, found', names) =
          cluster.patch_pod-names pod leader_patch run.cluster s patched run.gateway.meta.namespace
            (default_labels run.gateway) (pod ∷ rest) found in
        let named =
          (cluster.pods_named run.gateway.meta.namespace (default_labels run.gateway) run.cluster
            (pod ∷ rest) found).0 in
        (
          (
            listed,
            (λ i.
                  C.list_pods (published.core_kept i).meta.namespace
                    (default_labels-core run.gateway run'.gateway published.core_kept i)
                    run'.cluster)
                ∙ published.places pods run.gateway.meta.namespace (default_labels run.gateway)
                ∙ found',
            inr (
                has_leader-first run'.gateway pod rest listed named names
                  (ap (λ st. st.management_pod) published.status)),
          ),
          moves,
        )
      where
        moves : Moves pods run run'
        moves (object k ns name) other = (
          published.core_kept,
          published.places (object k ns name)
              ∙ cluster.patch_pod-objects pod leader_patch run.cluster s patched k ns name,
          tt,
        )
        moves pods other = absurd (false≢true other)
        moves nowhere other = (published.core_kept, tt, tt)

    left_of_tag_first :
        (listed : List Pod)
        → list_of run ≡ value listed
        → tag_first listed run ≡ (ok tt, run')
        → Left
    unfolding tag_first
    left_of_tag_first [] found h = left_of_nothing ([], found, inl refl) (λ i. (h i).1)
    left_of_tag_first (pod ∷ rest) found h =
        by_patch (C.patch_pod pod leader_patch run.cluster).0
          (C.patch_pod pod leader_patch run.cluster).1 refl h
      where
        by_patch :
            (r : Outcome (Unit {0})) (s : C.State)
            → C.patch_pod pod leader_patch run.cluster ≡ (r, s)
            → proceed r
                (record run { cluster = s })
                (λ _ t.
                  update_status (record t { gateway = set_management_pod pod.meta.name t.gateway }))
              ≡ (ok tt, run')
            → Left
        by_patch (ok u) s e h' =
            left_of_first pod rest s found e (update_status-IsPublished cluster _ run' h')
        by_patch (err x) s e h' = ground arith
        by_patch panic s e h' = ground arith

    pub tag-done : tag_management_pod run ≡ (ok tt, run') → Left
    unfolding tag_management_pod
    tag-done h = by_list (list_of run) refl
      where
        by_list : (got : Result (List Pod)) → list_of run ≡ got → Left
        by_list (value listed) found = elim (Bool-cases (has_leader run.gateway listed)) [
          | inl e ↦
              let same : (ok tt, run) ≡ (ok tt, run') = rw (found, e) at h in
              left_of_nothing (listed, found, inr e) (λ i. (same i).1)
          | inr e ↦ left_of_tag_first listed found (rw (found, e) at h)
        ]
        by_list (failure x) found = let failed = rw found at h in ground arith

  abbrev pub tag_step : IsCluster C → Step {R = R} {C = C} tag_management_pod
  tag_step cluster = record {
    fact = tag_fact;
    writes = λ gw. pods;
    idle = tag-idle;
    done = λ run run' h. tag-done cluster run run' h;
  }
