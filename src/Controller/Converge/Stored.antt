-- ===== src/Controller/Converge/Stored.antt =====
-- The Gateway as the API server holds it (`Status().Update` and `Get` in controller.go).
use mathlib.Core.Path.{subst}
use layer7_operator.Prelude.{
  from_result, String, Bool, true, false, ◌≡◌, refl, ap, sym, ◌∙◌, Option, none, some, not, Outcome,
  ok, err, panic, Result, value, failure, not_found, Error, List, [], ◌∷◌, ◌⊎◌, inl, inr,
  Option-cases, Bool-cases, ◌==◌, if◌then◌else◌, arith,
}
use layer7_operator.Prelude.Slice.{Slice, map_equal}
use layer7_operator.Prelude.Exec.{Exec, proceed, proceed-ok, pure, ◌>>◌}
use layer7_operator.Kube.Meta.{CoreConfigMap}
use layer7_operator.Kube.Pods.{Pod}
use layer7_operator.Api.Gateway.{Gateway, GatewayState, GatewayStatus, status_equal}
use layer7_operator.Runtime.{Runtime}
use layer7_operator.Labels.{default_labels}
use layer7_operator.Build.Config.{new_config_map}
use layer7_operator.Build.Hpa.{new_hpa}
use layer7_operator.Controller.Client.{Client}
use layer7_operator.Controller.Equality.{hpa_equal}
use layer7_operator.Controller.Zero.{zero_config_map, zero_hpa, zero_deployment}
use layer7_operator.Controller.Run.{
  Run, is_not_found, found_or, modify_gateway, when, answered, update_status,
}
use layer7_operator.Controller.Objects.{
  create_or_update, write_if, reconcile_config_map, reconcile_hpa,
}
use layer7_operator.Controller.Leader.{
  tag_first, tag_management_pod, leader_patch, set_management_pod, has_leader,
}
use layer7_operator.Controller.Status.{update_gateway_status, deployment_status, gateway_states}
use layer7_operator.Controller.Commit.{reconcile_bundles, set_commit_id, get_latest_commit}
use layer7_operator.Controller.Converge.Places.{Kind, config_maps, hpas, Object, api_at}
use layer7_operator.Controller.Converge.Facts.{core}
use layer7_operator.Controller.Converge.Passes.{Pass, run_pass, read_at, plan_of}

-- `omitempty`: an empty list is not sent, and is read back as nil.
abbrev pub drop_empty : {A : Type 0} → Slice A → Slice A
drop_empty none = none
drop_empty (some []) = none
drop_empty (some (x ∷ xs)) = some (x ∷ xs)

abbrev pub read_back : GatewayStatus → GatewayStatus
read_back st = record st { conditions = drop_empty st.conditions; gateway = drop_empty st.gateway }

-- A status, and the one that is read of it.
abbrev pub ReadsAs : GatewayStatus → GatewayStatus → Type 0
ReadsAs st st' = (st' ≡ st) ⊎ (st' ≡ read_back st)

-- A read of the Gateway answers with its name, its namespace, its spec and its status, but that empty lists
-- of the status may be read as nil.
abbrev pub IsHeld : (C : Client) → Gateway → C.State → Type 0
IsHeld C gw s =
    (g : Gateway) × (C.get_gateway gw.meta.namespace gw.meta.name s ≡ value g)
    × (core g ≡ core gw)
    × ReadsAs gw.status g.status

-- The API server, while no other client writes: writing another object leaves the Gateways, a Gateway is
-- read by its namespace and its name, and after a status update a read answers with the Gateway that
-- the update answered with, but that empty lists of the status are read as nil.
pub record StoresGateways (C : Client) : Type 0 where
  pub create :
      (k : Kind) (x : Object k) (s s' : C.State)
      → (api_at C k).create x s ≡ (ok tt, s')
      → (ns name : String) → C.get_gateway ns name s' ≡ C.get_gateway ns name s
  pub update :
      (k : Kind) (x : Object k) (s s' : C.State)
      → (api_at C k).update x s ≡ (ok tt, s')
      → (ns name : String) → C.get_gateway ns name s' ≡ C.get_gateway ns name s
  pub update_status :
      (gw gw' : Gateway) (s s' : C.State) → C.update_status gw s ≡ (ok gw', s') → IsHeld C gw' s'
  pub key :
      (ns name : String) (s : C.State) (gw : Gateway)
      → C.get_gateway ns name s ≡ value gw
      → (gw.meta.namespace ≡ ns) × (gw.meta.name ≡ name)

module _ {R : Runtime} {C : Client} where
  -- The server holds the Gateway of the run.
  abbrev pub IsStored : Run R C → Type 0
  IsStored run = IsHeld C run.gateway run.cluster

  -- A call from that state that ends well leaves it so.
  abbrev pub Stores : Exec (Run R C) (Unit {0}) → Run R C → Type 0
  Stores m run = (run' : Run R C) → m run ≡ (ok tt, run') → IsStored run → IsStored run'

  same-IsStored :
      (run run' : Run R C)
      → run'.gateway ≡ run.gateway
      → ((ns name : String)
          → C.get_gateway ns name run'.cluster ≡ C.get_gateway ns name run.cluster)
      → IsStored run
      → IsStored run'
  same-IsStored run run' same reads h =
      subst (λ gw. IsHeld C gw run'.cluster) (sym same)
        (let (g, found, same_core, status) = h in
          (g, reads run.gateway.meta.namespace run.gateway.meta.name ∙ found, same_core, status))

  pub pure-Stores : (run : Run R C) → Stores (pure tt) run
  pure-Stores run run' h stored = subst (λ (r : Run R C). IsStored r) (λ i. (h i).1) stored

  pub >>-Stores :
      (m k : Exec (Run R C) (Unit {0})) (run : Run R C)
      → Stores m run
      → ((t : Run R C) → Stores k t)
      → Stores (m >> k) run
  >>-Stores m k run first rest run' h stored =
      let t : Run R C = (m run).1 in
      let (_, e, h') = proceed-ok (m run).0 t run' (λ _. k) h in
      rest t run' h' (first t (λ i. (e i, t)) stored)

  pub when-Stores :
      (b : Bool) (m : Exec (Run R C) (Unit {0})) (run : Run R C)
      → Stores m run
      → Stores (when b m) run
  when-Stores true m run kept = kept
  when-Stores false m run kept = pure-Stores run

  module _ (server : StoresGateways C) where
    -- A status update that is accepted leaves it so, wherever it starts.
    pub update_status-IsStored :
        (run run' : Run R C) → update_status run ≡ (ok tt, run') → IsStored run'
    unfolding update_status
    update_status-IsStored run run' h =
        by_answer (C.update_status run.gateway run.cluster).0
          (C.update_status run.gateway run.cluster).1 refl h
      where
        by_answer :
            (r : Outcome Gateway) (s : C.State)
            → C.update_status run.gateway run.cluster ≡ (r, s)
            → answered run (r, s) ≡ (ok tt, run')
            → IsStored run'
        by_answer (ok gw') s e h' =
            subst (λ (t : Run R C). IsStored t) (λ i. (h' i).1)
              (server.update_status run.gateway gw' run.cluster s e)
        by_answer (err x) s e h' = ground arith
        by_answer panic s e h' = ground arith

    write_if-Stores :
        (k : Kind) (o : Option (Object k)) (run : Run R C)
        → Stores (write_if {R = R} {C = C} (api_at C k).update o) run
    write_if-Stores k none run run' h = pure-Stores run run' h
    write_if-Stores k (some x) run run' h =
        same-IsStored run run' (ap (λ r. r.1.gateway) (sym h))
          (server.update k x run.cluster run'.cluster (λ i. ((h i).0, (h i).1.cluster)))

    create_or_update-Stores :
        (k : Kind) (got : Result (Object k)) (zero_value fresh : Object k)
        (plan : Object k → Option (Object k)) (run : Run R C)
        → Stores (create_or_update {R = R} (api_at C k) got zero_value fresh plan) run
    create_or_update-Stores k (value x) zero_value fresh plan run run' h =
        write_if-Stores k (plan x) run run' h
    create_or_update-Stores k (failure (not_found x)) zero_value fresh plan run run' h =
        same-IsStored run run' (ap (λ r. r.1.gateway) (sym h))
          (server.create k fresh run.cluster run'.cluster (λ i. ((h i).0, (h i).1.cluster)))
    create_or_update-Stores k (failure (Error.other x)) zero_value fresh plan run run' h =
        write_if-Stores k (plan zero_value) run run' h

    pub run_pass-Stores :
        {m : Exec (Run R C) (Unit {0})} (p : Pass C)
        → ((run : Run R C) → m run ≡ run_pass p run)
        → (run : Run R C) → Stores m run
    run_pass-Stores p same run run' h =
        create_or_update-Stores p.kind (read_at p run.gateway run.cluster) p.zero_value
          (p.fresh run.gateway) (plan_of p run.gateway) run run' (sym (same run) ∙ h)

    pub reconcile_config_map-Stores :
        (name : String) (run : Run R C) → Stores (reconcile_config_map name) run
    unfolding reconcile_config_map
    reconcile_config_map-Stores name run run' h =
        let gw = run.gateway in
        let built = new_config_map R gw name run.entropy in
        let left : Run R C = record run { entropy = built.1 } in
        let (cm, made, rest) = proceed-ok built.0 left run' _ h in
        let mine : CoreConfigMap = record cm { meta = C.set_controller_reference gw cm.meta } in
        create_or_update-Stores config_maps (C.config_maps.get gw.meta.namespace name run.cluster)
          zero_config_map mine
          (λ curr. if not (map_equal curr.contents cm.contents) then some mine else none) left run'
          rest

    pub reconcile_hpa-Stores : (run : Run R C) → Stores reconcile_hpa run
    unfolding reconcile_hpa
    reconcile_hpa-Stores run =
        let gw = run.gateway in
        let hpa = new_hpa gw in
        let mine : Object hpas = record hpa { meta = C.set_controller_reference gw hpa.meta } in
        create_or_update-Stores hpas (C.hpas.get gw.meta.namespace gw.meta.name run.cluster)
          zero_hpa mine (λ curr. if not (hpa_equal curr hpa) then some mine else none) run

    -- A change of the status, if a test asks for it, and its publication.
    publish-Stores :
        (b : Bool) (f : Gateway → Gateway) (run : Run R C)
        → Stores (when b (modify_gateway f >> update_status)) run
    publish-Stores b f run =
        when-Stores b (modify_gateway f >> update_status) run
          λ run' h _. update_status-IsStored (record run { gateway = f run.gateway }) run' h

    tag_first-Stores : (pods : List Pod) (run : Run R C) → Stores (tag_first pods) run
    unfolding tag_first
    tag_first-Stores [] run run' h stored = pure-Stores run run' h stored
    tag_first-Stores (pod ∷ pods) run run' h stored =
        let (r, s) = C.patch_pod pod leader_patch run.cluster in
        let t : Run R C = record run { cluster = s } in
        let (_, e, h') =
          proceed-ok r t run'
            (λ _ u.
              update_status (record u { gateway = set_management_pod pod.meta.name u.gateway }))
            h in
        update_status-IsStored _ run' h'

    pub tag_management_pod-Stores : (run : Run R C) → Stores tag_management_pod run
    unfolding tag_management_pod
    tag_management_pod-Stores run run' h stored =
        let listed =
          from_result
            (C.list_pods run.gateway.meta.namespace (default_labels run.gateway) run.cluster) in
        let (pods, _, h') =
          proceed-ok listed run run'
            (λ pods. if has_leader run.gateway pods then pure tt else tag_first pods) h in
        elim (Bool-cases (has_leader run.gateway pods)) [
          | inl e ↦ pure-Stores run run' (rw e at h') stored
          | inr e ↦ tag_first-Stores pods run run' (rw e at h') stored
        ]

    pub update_gateway_status-Stores : (run : Run R C) → Stores update_gateway_status run
    unfolding update_gateway_status
    update_gateway_status-Stores run run' h stored =
        let g = run.gateway in
        let got = C.deployments.get g.meta.namespace g.meta.name run.cluster in
        let listed = C.list_pods g.meta.namespace (default_labels g) run.cluster in
        let reported : List GatewayState → GatewayStatus = λ states.
          record (deployment_status g (found_or zero_deployment got)) { gateway = some states } in
        let publish : List GatewayState → Exec (Run R C) (Unit {0}) = λ states.
          when (not (status_equal (reported states) g.status))
            (modify_gateway (λ x. record x { status = reported states }) >> update_status) in
        let states_of : List Pod → Outcome (List GatewayState) =
          λ pods. gateway_states g.spec.app.image pods false in
        elim (Option-cases (is_not_found got)) [
          | inl e ↦
              let (pods, _, h₁) =
                proceed-ok (from_result listed) run run'
                  (λ pods t. proceed (states_of pods) t publish) (rw e at h) in
              let (states, _, h₂) = proceed-ok (states_of pods) run run' publish h₁ in
              publish-Stores (not (status_equal (reported states) g.status))
                (λ x. record x { status = reported states }) run run' h₂ stored
          | inr (x, e) ↦ let failed = rw e at h in ground arith
        ]

    pub reconcile_bundles-Stores : (run : Run R C) → Stores reconcile_bundles run
    unfolding reconcile_bundles
    reconcile_bundles-Stores run run' h stored =
        let g = run.gateway in
        let (commit, _, h') =
          proceed-ok (get_latest_commit C g.spec.app.repository.url run.cluster) run run'
            (λ commit.
              when (not (g.status.commit_id == commit))
                (modify_gateway (set_commit_id commit) >> update_status))
            h in
        publish-Stores (not (g.status.commit_id == commit)) (set_commit_id commit) run run' h'
          stored
