-- ===== src/Controller/Converge/Whole.antt =====
-- What `Reconcile` of controller.go leaves, and that it then finds nothing to do.
use mathlib.Core.Path.{subst, subst₂}
use layer7_operator.Prelude.{
  List, [], ◌∷◌, All, Bool, true, false, ◌≡◌, refl, ap, sym, ◌∙◌, none, Outcome, ok, err, panic,
  arith,
}
use layer7_operator.Prelude.Exec.{proceed-ok}
use layer7_operator.Api.Gateway.{Gateway}
use layer7_operator.Runtime.{Runtime}
use layer7_operator.Controller.Client.{Client}
use layer7_operator.Controller.Run.{Run, when}
use layer7_operator.Controller.Status.{update_gateway_status}
use layer7_operator.Controller.Commit.{reconcile_bundles}
use layer7_operator.Controller.Reconcile.{
  Reply, reconcile_objects, reconcile_status, reconcile_gateway, answer, after_objects,
}
use layer7_operator.Controller.Repeat.{KeepsKeys}
use layer7_operator.Controller.Converge.Places.{IsCluster, nowhere, apart}
use layer7_operator.Controller.Converge.Facts.{
  core, Fact, AllHold, AllHold-Moves, Moves, Moves-same,
}
use layer7_operator.Controller.Converge.Steps.{HoldsIf}
use layer7_operator.Controller.Converge.Objects.{IsLicensed, object_facts}
use layer7_operator.Controller.Converge.Status.{
  IsReported, IsRecorded, update_gateway_status-idle, reconcile_bundles-idle,
}
use layer7_operator.Controller.Converge.Published.{
  update_gateway_status-done, reconcile_bundles-done,
}
use layer7_operator.Controller.Converge.Parts.{ended, has_management, has_ingress}
use layer7_operator.Controller.Converge.Fixpoint.{Facts, objects_done}

abbrev pub has_repository : Gateway → Bool
has_repository gw = gw.spec.app.repository.enabled

module _ {R : Runtime} {C : Client} where
  -- What is left of the status and of the commit.
  abbrev pub Statuses : Bool → Run R C → Type 0
  Statuses repository run = IsReported run × HoldsIf repository (IsRecorded run)

  pub Statuses-idle :
      (run : Run R C)
      → Statuses (has_repository run.gateway) run
      → reconcile_status run ≡ (ok tt, run)
  unfolding reconcile_status
  Statuses-idle run (r, c) =
      rw (update_gateway_status-idle run r, bundles (has_repository run.gateway) c) refl
    where
      bundles :
          (b : Bool) → HoldsIf b (IsRecorded run) → when b reconcile_bundles run ≡ (ok tt, run)
      bundles true c = reconcile_bundles-idle run c
      bundles false c = refl

  pub bundles_done :
      IsCluster C
      → (b : Bool) (run run' : Run R C) → IsReported run
      → when b reconcile_bundles run ≡ (ok tt, run')
      → Statuses b run' × Moves nowhere run run'
  bundles_done cluster true run run' r h =
      let (r', c, moves) = reconcile_bundles-done cluster run run' r h in ((r', c), moves)
  bundles_done cluster false run run' r h =
      let same : run ≡ run' = λ i. (h i).1 in
      ((subst (λ (t : Run R C). IsReported t) same r, tt), Moves-same nowhere run run' same)

  -- A step that changes no place keeps all facts.
  pub AllHold-nowhere :
      (run run' : Run R C) (facts : List (Fact R C))
      → Moves nowhere run run'
      → AllHold facts run
      → AllHold facts run'
  AllHold-nowhere run run' facts moves = AllHold-Moves nowhere run run' moves facts (others facts)
    where
      others :
          (fs : List (Fact R C))
          → All (λ (f : Fact R C). apart nowhere (f.at run.gateway) ≡ true) fs
      others [] = tt
      others (f ∷ fs) = (refl, others fs)

  Statuses-done :
      IsCluster C
      → (run run' : Run R C) (facts : List (Fact R C)) → AllHold facts run
      → reconcile_status run ≡ (ok tt, run')
      → Statuses (has_repository run'.gateway) run'
        × AllHold facts run'
        × (core run'.gateway ≡ core run.gateway)
  unfolding reconcile_status
  Statuses-done cluster run run' facts holds h =
      let s : Run R C = (update_gateway_status run).1 in
      let (_, e, rest) = proceed-ok (update_gateway_status run).0 s run' _ h in
      let (r, moves) =
        update_gateway_status-done cluster run s (ended update_gateway_status run e) in
      let (held, moves') = bundles_done cluster (has_repository s.gateway) s run' r rest in
      let same = (moves' nowhere refl).0 in
      (
        subst (λ b. Statuses b run') (sym (ap has_repository same)) held,
        AllHold-nowhere s run' facts moves' (AllHold-nowhere run s facts moves holds),
        same ∙ (moves nowhere refl).0,
      )

  -- A reconciliation that ends well went through both parts.
  pub ended_well :
      (run run' : Run R C) (reply : Reply)
      → reply.error ≡ none
      → reconcile_gateway run ≡ (ok reply, run')
      → (s : Run R C) × (reconcile_objects run ≡ (ok tt, s)) × (reconcile_status s ≡ (ok tt, run'))
  unfolding reconcile_gateway
  ended_well run run' reply no_error h =
      let s : Run R C = (reconcile_objects run).1 in
      let (e, rest) = by_objects (reconcile_objects run).0 s h in
      let (e', same) = by_status (reconcile_status s).0 (reconcile_status s).1 rest in
      (s, ended reconcile_objects run e, λ i. (e' i, same i))
    where
      by_objects :
          (r : Outcome (Unit {0})) (s : Run R C)
          → after_objects (r, s) ≡ (ok reply, run')
          → (r ≡ ok tt) × (answer 30 10 (reconcile_status s) ≡ (ok reply, run'))
      by_objects (ok u) s h' = (refl, h')
      by_objects (err e) s h' = ground arith
      by_objects panic s h' = ground arith

      by_status :
          (r : Outcome (Unit {0})) (s : Run R C)
          → answer 30 10 (r, s) ≡ (ok reply, run')
          → (r ≡ ok tt) × (s ≡ run')
      by_status (ok u) s h' = (refl, λ i. (h' i).1)
      by_status (err e) s h' = ground arith
      by_status panic s h' = ground arith

module _ {R : Runtime} {C : Client} (keys : KeepsKeys C) (cluster : IsCluster C) where
  -- What holds after a reconciliation that ends well.
  pub after_well :
      (run run' : Run R C) (reply : Reply)
      → IsLicensed run.gateway
      → reply.error ≡ none
      → reconcile_gateway run ≡ (ok reply, run')
      → Facts keys cluster run'
        × Statuses (has_repository run'.gateway) run'
        × (core run'.gateway ≡ core run.gateway)
  after_well run run' reply licensed no_error h =
      let (s, objects, statuses) = ended_well run run' reply no_error h in
      let (facts, same) = objects_done keys cluster run s licensed objects in
      let management = has_management s.gateway in
      let ingress = has_ingress s.gateway in
      let (held, facts', same') =
        Statuses-done cluster s run' (object_facts keys cluster management ingress) facts
          statuses in
      let back = sym same' in
      (
        subst₂ (λ m i. AllHold (object_facts keys cluster m i) run') (ap has_management back)
            (ap has_ingress back) facts',
        held,
        same' ∙ same,
      )
