-- ===== src/Controller/Present.antt =====
-- An object is there once its reconciliation has returned no error (the functions of controller.go that
-- create or update one object).
pub mod Objects
pub mod Workload
use mathlib.Core.Path.{subst, subst₂}
use layer7_operator.Prelude.{
  ◌≡◌, refl, sym, ◌∙◌, ap, Option, String, none, some, Result, value, failure, Error, not_found, ok,
  Option-cases, inl, inr,
}
use layer7_operator.Prelude.Exec.{Exec}
use layer7_operator.Kube.Meta.{ObjectMeta}
use layer7_operator.Runtime.{Runtime}
use layer7_operator.Controller.Client.{Api, Client}
use layer7_operator.Controller.Run.{Run, is_not_found, on_cluster}
use layer7_operator.Controller.Objects.{write_if, create_or_update}
use layer7_operator.Controller.Settled.{IsStore}

-- A read at the place does not answer "not found": it gives an object, or another error.
abbrev pub IsPresent : {S A : Type 0} → Api S A → String → String → S → Type 0
IsPresent api ns name s = is_not_found (api.get ns name s) ≡ none

module _ {S A : Type 0} (api : Api S A) (meta : A → ObjectMeta) (ns name : String) where
  -- An object that was written with that key is found.
  written :
      (x y : A) (s : S)
      → ((meta x).namespace ≡ ns) × ((meta x).name ≡ name)
      → api.get (meta x).namespace (meta x).name s ≡ value y
      → IsPresent api ns name s
  written x y s (ns_eq, name_eq) found =
      ap is_not_found (subst₂ (λ n k. api.get n k s ≡ value y) ns_eq name_eq found)

module _ {R : Runtime} {C : Client} {A V : Type 0} (api : Api C.State A) (meta : A → ObjectMeta)
    (view : A → V) (store : IsStore api meta view) (ns name : String) (zero_value fresh : A)
    (plan : A → Option A) (fresh_key : ((meta fresh).namespace ≡ ns) × ((meta fresh).name ≡ name))
    (plan_key : (y z : A)
      → plan y ≡ some z
      → ((meta z).namespace ≡ ns) × ((meta z).name ≡ name)) where
  abbrev pass : Exec (Run R C) (Unit {0})
  pass run = create_or_update api (api.get ns name run.cluster) zero_value fresh plan run

  -- What follows a read that did not answer "not found".
  planned :
      (curr : A) (run run' : Run R C)
      → IsPresent api ns name run.cluster
      → pass run ≡ write_if api.update (plan curr) run
      → pass run ≡ (ok tt, run')
      → IsPresent api ns name run'.cluster
  planned curr run run' present course h = elim (Option-cases (plan curr)) [
    | inl e ↦
        let idle = rw e at course in
        subst (IsPresent api ns name) (λ i. ((sym idle ∙ h) i).1.cluster) present
    | inr (z, e) ↦
        let sent = rw e at course in
        let done = sym sent ∙ h in
        let (y, found, _) =
          store.get-update z run.cluster run'.cluster (λ i. ((done i).0, (done i).1.cluster)) in
        written api meta ns name z y run'.cluster (plan_key curr z e) found
  ]

  -- After a pass without error, the object is present.
  pub pass-IsPresent :
      (run run' : Run R C) → pass run ≡ (ok tt, run') → IsPresent api ns name run'.cluster
  pass-IsPresent run run' h = read (api.get ns name run.cluster) refl
    where
      read :
          (got : Result A) → api.get ns name run.cluster ≡ got → IsPresent api ns name run'.cluster
      read (value curr) e = planned curr run run' (rw e refl) (rw e refl) h
      read (failure (not_found missing)) e =
          let sent : on_cluster (api.create fresh) run ≡ (ok tt, run') = rw e at h in
          let (y, found, _) =
            store.get-create fresh run.cluster run'.cluster
              (λ i. ((sent i).0, (sent i).1.cluster)) in
          written api meta ns name fresh y run'.cluster fresh_key found
      read (failure (Error.other message)) e = planned zero_value run run' (rw e refl) (rw e refl) h
