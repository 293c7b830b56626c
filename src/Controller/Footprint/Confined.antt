-- ===== src/Controller/Footprint/Confined.antt =====
-- Calls that keep an object, whatever their outcome.
use layer7_operator.Prelude.{
  String, Bool, true, false, ◌≡◌, refl, ◌∙◌, Outcome, ok, err, panic, if◌then◌else◌, Result, value,
  failure, not_found, Error, none, some,
}
use layer7_operator.Prelude.Exec.{Exec, pure, raise, proceed}
use layer7_operator.Api.Gateway.{Gateway}
use layer7_operator.Runtime.{Runtime}
use layer7_operator.Controller.Client.{Client}
use layer7_operator.Controller.Run.{Run, is_not_found, on_cluster, when, answered, update_status}
use layer7_operator.Controller.Converge.Places.{Kind, object, SameAt}
use layer7_operator.Controller.Converge.Facts.{core}
use layer7_operator.Controller.Footprint.Bounds.{IsLocal}

module _ {R : Runtime} {C : Client} (gw : Gateway) (k : Kind) (ns name : String) where
  -- The Gateway still has that core, and the object is read as before.
  abbrev pub IsKept : C.State → Run R C → Type 0
  IsKept s run = (core run.gateway ≡ core gw) × SameAt C (object k ns name) s run.cluster

  abbrev pub Confined : {A : Type 0} → Exec (Run R C) A → Type 0
  Confined m = (s : C.State) (run : Run R C) → IsKept s run → IsKept s (m run).1

  -- What follows a call.
  pub proceed-IsKept :
      {A B : Type 0} (s : C.State) (r : Outcome A) (t : Run R C) (f : A → Exec (Run R C) B)
      → IsKept s t
      → ((a : A) (u : Run R C) → IsKept s u → IsKept s (f a u).1)
      → IsKept s (proceed r t f).1
  proceed-IsKept s (ok a) t f h rest = rest a t h
  proceed-IsKept s (err e) t f h rest = h
  proceed-IsKept s panic t f h rest = h

  pub call-IsKept :
      {A B : Type 0} (m : Exec (Run R C) A) (f : A → Exec (Run R C) B) (s : C.State) (run : Run R C)
      → Confined m
      → IsKept s run
      → ((a : A) (u : Run R C) → IsKept s u → IsKept s (f a u).1)
      → IsKept s (proceed (m run).0 (m run).1 f).1
  call-IsKept m f s run h kept = proceed-IsKept s (m run).0 (m run).1 f (h s run kept)

  pub when-Confined :
      (b : Bool) (m : Exec (Run R C) (Unit {0})) → (b ≡ true → Confined m) → Confined (when b m)
  when-Confined true m h s run kept = h refl s run kept
  when-Confined false m h s run kept = kept

  -- The choice between two.
  pub if-Confined :
      (b : Bool) (m m' : Exec (Run R C) (Unit {0}))
      → (b ≡ true → Confined m)
      → (b ≡ false → Confined m')
      → Confined (if b then m else m')
  if-Confined true m m' h h' s run kept = h refl s run kept
  if-Confined false m m' h h' s run kept = h' refl s run kept

  -- A test for an object that was read.
  pub found-Confined :
      {A : Type 0} (got : Result A)
      → Confined (elim (is_not_found got) [ none ↦ pure tt | some e ↦ raise e ])
  found-Confined (value x) s run kept = kept
  found-Confined (failure (not_found x)) s run kept = kept
  found-Confined (failure (Error.other x)) s run kept = kept

  pub on_cluster-Confined :
      (m : Exec C.State (Unit {0}))
      → ((s : C.State) → SameAt C (object k ns name) s (m s).1)
      → Confined (on_cluster m)
  on_cluster-Confined m h s run (same, at) = (same, h run.cluster ∙ at)

  pub update_status-Confined : IsLocal C → Confined update_status
  unfolding update_status
  update_status-Confined local s run (same, at) =
      by_answer (C.update_status run.gateway run.cluster).0
        (C.update_status run.gateway run.cluster).1 refl
        (local.update_status run.gateway run.cluster k ns name)
    where
      by_answer :
          (r : Outcome Gateway) (t : C.State)
          → C.update_status run.gateway run.cluster ≡ (r, t)
          → SameAt C (object k ns name) run.cluster t
          → IsKept s (answered run (r, t)).1
      by_answer (ok gw') t e at' = (local.answer run.gateway gw' run.cluster t e ∙ same, at' ∙ at)
      by_answer (err x) t e at' = (same, at' ∙ at)
      by_answer panic t e at' = (same, at' ∙ at)
