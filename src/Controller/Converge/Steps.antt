-- ===== src/Controller/Converge/Steps.antt =====
-- The steps of `Reconcile`, each with the fact that it establishes and the place that it writes.
use mathlib.Core.Path.{subst}
use layer7_operator.Prelude.{
  String, Bool, true, false, ◌≡◌, refl, ap, sym, ◌∙◌, none, Result, value, failure, not_found,
  Error, ok, arith,
}
use layer7_operator.Prelude.Exec.{Exec}
use layer7_operator.Kube.Meta.{CoreSecret}
use layer7_operator.Api.Gateway.{Gateway}
use layer7_operator.Runtime.{Runtime}
use layer7_operator.Controller.Client.{Client}
use layer7_operator.Controller.Run.{Run, is_not_found, when}
use layer7_operator.Controller.Reconcile.{require_secret}
use layer7_operator.Controller.Converge.Places.{Place, object, nowhere, secrets, IsCluster}
use layer7_operator.Controller.Converge.Facts.{core, Moves, Fact, Moves-same}
use layer7_operator.Controller.Converge.Passes.{
  Pass, run_pass, pass_fact, place_of, pass_idle, pass_done,
}

-- What holds under a flag only, and what holds in one of two cases.
abbrev pub HoldsIf : Bool → Type 0 → Type 0
HoldsIf true T = T
HoldsIf false T = Unit

pub HoldsIf-map : (b : Bool) {S T : Type 0} → (S → T) → HoldsIf b S → HoldsIf b T
HoldsIf-map true f h = f h
HoldsIf-map false f h = tt

pub record Step {R : Runtime} {C : Client} (action : Exec (Run R C) (Unit {0})) : Type 1 where
  pub fact : Fact R C
  pub writes : Gateway → Place
  pub idle : (run : Run R C) → fact.Holds run → action run ≡ (ok tt, run)
  pub done :
      (run run' : Run R C)
      → action run ≡ (ok tt, run')
      → fact.Holds run' × Moves (writes run.gateway) run run'

module _ {R : Runtime} {C : Client} where
  abbrev pub pass_step : IsCluster C → (p : Pass C) → Step {R = R} (run_pass p)
  pass_step cluster p = record {
    fact = pass_fact p;
    writes = place_of p;
    idle = pass_idle p;
    done = λ run run' h. pass_done p cluster run run' h;
  }

  -- A step under another name.
  abbrev pub step_of :
      {m m' : Exec (Run R C) (Unit {0})} → ((run : Run R C) → m run ≡ m' run) → Step m' → Step m
  step_of same s = record {
    fact = s.fact;
    writes = s.writes;
    idle = λ run holds. same run ∙ s.idle run holds;
    done = λ run run' h. s.done run run' (sym (same run) ∙ h);
  }

  -- A Secret that must be there, by a name that the core gives.
  module _ (name : Gateway → String)
      (name-core : (gw gw' : Gateway) → core gw' ≡ core gw → name gw' ≡ name gw) where
    abbrev pub required : Run R C → Result CoreSecret
    required run = C.secrets.get run.gateway.meta.namespace (name run.gateway) run.cluster

    abbrev pub require_fact : Fact R C
    require_fact = record {
      at = λ gw. object secrets gw.meta.namespace (name gw);
      Holds = λ run. is_not_found (required run) ≡ none;
      keep = λ run run' kept there.
          ap is_not_found (
            (λ i.
              C.secrets.get (kept.0 i).meta.namespace (name-core run.gateway run'.gateway kept.0 i)
                run'.cluster)
            ∙ kept.1)
          ∙ there;
    }

    pub require_secret-idle :
        (run : Run R C)
        → require_fact.Holds run
        → require_secret (name run.gateway) run ≡ (ok tt, run)
    unfolding require_secret
    require_secret-idle run there = by_read (required run) refl
      where
        by_read :
            (got : Result CoreSecret)
            → required run ≡ got
            → require_secret (name run.gateway) run ≡ (ok tt, run)
        by_read (value x) e = rw e refl
        by_read (failure (not_found x)) e = let missing = rw e at there in cc
        by_read (failure (Error.other x)) e = rw e refl

    pub require_secret-done :
        (run run' : Run R C)
        → require_secret (name run.gateway) run ≡ (ok tt, run')
        → require_fact.Holds run × (run ≡ run')
    unfolding require_secret
    require_secret-done run run' h = by_read (required run) refl
      where
        by_read :
            (got : Result CoreSecret) → required run ≡ got → require_fact.Holds run × (run ≡ run')
        by_read (value x) e =
            let same : (ok tt, run) ≡ (ok tt, run') = rw e at h in (rw e refl, λ i. (same i).1)
        by_read (failure (not_found x)) e = let raised = rw e at h in ground arith
        by_read (failure (Error.other x)) e =
            let same : (ok tt, run) ≡ (ok tt, run') = rw e at h in (rw e refl, λ i. (same i).1)

    abbrev pub require_step : Step {R = R} {C = C} (λ run. require_secret (name run.gateway) run)
    require_step = record {
      fact = require_fact;
      writes = λ gw. nowhere;
      idle = require_secret-idle;
      done = λ run run' h.
          let (holds, same) = require_secret-done run run' h in
          (
            subst (λ (r : Run R C). require_fact.Holds r) same holds,
            Moves-same nowhere run run' same,
          );
    }

  -- A step under a flag.
  module _ {m : Exec (Run R C) (Unit {0})} (s : Step m) where
    abbrev pub fact_if : Bool → Fact R C
    fact_if b = record {
      at = s.fact.at;
      Holds = λ run. HoldsIf b (s.fact.Holds run);
      keep = λ run run' kept holds. HoldsIf-map b (s.fact.keep run run' kept) holds;
    }

    pub idle_if : (b : Bool) (run : Run R C) → (fact_if b).Holds run → when b m run ≡ (ok tt, run)
    idle_if true run holds = s.idle run holds
    idle_if false run holds = refl

    pub done_if :
        (b : Bool) (run run' : Run R C)
        → when b m run ≡ (ok tt, run')
        → (fact_if b).Holds run' × Moves (s.writes run.gateway) run run'
    done_if true run run' h = s.done run run' h
    done_if false run run' h = (tt, Moves-same (s.writes run.gateway) run run' (λ i. (h i).1))

    abbrev pub when_step : (b : Bool) → Step (when b m)
    when_step b = record { fact = fact_if b; writes = s.writes; idle = idle_if b; done = done_if b }
