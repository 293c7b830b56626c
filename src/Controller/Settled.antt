-- ===== src/Controller/Settled.antt =====
-- The objects that a reconciliation has written are left alone by the next one.
use mathlib.Core.Path.{subst, subst₂}
use layer7_operator.Prelude.{
  Bool, false, ◌≡◌, refl, sym, ◌∙◌, Option, String, none, some, Result, value, failure, Error,
  not_found, ok, Bool-cases, inl, inr, if◌then◌else◌,
}
use layer7_operator.Prelude.Exec.{Exec}
use layer7_operator.Kube.Meta.{ObjectMeta}
use layer7_operator.Runtime.{Runtime}
use layer7_operator.Controller.Client.{Api, Client}
use layer7_operator.Controller.Run.{Run, on_cluster}
use layer7_operator.Controller.Objects.{write_if, create_or_update}

-- What the API server promises of a kind of objects: once a write is accepted, a read at its namespace
-- and name gives an object with the same `view`, which are the parts that the server stores as sent.
pub record IsStore {S A V : Type 0} (api : Api S A) (meta : A → ObjectMeta) (view : A → V)
    : Type 0 where
  pub get-create :
      (x : A) (s s' : S)
      → api.create x s ≡ (ok tt, s')
      → (y : A) × (api.get (meta x).namespace (meta x).name s' ≡ value y) × (view y ≡ view x)
  pub get-update :
      (x : A) (s s' : S)
      → api.update x s ≡ (ok tt, s')
      → (y : A) × (api.get (meta x).namespace (meta x).name s' ≡ value y) × (view y ≡ view x)

module _ {R : Runtime} {C : Client} {A : Type 0} (api : Api C.State A) where
  gateway-write_if :
      (o : Option A) (run : Run R C) → (write_if api.update o run).1.gateway ≡ run.gateway
  gateway-write_if none run = refl
  gateway-write_if (some x) run = refl

  -- Writing an object leaves the Gateway as it is.
  pub gateway-create_or_update :
      (got : Result A) (zero_value fresh : A) (plan : A → Option A) (run : Run R C)
      → (create_or_update api got zero_value fresh plan run).1.gateway ≡ run.gateway
  gateway-create_or_update (value x) zero_value fresh plan run = gateway-write_if (plan x) run
  gateway-create_or_update (failure (not_found name)) zero_value fresh plan run = refl
  gateway-create_or_update (failure (Error.other message)) zero_value fresh plan run =
      gateway-write_if (plan zero_value) run

module _ {R : Runtime} {C : Client} {A V : Type 0} (api : Api C.State A) (meta : A → ObjectMeta)
    (view : A → V) (store : IsStore api meta view) (ns name : String) (zero_value fresh : A)
    (fresh_ns : (meta fresh).namespace ≡ ns) (fresh_name : (meta fresh).name ≡ name)
    (differs : A → Bool) (revise : A → A) (same : (y : A) → view y ≡ view fresh → differs y ≡ false)
    (key : (y : A)
      → ((meta (revise y)).namespace ≡ ns)
        × ((meta (revise y)).name ≡ name)
        × (view (revise y) ≡ view fresh)) where
  -- One pass over the object: the read, and what follows.
  abbrev pub pass : Exec (Run R C) (Unit {0})
  pass run =
      create_or_update api (api.get ns name run.cluster) zero_value fresh
        (λ curr. if differs curr then some (revise curr) else none) run

  -- Where the object is found with the view of the new one, nothing is done.
  pass_done :
      (run : Run R C) (y : A)
      → api.get ns name run.cluster ≡ value y
      → view y ≡ view fresh
      → pass run ≡ (ok tt, run)
  pass_done run y found e = rw (found, same y e) refl

  -- A pass from here that changed nothing would change nothing again.
  pass_idle :
      (run run' : Run R C) → pass run ≡ (ok tt, run) → run ≡ run' → pass run' ≡ (ok tt, run')
  pass_idle run run' h e = subst (λ r. pass r ≡ (ok tt, r)) e h

  -- What follows the read, by the object that is compared with.
  compared :
      (curr : A) (run run' : Run R C)
      → pass run ≡ write_if api.update (if differs curr then some (revise curr) else none) run
      → pass run ≡ (ok tt, run')
      → pass run' ≡ (ok tt, run')
  compared curr run run' course h = elim (Bool-cases (differs curr)) [
    | inl e ↦
        let sent = rw e at course in
        let done = sym sent ∙ h in
        let (y, found, seen) =
          store.get-update (revise curr) run.cluster run'.cluster
            (λ i. ((done i).0, (done i).1.cluster)) in
        let (ns_eq, name_eq, view_eq) = key curr in
        pass_done run' y (subst₂ (λ n k. api.get n k run'.cluster ≡ value y) ns_eq name_eq found)
          (seen ∙ view_eq)
    | inr e ↦ let idle = rw e at course in pass_idle run run' idle (λ i. ((sym idle ∙ h) i).1)
  ]

  -- After a pass without error, the next pass does nothing.
  pub pass_settled : (run run' : Run R C) → pass run ≡ (ok tt, run') → pass run' ≡ (ok tt, run')
  pass_settled run run' h = read (api.get ns name run.cluster) refl
    where
      read : (got : Result A) → api.get ns name run.cluster ≡ got → pass run' ≡ (ok tt, run')
      read (value curr) e = compared curr run run' (rw e refl) h
      read (failure (not_found missing)) e =
          let sent : on_cluster (api.create fresh) run ≡ (ok tt, run') = rw e at h in
          let (y, found, seen) =
            store.get-create fresh run.cluster run'.cluster
              (λ i. ((sent i).0, (sent i).1.cluster)) in
          pass_done run' y
            (subst₂ (λ n k. api.get n k run'.cluster ≡ value y) fresh_ns fresh_name found) seen
      read (failure (Error.other message)) e = compared zero_value run run' (rw e refl) h
