-- ===== src/Controller/Converge/Facts.antt =====
-- Facts on a run that later steps of the reconciliation keep.
use mathlib.Core.Path.{subst}
use layer7_operator.Prelude.{String, true, ◌≡◌, refl, ap, none, List, [], ◌∷◌, All}
use layer7_operator.Prelude.Int.{pos}
use layer7_operator.Api.Gateway.{Gateway, GatewaySpec}
use layer7_operator.Runtime.{Runtime}
use layer7_operator.Controller.Client.{Client}
use layer7_operator.Controller.Run.{Run}
use layer7_operator.Controller.Zero.{zero_type, zero_meta}
use layer7_operator.Controller.Converge.Places.{Place, object, pods, nowhere, apart, SameAt}

abbrev pub core_of : String → String → GatewaySpec → Gateway
core_of name namespace spec = record {
  type_meta = zero_type;
  meta = record zero_meta { name = name; namespace = namespace };
  spec = spec;
  status = record {
    host = "";
    conditions = none;
    phase = "";
    gateway = none;
    observed_generation = pos 0;
    commit_id = "";
    ready = pos 0;
    state = "";
    replicas = pos 0;
    version = "";
    image = "";
    label_selector_path = "";
    management_pod = "";
  };
}

-- What the objects are built from: the name, the namespace and the spec.
abbrev pub core : Gateway → Gateway
core gw = core_of gw.meta.name gw.meta.namespace gw.spec

pub same-core :
    (gw gw' : Gateway)
    → gw'.meta.name ≡ gw.meta.name
    → gw'.meta.namespace ≡ gw.meta.namespace
    → gw'.spec ≡ gw.spec
    → core gw' ≡ core gw
same-core gw gw' name namespace spec i = core_of (name i) (namespace i) (spec i)

module _ {R : Runtime} {C : Client} where
  -- The management pod of the status belongs to the place of the pods.
  abbrev SamePod : Place → Run R C → Run R C → Type 0
  SamePod (object k ns name) run run' = Unit
  SamePod pods run run' = run'.gateway.status.management_pod ≡ run.gateway.status.management_pod
  SamePod nowhere run run' = Unit

  abbrev pub Keeps : Place → Run R C → Run R C → Type 0
  Keeps p run run' =
      (core run'.gateway ≡ core run.gateway)
      × SameAt C p run.cluster run'.cluster
      × SamePod p run run'

  -- A step that changes that place at most.
  abbrev pub Moves : Place → Run R C → Run R C → Type 0
  Moves p run run' = (q : Place) → apart p q ≡ true → Keeps q run run'

-- A fact that depends on one place and on the core of the Gateway.
pub record Fact (R : Runtime) (C : Client) : Type 1 where
  pub at : Gateway → Place
  pub Holds : Run R C → Type 0
  pub keep : (run run' : Run R C) → Keeps (at run.gateway) run run' → Holds run → Holds run'

SameAt-refl : (C : Client) (q : Place) (s : C.State) → SameAt C q s s
SameAt-refl C (object k ns name) s = refl
SameAt-refl C pods s = λ ns labels. refl
SameAt-refl C nowhere s = tt

module _ {R : Runtime} {C : Client} where
  abbrev pub AllHold : List (Fact R C) → Run R C → Type 0
  AllHold facts run = All (λ (f : Fact R C). f.Holds run) facts

  -- Facts at other places than the one of a step stay.
  pub AllHold-Moves :
      (p : Place) (run run' : Run R C)
      → Moves p run run'
      → (facts : List (Fact R C)) → All (λ (f : Fact R C). apart p (f.at run.gateway) ≡ true) facts
      → AllHold facts run
      → AllHold facts run'
  AllHold-Moves p run run' moves [] others h = tt
  AllHold-Moves p run run' moves (f ∷ facts) (other, others) (holds, h) = (
    f.keep run run' (moves (f.at run.gateway) other) holds,
    AllHold-Moves p run run' moves facts others h,
  )

  SamePod-gateway :
      (q : Place) (run run' : Run R C) → run'.gateway ≡ run.gateway → SamePod q run run'
  SamePod-gateway (object k ns name) run run' same = tt
  SamePod-gateway pods run run' same = ap (λ g. g.status.management_pod) same
  SamePod-gateway nowhere run run' same = tt

  -- A step that leaves the Gateway.
  pub Moves-gateway :
      (p : Place) (run run' : Run R C)
      → run'.gateway ≡ run.gateway
      → ((q : Place) → apart p q ≡ true → SameAt C q run.cluster run'.cluster)
      → Moves p run run'
  Moves-gateway p run run' same elsewhere q other =
      (ap core same, elsewhere q other, SamePod-gateway q run run' same)

  -- A step that does nothing.
  pub Moves-same : (p : Place) (run run' : Run R C) → run ≡ run' → Moves p run run'
  Moves-same p run run' e =
      subst (Moves p run) e (Moves-gateway p run run refl (λ q other. SameAt-refl C q run.cluster))
