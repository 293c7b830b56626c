-- ===== src/Controller/Run.antt =====
-- The state of a reconciliation: the Gateway object that the functions share by a pointer, the
-- cluster, and the source of random bytes.
use layer7_operator.Prelude.{
  Bool, Error, Result, value, failure, Outcome, ok, err, panic, not_found, Option, none, some,
  if◌then◌else◌,
}
use layer7_operator.Prelude.Exec.{Exec}
use layer7_operator.Api.Gateway.{Gateway}
use layer7_operator.Runtime.{Runtime}
use layer7_operator.Controller.Client.{Client}

pub record Run (R : Runtime) (C : Client) : Type 0 where
  pub gateway : Gateway
  pub cluster : C.State
  pub entropy : R.Entropy

-- `err != nil && k8serrors.IsNotFound(err)`
abbrev pub is_not_found : {A : Type 0} → Result A → Option Error
is_not_found (value a) = none
is_not_found (failure (not_found name)) = some (not_found name)
is_not_found (failure (Error.other message)) = none

-- The object that a `Get` fills in: it stays zero with an error.
abbrev pub found_or : {A : Type 0} → A → Result A → A
found_or zero_value (value a) = a
found_or zero_value (failure e) = zero_value

module _ {R : Runtime} {C : Client} {A : Type 0} where
  abbrev pub on_cluster : Exec C.State A → Exec (Run R C) A
  on_cluster m run = let (r, s) = m run.cluster in (r, record run { cluster = s })

  abbrev pub on_entropy : Exec R.Entropy A → Exec (Run R C) A
  on_entropy m run = let (r, e) = m run.entropy in (r, record run { entropy = e })

  -- A read of the cluster, with its error as a value.
  abbrev pub read : (C.State → A) → Exec (Run R C) A
  read get run = (ok (get run.cluster), run)

  -- A field of the Gateway.
  abbrev pub ask : (Gateway → A) → Exec (Run R C) A
  ask f run = (ok (f run.gateway), run)

module _ {R : Runtime} {C : Client} where
  abbrev pub modify_gateway : (Gateway → Gateway) → Exec (Run R C) (Unit {0})
  modify_gateway f run = (ok tt, record run { gateway = f run.gateway })

  abbrev pub when : Bool → Exec (Run R C) (Unit {0}) → Exec (Run R C) (Unit {0})
  when test body run = if test then body run else (ok tt, run)

  -- What the server answers is filled into the Gateway.
  abbrev pub answered : Run R C → Outcome Gateway × C.State → Outcome (Unit {0}) × Run R C
  answered run (ok gw, s) = (ok tt, record run { gateway = gw; cluster = s })
  answered run (err e, s) = (err e, record run { cluster = s })
  answered run (panic, s) = (panic, record run { cluster = s })

  -- `r.Client.Status().Update(ctx, gw)`
  unfoldable pub update_status : Exec (Run R C) (Unit {0})
  update_status run = answered run (C.update_status run.gateway run.cluster)
