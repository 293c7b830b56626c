-- ===== src/Controller/Converge/Passes.antt =====
-- A pass over one object: the fact that it establishes, and what it leaves alone.
use mathlib.Core.Path.{subst, subst₂}
use layer7_operator.Prelude.{
  String, Bool, true, false, ◌≡◌, refl, ap, sym, ◌∙◌, Option, none, some, Result, value, failure,
  not_found, Error, ok, Bool-cases, ◌⊎◌, inl, inr, if◌then◌else◌,
}
use layer7_operator.Prelude.Exec.{Exec}
use layer7_operator.Api.Gateway.{Gateway}
use layer7_operator.Runtime.{Runtime}
use layer7_operator.Controller.Client.{Client}
use layer7_operator.Controller.Run.{Run, is_not_found, found_or, on_cluster}
use layer7_operator.Controller.Objects.{create_or_update, write_if}
use layer7_operator.Controller.Converge.Places.{
  Kind, Object, meta_of, api_at, view_of, Place, object, apart, SameAt, SameElsewhere, IsCluster,
}
use layer7_operator.Controller.Converge.Facts.{core, Keeps, Moves, Fact, Moves-gateway, Moves-same}

-- An object stands at that namespace and name.
abbrev pub HasKey : (k : Kind) → Object k → String → String → Type 0
HasKey k x ns name = ((meta_of k x).namespace ≡ ns) × ((meta_of k x).name ≡ name)

pub record Pass (C : Client) : Type 0 where
  pub kind : Kind
  pub name : Gateway → String
  pub zero_value : Object kind
  pub fresh : Gateway → Object kind
  pub differs : Gateway → Object kind → Bool
  pub revise : Gateway → Object kind → Object kind
  pub name-core : (gw gw' : Gateway) → core gw' ≡ core gw → name gw' ≡ name gw
  pub differs-core :
      (gw gw' : Gateway) → core gw' ≡ core gw → (y : Object kind) → differs gw' y ≡ differs gw y
  pub fresh-key : (gw : Gateway) → HasKey kind (fresh gw) gw.meta.namespace (name gw)
  pub revise-key :
      (gw : Gateway) (curr : Object kind) → HasKey kind (revise gw curr) gw.meta.namespace (name gw)
  pub differs-fresh :
      (gw : Gateway) (y : Object kind)
      → view_of C kind y ≡ view_of C kind (fresh gw)
      → differs gw y ≡ false
  pub differs-revise :
      (gw : Gateway) (curr y : Object kind)
      → view_of C kind y ≡ view_of C kind (revise gw curr)
      → differs gw y ≡ false

module _ {C : Client} (p : Pass C) where
  abbrev pub place_of : Gateway → Place
  place_of gw = object p.kind gw.meta.namespace (p.name gw)

  abbrev pub plan_of : Gateway → Object p.kind → Option (Object p.kind)
  plan_of gw curr = if p.differs gw curr then some (p.revise gw curr) else none

  abbrev pub read_at : Gateway → C.State → Result (Object p.kind)
  read_at gw s = (api_at C p.kind).get gw.meta.namespace (p.name gw) s

  -- What was read asks for nothing.
  abbrev pub IsQuiet : Gateway → Result (Object p.kind) → Type 0
  IsQuiet gw got = (is_not_found got ≡ none) × (p.differs gw (found_or p.zero_value got) ≡ false)

module _ {R : Runtime} {C : Client} (p : Pass C) where
  abbrev pub run_pass : Exec (Run R C) (Unit {0})
  run_pass run =
      create_or_update (api_at C p.kind) (read_at p run.gateway run.cluster) p.zero_value
        (p.fresh run.gateway) (plan_of p run.gateway) run

  pub read_at-Keeps :
      (run run' : Run R C)
      → Keeps (place_of p run.gateway) run run'
      → read_at p run'.gateway run'.cluster ≡ read_at p run.gateway run.cluster
  read_at-Keeps run run' (same, at_place, _) =
      (λ i.
        (api_at C p.kind).get (same i).meta.namespace (p.name-core run.gateway run'.gateway same i)
          run'.cluster)
      ∙ at_place

  abbrev pub pass_fact : Fact R C
  pass_fact = record {
    at = place_of p;
    Holds = λ run. IsQuiet p run.gateway (read_at p run.gateway run.cluster);
    keep = λ run run' kept (there, idle). (
      ap is_not_found (read_at-Keeps run run' kept) ∙ there,
      p.differs-core run.gateway run'.gateway kept.0 _
          ∙ ap (λ got. p.differs run.gateway (found_or p.zero_value got))
              (read_at-Keeps run run' kept)
          ∙ idle,
    );
  }

  pub pass_idle : (run : Run R C) → pass_fact.Holds run → run_pass run ≡ (ok tt, run)
  pass_idle run (there, idle) = by_read (read_at p run.gateway run.cluster) there idle
    where
      by_read :
          (got : Result (Object p.kind))
          → is_not_found got ≡ none
          → p.differs run.gateway (found_or p.zero_value got) ≡ false
          → create_or_update
              (api_at C p.kind)
              got
              p.zero_value
              (p.fresh run.gateway)
              (plan_of p run.gateway)
              run
            ≡ (ok tt, run)
      by_read (value x) there idle = rw idle refl
      by_read (failure (not_found x)) there idle = cc
      by_read (failure (Error.other x)) there idle = rw idle refl

  module _ (cluster : IsCluster C) (run run' : Run R C) where
    abbrev gw : Gateway
    gw = run.gateway

    -- What a write that is accepted leaves: the fact, and every other place.
    abbrev Left : Type 0
    Left = pass_fact.Holds run' × Moves (place_of p gw) run run'

    left_of_write :
        (x y : Object p.kind)
        → HasKey p.kind x gw.meta.namespace (p.name gw)
        → run'.gateway ≡ gw
        → (api_at C p.kind).get (meta_of p.kind x).namespace (meta_of p.kind x).name run'.cluster
          ≡ value y
        → p.differs gw y ≡ false
        → SameElsewhere C p.kind x run.cluster run'.cluster
        → Left
    left_of_write x y (ns_eq, name_eq) same found idle elsewhere = (
      subst (λ g. IsQuiet p g (read_at p g run'.cluster)) (sym same) (quiet at_key),
      Moves-gateway (place_of p gw) run run' same (
          subst₂
            (λ n k.
              (q : Place)
              → apart (object p.kind n k) q ≡ true
              → SameAt C q run.cluster run'.cluster)
            ns_eq name_eq elsewhere),
    )
      where
        at_key : read_at p gw run'.cluster ≡ value y
        at_key =
            subst₂ (λ n k. (api_at C p.kind).get n k run'.cluster ≡ value y) ns_eq name_eq found

        quiet : read_at p gw run'.cluster ≡ value y → IsQuiet p gw (read_at p gw run'.cluster)
        quiet e = subst (IsQuiet p gw) (sym e) (refl, idle)

    left_of_update :
        (curr : Object p.kind)
        → on_cluster ((api_at C p.kind).update (p.revise gw curr)) run ≡ (ok tt, run')
        → Left
    left_of_update curr sent =
        let step : (api_at C p.kind).update (p.revise gw curr) run.cluster ≡ (ok tt, run'.cluster) =
          λ i. ((sent i).0, (sent i).1.cluster) in
        let (y, found, seen) =
          (cluster.stores p.kind).get-update (p.revise gw curr) run.cluster run'.cluster step in
        left_of_write (p.revise gw curr) y (p.revise-key gw curr) (ap (λ r. r.1.gateway) (sym sent))
          found (p.differs-revise gw curr y seen)
          (cluster.update-elsewhere p.kind (p.revise gw curr) run.cluster run'.cluster step)

    left_of_nothing : pass_fact.Holds run → run ≡ run' → Left
    left_of_nothing quiet e =
        (subst (λ (r : Run R C). pass_fact.Holds r) e quiet, Moves-same (place_of p gw) run run' e)

    left_of_compared :
        (curr : Object p.kind)
        → pass_fact.Holds run ⊎ (p.differs gw curr ≡ true)
        → run_pass run ≡ write_if (api_at C p.kind).update (plan_of p gw curr) run
        → run_pass run ≡ (ok tt, run')
        → Left
    left_of_compared curr (inl quiet) course h =
        left_of_nothing quiet (λ i. ((sym (pass_idle run quiet) ∙ h) i).1)
    left_of_compared curr (inr differ) course h =
        left_of_update curr (sym (rw differ at course) ∙ h)

    -- A pass that returns no error establishes its fact, and changes its own place at most.
    pub pass_done : run_pass run ≡ (ok tt, run') → Left
    pass_done h = by_read (read_at p gw run.cluster) refl
      where
        quiet_or :
            (got : Result (Object p.kind))
            → read_at p gw run.cluster ≡ got
            → is_not_found got ≡ none
            → pass_fact.Holds run ⊎ (p.differs gw (found_or p.zero_value got) ≡ true)
        quiet_or got e there = elim (Bool-cases (p.differs gw (found_or p.zero_value got))) [
          | inl differ ↦ inr differ
          | inr idle ↦ inl (subst (IsQuiet p gw) (sym e) (there, idle))
        ]

        by_read : (got : Result (Object p.kind)) → read_at p gw run.cluster ≡ got → Left
        by_read (value curr) e = left_of_compared curr (quiet_or (value curr) e refl) (rw e refl) h
        by_read (failure (not_found missing)) e =
            let sent : on_cluster ((api_at C p.kind).create (p.fresh gw)) run ≡ (ok tt, run') =
              rw e at h in
            let step : (api_at C p.kind).create (p.fresh gw) run.cluster ≡ (ok tt, run'.cluster) =
              λ i. ((sent i).0, (sent i).1.cluster) in
            let (y, found, seen) =
              (cluster.stores p.kind).get-create (p.fresh gw) run.cluster run'.cluster step in
            left_of_write (p.fresh gw) y (p.fresh-key gw) (ap (λ r. r.1.gateway) (sym sent)) found
              (p.differs-fresh gw y seen)
              (cluster.create-elsewhere p.kind (p.fresh gw) run.cluster run'.cluster step)
        by_read (failure (Error.other message)) e =
            left_of_compared p.zero_value (quiet_or (failure (Error.other message)) e refl)
              (rw e refl) h
