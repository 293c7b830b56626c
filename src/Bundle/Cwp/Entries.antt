-- ===== src/Bundle/Cwp/Entries.antt =====
-- What `BuildCWPBundle` of pkg/gateway/util/bundle.go puts into a bundle.
use mathlib.Core.List.{append-nil, append_assoc}
use layer7_operator.Prelude.{
  String, ◌≡◌, refl, ◌∙◌, ap, Option, none, some, ok, err, panic, Outcome, List, [], ◌∷◌, ◌++◌, map,
}
use layer7_operator.Prelude.Dict.{Dict}
use layer7_operator.Prelude.Exec.{Exec, pure, lift, proceed, proceed_assoc, proceed-ext, ◌>>=◌}
use layer7_operator.Runtime.{Runtime}
use layer7_operator.Bundle.Xml.{Item, Mapping}
use layer7_operator.Bundle.Token.{rand_token}
use layer7_operator.Bundle.Cwp.{
  cluster_property_item, cluster_property_mapping, build_bundle, cwp_loop, build_cwp_bundle,
}

-- The items and mappings that go with the properties `cwps` and the ids `ids`.
abbrev pub items_of : Dict String → List String → List Item
items_of [] ids = []
items_of (p ∷ cwps) [] = []
items_of ((cwp, val) ∷ cwps) (id ∷ ids) = cluster_property_item cwp val id ∷ items_of cwps ids

abbrev pub mappings_of : Dict String → List String → List Mapping
mappings_of [] ids = []
mappings_of (p ∷ cwps) [] = []
mappings_of ((cwp, val) ∷ cwps) (id ∷ ids) = cluster_property_mapping cwp id ∷ mappings_of cwps ids

-- The cluster property in an item, as a name and a value.
abbrev pub property_of : Item → Option (String × String)
property_of i = elim i.resource.cluster_property [ none ↦ none | some p ↦ some (p.name, p.value) ]

-- As many ids as entries.
abbrev Matched : Dict String → List String → Type 0
Matched [] [] = Unit
Matched [] (id ∷ ids) = ⊥
Matched (p ∷ cwps) [] = ⊥
Matched (p ∷ cwps) (id ∷ ids) = Matched cwps ids

-- Where the ids are drawn, they are as many as the entries.
abbrev FitsAll : Dict String → Outcome (List String) → Type 0
FitsAll cwps (ok ids) = Matched cwps ids
FitsAll cwps (err e) = Unit
FitsAll cwps panic = Unit

Matched-aligned :
    (cwps : Dict String) (ids : List String)
    → Matched cwps ids
    → (map (λ i. i.id) (items_of cwps ids) ≡ ids)
      × (map (λ m. m.src_id) (mappings_of cwps ids) ≡ ids)
      × (map property_of (items_of cwps ids) ≡ map some cwps)
unfolding cluster_property_item cluster_property_mapping
Matched-aligned [] [] h = (refl, refl, refl)
Matched-aligned [] (id ∷ ids) h = absurd h
Matched-aligned (p ∷ cwps) [] h = absurd h
Matched-aligned ((cwp, val) ∷ cwps) (id ∷ ids) h =
    let (a, b, c) = Matched-aligned cwps ids h in
    (ap (λ t. id ∷ t) a, ap (λ t. id ∷ t) b, ap (λ t. some (cwp, val) ∷ t) c)

module _ (R : Runtime) where
  -- One id for each entry, in turn.
  unfoldable pub draw_ids : Dict String → Exec R.Entropy (List String)
  draw_ids [] = pure []
  draw_ids (p ∷ cwps) = do id ← rand_token R 16; ids ← draw_ids cwps; pure (id ∷ ids)

  -- What the loop returns once the ids are drawn.
  abbrev finish :
      Dict String
      → List Item
      → List Mapping
      → List String
      → Exec R.Entropy (List Item × List Mapping)
  finish cwps items mapping ids = pure (items ++ items_of cwps ids, mapping ++ mappings_of cwps ids)

  -- With the ids of the rest drawn, the first entry's item and mapping may be appended first.
  finish-cons :
      (cwp val id : String) (cwps : Dict String) (items : List Item) (mapping : List Mapping)
      (r : Outcome (List String)) (e : R.Entropy)
      → proceed r e (
          finish cwps
            (items ++ cluster_property_item cwp val id ∷ [])
            (mapping ++ cluster_property_mapping cwp id ∷ []))
        ≡ (let (r', e') = proceed r e (λ ids. pure (id ∷ ids)) in
            proceed r' e' (finish ((cwp, val) ∷ cwps) items mapping))
  finish-cons cwp val id cwps items mapping (ok ids) e = simp append_assoc
  finish-cons cwp val id cwps items mapping (err x) e = refl
  finish-cons cwp val id cwps items mapping panic e = refl

  -- The loop draws an id for each entry, and appends an item and a mapping for each.
  cwp_loop-eq :
      (cwps : Dict String) (items : List Item) (mapping : List Mapping) (e : R.Entropy)
      → cwp_loop R cwps items mapping e ≡ (draw_ids cwps >>= finish cwps items mapping) e
  unfolding cwp_loop draw_ids
  cwp_loop-eq [] items mapping e = simp append-nil
  cwp_loop-eq ((cwp, val) ∷ cwps) items mapping e =
      first
        (λ id s.
          cwp_loop-eq cwps (items ++ cluster_property_item cwp val id ∷ [])
            (mapping ++ cluster_property_mapping cwp id ∷ []) s)
        (rand_token R 16 e).0 (rand_token R 16 e).1
    where
      first :
          ((id : String) (s : R.Entropy)
            → cwp_loop R cwps
                (items ++ cluster_property_item cwp val id ∷ [])
                (mapping ++ cluster_property_mapping cwp id ∷ [])
                s
              ≡ (draw_ids cwps
                    >>= finish cwps
                        (items ++ cluster_property_item cwp val id ∷ [])
                        (mapping ++ cluster_property_mapping cwp id ∷ []))
                  s)
          → (r : Outcome String) (e' : R.Entropy)
          → proceed r e' (λ id.
            cwp_loop R cwps
              (items ++ cluster_property_item cwp val id ∷ [])
              (mapping ++ cluster_property_mapping cwp id ∷ []))
            ≡ (let (r', e'') = proceed r e' (λ id s.
                  proceed (draw_ids cwps s).0 (draw_ids cwps s).1 (λ ids. pure (id ∷ ids))) in
                proceed r' e'' (finish ((cwp, val) ∷ cwps) items mapping))
      first ih (ok id) e' =
          ih id e'
          ∙ finish-cons cwp val id cwps items mapping (draw_ids cwps e').0 (draw_ids cwps e').1
      first ih (err x) e' = refl
      first ih panic e' = refl

  -- The bundle of a map of properties: the map is ranged over once, an id is drawn for each entry, and
  -- the bundle that is marshalled holds, in that order, an item and a mapping for each entry. An error
  -- on the way ends it with that error.
  pub build_cwp_bundle-eq :
      (cwps : Dict String) (e : R.Entropy)
      → build_cwp_bundle R cwps e
        ≡ (do
          order ← R.range cwps
          ids ← draw_ids order
          lift (R.marshal (build_bundle (items_of order ids) (mappings_of order ids))))
            e
  unfolding build_cwp_bundle
  build_cwp_bundle-eq cwps e = proceed-ext (R.range cwps e).0 (R.range cwps e).1 _ _ λ order s.
      rw cwp_loop-eq
        (proceed_assoc (draw_ids order s).0 (draw_ids order s).1 (finish order [] []) _)

  draw_ids-FitsAll : (cwps : Dict String) (e : R.Entropy) → FitsAll cwps (draw_ids cwps e).0
  unfolding draw_ids
  draw_ids-FitsAll [] e = tt
  draw_ids-FitsAll (p ∷ cwps) e =
      first (λ s. draw_ids-FitsAll cwps s) (rand_token R 16 e).0 (rand_token R 16 e).1
    where
      rest :
          (id : String) (r : Outcome (List String)) (s : R.Entropy)
          → FitsAll cwps r
          → FitsAll (p ∷ cwps) (proceed r s (λ ids. pure (id ∷ ids))).0
      rest id (ok ids) s h = h
      rest id (err x) s h = tt
      rest id panic s h = tt

      first :
          ((s : R.Entropy) → FitsAll cwps (draw_ids cwps s).0)
          → (r : Outcome String) (s : R.Entropy)
          → FitsAll
              (p ∷ cwps)
              (proceed r s (λ id t.
                proceed (draw_ids cwps t).0 (draw_ids cwps t).1 (λ ids. pure (id ∷ ids)))).0
      first ih (ok id) s = rest id (draw_ids cwps s).0 (draw_ids cwps s).1 (ih s)
      first ih (err x) s = tt
      first ih panic s = tt
