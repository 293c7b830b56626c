-- ===== src/Build/Config/Properties.antt =====
-- The map of cluster properties that `NewConfigMap` of pkg/gateway/config/config.go collects.
use layer7_operator.Prelude.{
  String, ◌≡◌, refl, ◌∙◌, Option, none, some, List, [], ◌∷◌, ◌==◌, if◌then◌else◌, arith,
}
use layer7_operator.Prelude.Dict.{Dict, lookup, insert, NodupKeys, lookup-insert, insert-NodupKeys}
use layer7_operator.Api.Settings.{ClusterProperty}
use layer7_operator.Build.Config.{collect_properties}

-- The first of two options that is there.
abbrev pub or_else : Option String → Option String → Option String
or_else none b = b
or_else (some a) b = some a

-- The value of the last property of that name.
abbrev pub last_value : String → List ClusterProperty → Option String
last_value name [] = none
last_value name (p ∷ ps) =
    or_else (last_value name ps) (if p.name == name then some p.value else none)

collect_properties-lookup :
    (name : String) (ps : List ClusterProperty) (props : Dict String)
    → lookup name (collect_properties ps props) ≡ or_else (last_value name ps) (lookup name props)
unfolding collect_properties
collect_properties-lookup name [] props = refl
collect_properties-lookup name (p ∷ ps) props = ground (
  arith,
  collect_properties-lookup name ps (insert p.name p.value props),
  lookup-insert props name p.name p.value,
)

collect_properties-NodupKeys :
    (ps : List ClusterProperty) (props : Dict String)
    → NodupKeys props
    → NodupKeys (collect_properties ps props)
unfolding collect_properties
collect_properties-NodupKeys [] props h = h
collect_properties-NodupKeys (p ∷ ps) props h =
    collect_properties-NodupKeys ps (insert p.name p.value props)
      (insert-NodupKeys props p.name p.value h)

or_else-none : (o : Option String) → or_else o none ≡ o
or_else-none none = refl
or_else-none (some a) = refl

-- The map that the bundle of cluster properties is built from has a name once, with the value of the last
-- property of the spec that bears it, and no other names.
pub collect_properties-last_value :
    (ps : List ClusterProperty)
    → NodupKeys (collect_properties ps [])
      × ((name : String) → lookup name (collect_properties ps []) ≡ last_value name ps)
collect_properties-last_value ps = (
  collect_properties-NodupKeys ps [] tt,
  λ name. collect_properties-lookup name ps [] ∙ or_else-none (last_value name ps),
)
