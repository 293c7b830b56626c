-- ===== src/Labels.antt =====
-- `DefaultLabels` and `Contains` of pkg/gateway/util/util.go.
use layer7_operator.Prelude.{String, Bool, true, false, List, [], ◌∷◌, ◌==◌, if◌then◌else◌}
use layer7_operator.Prelude.Dict.{Dict}
use layer7_operator.Api.Gateway.{Gateway}

unfoldable pub default_labels : Gateway → Dict String
default_labels gw =
    ("app.kubernetes.io/name", gw.meta.name)
    ∷ ("app.kubernetes.io/managed-by", "layer7-operator")
    ∷ ("app.kubernetes.io/created-by", "layer7-operator")
    ∷ ("app.kubernetes.io/part-of", gw.meta.name)
    ∷ []

unfoldable pub contains : List String → String → Bool
contains [] str = false
contains (a ∷ arr) str = if a == str then true else contains arr str
