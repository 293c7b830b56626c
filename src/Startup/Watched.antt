-- ===== src/Startup/Watched.antt =====
-- The namespaces that the manager watches (main.go).
use layer7_operator.Prelude.{String, ◌≡◌, refl, List, [], ◌∷◌, none, some, All, join}
use layer7_operator.Prelude.Split.{split-join, has_char-join, IsFree}
use layer7_operator.Startup.{ManagerOptions, Flags, comma, manager_options}

-- The namespaces that the options name. The empty one stands for all.
abbrev pub watched : ManagerOptions → List String
watched options = elim options.new_cache [ none ↦ options.namespace ∷ [] | some names ↦ names ]

-- If no name holds a comma, then a list of namespaces, joined by commas in WATCH_NAMESPACE, makes the
-- manager watch exactly these namespaces, in their order.
pub manager_options-watched :
    (flags : Flags) (name : String) (names : List String)
    → IsFree comma name
    → All (IsFree comma) names
    → watched (manager_options flags (join (name ∷ names) ",")) ≡ name ∷ names
unfolding manager_options
manager_options-watched flags name [] h hs = rw h refl
manager_options-watched flags name (next ∷ names) h hs =
    rw (has_char-join comma name next names h, split-join comma name (next ∷ names) h hs) refl
