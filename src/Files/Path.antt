-- ===== src/Files/Path.antt =====
-- What pkg/gateway/util/zip.go uses of path/filepath on a Unix system: Clean, Join and Dir.
pub mod Climbs
use Prim.Native.Char.{Char}
use mathlib.Core.List.{reverse}
use layer7_operator.Prelude.{
  String, ◌<>◌, Bool, true, false, ◌||◌, List, [], ◌∷◌, join, ◌==◌, starts_with, ◌≡◌, refl,
  if◌then◌else◌,
}
use layer7_operator.Prelude.Split.{split}

abbrev pub slash : Char
slash = "/"

-- An element ".." removes the one before it, if that is a name; at the root there is none to leave.
unfoldable pub back : Bool → List String → List String
back true [] = []
back false [] = ".." ∷ []
back rooted (top ∷ out) = if top == ".." then ".." ∷ top ∷ out else out

-- One element, in the light of those before it. The last one is at the head.
unfoldable pub resolve : Bool → List String → String → List String
unfolding back
resolve rooted out elem =
    if elem == "" || elem == "." then out else if elem == ".." then back rooted out else elem ∷ out

unfoldable pub walk : Bool → List String → List String → List String
walk rooted out [] = out
walk rooted out (elem ∷ elems) = walk rooted (resolve rooted out elem) elems

unfoldable pub render : Bool → List String → String
render true out = "/" <> join (reverse out) "/"
render false [] = "."
render false (elem ∷ out) = join (reverse (elem ∷ out)) "/"

-- `filepath.Clean`
unfoldable pub clean : String → String
unfolding render walk
clean path = let rooted = starts_with path "/" in render rooted (walk rooted [] (split slash path))

-- `filepath.Join` of two elements: an empty one in front is passed over.
unfoldable pub join_path : String → String → String
join_path dest name =
    if dest == "" then if name == "" then "" else clean name else clean (dest <> ("/" <> name))

-- What stands before the last slash, that slash with it.
abbrev up_to_slash : List String → String
up_to_slash [] = ""
up_to_slash (elem ∷ []) = ""
up_to_slash (elem ∷ next ∷ elems) = elem <> ("/" <> up_to_slash (next ∷ elems))

-- `filepath.Dir`
unfoldable pub dir : String → String
dir path = clean (up_to_slash (split slash path))
