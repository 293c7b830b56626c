-- ===== src/Prelude/Slice.antt =====
-- Go slices and maps that may be nil, and `reflect.DeepEqual` of them: nil equals nil alone.
use Prim.Native.String.{String}
use mathlib.Core.Bool.{Bool, true, false, ◌&&◌}
use mathlib.Core.Option.{Option, none, some}
use mathlib.Core.List.{List, [], ◌∷◌}
use layer7_operator.Prelude.Dict.{Dict, dict_equal}

abbrev pub Slice : Type 0 → Type 0
Slice A = Option (List A)

abbrev pub GoMap : Type 0 → Type 0
GoMap V = Option (Dict V)

-- What a `range` loop over the slice goes through.
abbrev pub items : {A : Type 0} → Slice A → List A
items none = []
items (some xs) = xs

module _ {A : Type 0} (equal : A → A → Bool) where
  abbrev pub list_equal : List A → List A → Bool
  list_equal [] [] = true
  list_equal [] (y ∷ ys) = false
  list_equal (x ∷ xs) [] = false
  list_equal (x ∷ xs) (y ∷ ys) = equal x y && list_equal xs ys

  abbrev pub option_equal : Option A → Option A → Bool
  option_equal none none = true
  option_equal none (some y) = false
  option_equal (some x) none = false
  option_equal (some x) (some y) = equal x y

abbrev pub slice_equal : {A : Type 0} → (A → A → Bool) → Slice A → Slice A → Bool
slice_equal equal = option_equal (list_equal equal)

abbrev pub map_equal : GoMap String → GoMap String → Bool
map_equal = option_equal dict_equal

abbrev pub bool_equal : Bool → Bool → Bool
bool_equal true b = b
bool_equal false true = false
bool_equal false false = true
