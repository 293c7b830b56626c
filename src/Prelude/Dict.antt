-- ===== src/Prelude/Dict.antt =====
-- Go maps with text keys, as association lists that hold a key once.
use Prim.Native.String.{String}
use mathlib.Core.Path.{◌≡◌, refl}
use mathlib.Core.Bool.{Bool, true, false, ◌&&◌}
use mathlib.Core.Option.{Option, none, some}
use mathlib.Core.List.{List, [], ◌∷◌}
use native.Mathlib.Omega.{arith}
use text.Mathlib.Text.{◌==◌}
use text.Mathlib.TextEquality.{eq_iff}
use layer7_operator.Prelude.Tests.{if◌then◌else◌}

abbrev pub Dict : Type 0 → Type 0
Dict V = List (String × V)

module _ {V : Type 0} where
  abbrev pub lookup : String → Dict V → Option V
  lookup k [] = none
  lookup k ((j, v) ∷ m) = if j == k then some v else lookup k m

  -- `m[key] = new`, where an entry of the key is replaced in its place.
  abbrev pub insert : String → V → Dict V → Dict V
  insert key new [] = (key, new) ∷ []
  insert key new (entry ∷ rest) =
      if entry.0 == key then (key, new) ∷ rest else entry ∷ insert key new rest

  -- After an assignment, its key has the new value and the other keys have theirs.
  pub lookup-insert :
      (m : Dict V) (asked key : String) (new : V)
      → lookup asked (insert key new m) ≡ (if key == asked then some new else lookup asked m)
  lookup-insert [] asked key new = refl
  lookup-insert (entry ∷ rest) asked key new = ground (
    arith,
    lookup-insert rest asked key new,
    eq_iff entry.0 key,
    eq_iff entry.0 asked,
    eq_iff key asked,
  )

  abbrev pub NodupKeys : Dict V → Type 0
  NodupKeys [] = Unit
  NodupKeys ((k, _) ∷ m) = (lookup k m ≡ none) × NodupKeys m

  pub insert-NodupKeys :
      (m : Dict V) (key : String) (new : V) → NodupKeys m → NodupKeys (insert key new m)
  insert-NodupKeys [] key new once = (refl, tt)
  insert-NodupKeys (entry ∷ rest) key new (fresh, once) = ground (
    arith,
    insert-NodupKeys rest key new once,
    lookup-insert rest entry.0 key new,
    eq_iff entry.0 key,
    eq_iff key entry.0,
  )

-- Equality of texts under a lookup.
abbrev pub holds : Option String → String → Bool
holds none v = false
holds (some w) v = w == v

abbrev pub included : Dict String → Dict String → Bool
included [] b = true
included ((k, v) ∷ a) b = holds (lookup k b) v && included a b

-- `reflect.DeepEqual` of two maps that are not nil.
abbrev pub dict_equal : Dict String → Dict String → Bool
dict_equal a b = included a b && included b a
