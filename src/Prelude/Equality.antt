-- ===== src/Prelude/Equality.antt =====
-- `reflect.DeepEqual` of a value with itself, and of values that it finds equal.
use mathlib.Core.Path.{◌≡◌, refl, sym, ap, ◌∙◌, subst}
use mathlib.Core.Logic.{inl, inr}
use text.Mathlib.Text.{◌==◌}
use layer7_operator.Prelude.Tests.{Bool-cases, Option-cases}
use mathlib.Core.Bool.{Bool, true, false, ◌&&◌, false≢true}
use mathlib.Core.Option.{Option, none, some}
use mathlib.Core.List.{List, [], ◌∷◌}
use Prim.Native.String.{String}
use native.Mathlib.Omega.{arith}
use text.Mathlib.TextEquality.{eq_iff}
use text.Mathlib.TextPositions.{eq_refl}
use layer7_operator.Prelude.Dict.{Dict, lookup, holds, included, dict_equal, NodupKeys}
use layer7_operator.Prelude.Slice.{list_equal, option_equal, bool_equal}

-- The two sides of a conjunction that holds.
pub both : (a b : Bool) → (a && b) ≡ true → (a ≡ true) × (b ≡ true)
both true b h = (refl, h)
both false b h = absurd (false≢true h)

module _ {A : Type 0} (equal : A → A → Bool) (equal_refl : (a : A) → equal a a ≡ true) where
  pub list_equal_refl : (xs : List A) → list_equal equal xs xs ≡ true
  list_equal_refl [] = refl
  list_equal_refl (x ∷ xs) = rw (equal_refl x, list_equal_refl xs) refl

  pub option_equal_refl : (o : Option A) → option_equal equal o o ≡ true
  option_equal_refl none = refl
  option_equal_refl (some x) = equal_refl x

-- A map is included in one that answers alike at its keys.
pub included_of_lookup :
    (a b : Dict String)
    → NodupKeys a
    → ((k v : String) → lookup k a ≡ some v → lookup k b ≡ some v)
    → included a b ≡ true
included_of_lookup [] b u h = refl
included_of_lookup ((k, v) ∷ a) b (fresh, u) h =
    rw
      (
        h k v (rw eq_refl refl),
        eq_refl v,
        included_of_lookup a b u (λ k' v' e. h k' v' (ground (arith, eq_iff k k'))),
      )
      refl

pub dict_equal_refl : (a : Dict String) → NodupKeys a → dict_equal a a ≡ true
dict_equal_refl a u = rw (included_of_lookup a a u (λ k v e. e)) refl

-- An equality test that is right only of equal values, lifted to lists and to optional values.
module _ {A : Type 0} (equal : A → A → Bool) (sound : (a b : A) → equal a b ≡ true → a ≡ b) where
  pub list_equal_sound : (xs ys : List A) → list_equal equal xs ys ≡ true → xs ≡ ys
  list_equal_sound [] [] h = refl
  list_equal_sound [] (y ∷ ys) h = absurd (false≢true h)
  list_equal_sound (x ∷ xs) [] h = absurd (false≢true h)
  list_equal_sound (x ∷ xs) (y ∷ ys) h =
      let (head, tail) = both (equal x y) (list_equal equal xs ys) h in
      λ i. sound x y head i ∷ list_equal_sound xs ys tail i

  pub option_equal_sound : (o p : Option A) → option_equal equal o p ≡ true → o ≡ p
  option_equal_sound none none h = refl
  option_equal_sound none (some y) h = absurd (false≢true h)
  option_equal_sound (some x) none h = absurd (false≢true h)
  option_equal_sound (some x) (some y) h = ap some (sound x y h)

pub bool_equal_sound : (a b : Bool) → bool_equal a b ≡ true → a ≡ b
bool_equal_sound true b h = sym h
bool_equal_sound false true h = absurd (false≢true h)
bool_equal_sound false false h = refl

holds_sound : (o : Option String) (v : String) → holds o v ≡ true → o ≡ some v
holds_sound none v h = absurd (false≢true h)
holds_sound (some w) v h = ap some ((eq_iff w v).0 h)

-- What an included map answers, the other one answers too.
included-lookup :
    (a b : Dict String) (k v : String)
    → included a b ≡ true
    → lookup k a ≡ some v
    → lookup k b ≡ some v
included-lookup [] b k v h e = ground arith
included-lookup ((j, w) ∷ a) b k v h e =
    let (first, rest) = both (holds (lookup j b) w) (included a b) h in
    elim (Bool-cases (j == k)) [
      | inl same ↦
          subst (λ t. lookup t b ≡ some v) ((eq_iff j k).0 same)
            (holds_sound (lookup j b) w first ∙ rw same at e)
      | inr other ↦ included-lookup a b k v rest (rw other at e)
    ]

-- Maps that are found equal answer alike.
pub dict_equal-lookup :
    (a b : Dict String) → dict_equal a b ≡ true → (k : String) → lookup k a ≡ lookup k b
dict_equal-lookup a b h k =
    let (there, back) = both (included a b) (included b a) h in
    elim (Option-cases (lookup k a)) [
      | inr (v, e) ↦ e ∙ sym (included-lookup a b k v there e)
      | inl e ↦ elim (Option-cases (lookup k b)) [
        | inl e' ↦ e ∙ sym e'
        | inr (v, e') ↦ included-lookup b a k v back e' ∙ sym e'
      ]
    ]
