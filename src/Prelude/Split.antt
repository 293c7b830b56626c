-- ===== src/Prelude/Split.antt =====
-- `strings.Split` at a single character, `strings.Contains` of one, and what `strings.Join` makes of them.
use Prim.Native.Char.{Char, code}
use Prim.Native.String.{String, ◌++◌ as ◌<>◌}
use mathlib.Core.Path.{◌≡◌, refl, sym}
use mathlib.Core.Bool.{Bool, true, false, ◌||◌, false≢true}
use mathlib.Core.Logic.{inl, inr}
use mathlib.Core.List.{List, [], ◌∷◌, ◌++◌}
use text.Mathlib.TextLemmas.{nil-append, cons-append}
use layer7_operator.Prelude.Tests.{if◌then◌else◌, Bool-cases}
use layer7_operator.Prelude.Int.{nat_eq, int_eq_iff, pos}
use layer7_operator.Prelude.Lists.{All, join}

abbrev pub is_char : Char → Char → Bool
is_char c d = nat_eq (code c) (code d)

-- `strings.Contains` of a text of one character.
abbrev pub has_char : Char → String → Bool
has_char c String.[] = false
has_char c (String.◌∷◌ d s) = is_char c d || has_char c s

-- A character in front of the first part.
abbrev extend : Char → List String → List String
extend d [] = String.◌∷◌ d "" ∷ []
extend d (part ∷ parts) = String.◌∷◌ d part ∷ parts

unfoldable pub split : Char → String → List String
split c String.[] = "" ∷ []
split c (String.◌∷◌ d s) = let rest = split c s in if is_char c d then "" ∷ rest else extend d rest

or_assoc : (a b d : Bool) → (a || (b || d)) ≡ ((a || b) || d)
or_assoc true b d = refl
or_assoc false b d = refl

module _ (c : Char) where
  abbrev pub separator : String
  separator = String.◌∷◌ c ""

  is_char_refl : is_char c c ≡ true
  is_char_refl = (int_eq_iff (pos (code c)) (pos (code c))).1 refl

  -- There is always a part.
  pub split-first :
      (s : String) → (part : String) × (parts : List String) × (split c s ≡ part ∷ parts)
  unfolding split
  split-first String.[] = ("", [], refl)
  split-first (String.◌∷◌ d s) = elim (Bool-cases (is_char c d)) [
    | inl e ↦ ("", split c s, rw e refl)
    | inr e ↦
        let (part, parts, found) = split-first s in (String.◌∷◌ d part, parts, rw (e, found) refl)
  ]

  extend-append :
      (d : Char) (s : String) (parts : List String)
      → extend d (split c s ++ parts) ≡ extend d (split c s) ++ parts
  extend-append d s parts = let (part, rest, found) = split-first s in rw found refl

  -- What stands on both sides of a separator is split on its own.
  pub split-append : (s t : String) → split c (s <> (separator <> t)) ≡ split c s ++ split c t
  unfolding split
  split-append String.[] t = rw (nil-append, cons-append, nil-append, is_char_refl) refl
  split-append (String.◌∷◌ d s) t = elim (Bool-cases (is_char c d)) [
    | inl e ↦ rw (cons-append, e, split-append s t) refl
    | inr e ↦ rw (cons-append, e, split-append s t) (extend-append d s (split c t))
  ]

  pub split-whole : (s : String) → has_char c s ≡ false → split c s ≡ s ∷ []
  unfolding split
  split-whole String.[] h = refl
  split-whole (String.◌∷◌ d s) h = elim (Bool-cases (is_char c d)) [
    | inl e ↦ absurd (false≢true (sym (rw e at h)))
    | inr e ↦ rw (e, split-whole s (rw e at h)) refl
  ]

  -- No part holds the separator.
  abbrev pub IsFree : String → Type 0
  IsFree part = has_char c part ≡ false

  pub split-IsFree : (s : String) → All IsFree (split c s)
  unfolding split
  split-IsFree String.[] = (refl, tt)
  split-IsFree (String.◌∷◌ d s) = elim (Bool-cases (is_char c d)) [
    | inl e ↦ rw e (refl, split-IsFree s)
    | inr e ↦ rw e (extended (split c s) e (split-IsFree s))
  ]
    where
      extended :
          (parts : List String)
          → is_char c d ≡ false
          → All IsFree parts
          → All IsFree (extend d parts)
      extended [] e h = (rw e refl, tt)
      extended (part ∷ parts) e (h, hs) = (rw e h, hs)

  -- Joined parts are split again into the same parts.
  pub split-join :
      (part : String) (parts : List String)
      → IsFree part
      → All IsFree parts
      → split c (join (part ∷ parts) separator) ≡ part ∷ parts
  split-join part [] h hs = split-whole part h
  split-join part (next ∷ parts) h (h', hs) =
      rw
        (
          split-append part (join (next ∷ parts) separator),
          split-whole part h,
          split-join next parts h' hs,
        )
        refl

  has_char-append : (s t : String) → has_char c (s <> t) ≡ (has_char c s || has_char c t)
  has_char-append String.[] t = rw nil-append refl
  has_char-append (String.◌∷◌ d s) t =
      rw (cons-append, has_char-append s t) (or_assoc (is_char c d) (has_char c s) (has_char c t))

  -- A text of more than one part holds the separator.
  pub has_char-join :
      (part next : String) (parts : List String)
      → IsFree part
      → has_char c (join (part ∷ next ∷ parts) separator) ≡ true
  has_char-join part next parts h =
      rw
        (
          has_char-append part (separator <> join (next ∷ parts) separator),
          h,
          cons-append,
          is_char_refl,
        )
        refl
