-- ===== src/Files/Path/Climbs.antt =====
-- Where ".." stands in a cleaned path.
use mathlib.Core.Bool.{false≢true}
use mathlib.Core.List.{reverse, reverse-cons}
use layer7_operator.Prelude.{
  String, ◌<>◌, Bool, true, false, ◌||◌, List, [], ◌∷◌, ◌++◌, join, ◌==◌, starts_with, ◌≡◌, ◌≢◌,
  refl, ap, sym, ◌∙◌, ◌⊎◌, inl, inr, Bool-cases, All, All-append, eq_iff, arith,
}
use mathlib.Core.Path.{subst}
use text.Mathlib.TextLemmas.{nil-append}
use layer7_operator.Prelude.Texts.{eq_false}
use layer7_operator.Prelude.Split.{
  split, split-append, split-join, split-IsFree, split-first, IsFree,
}
use layer7_operator.Files.Path.{slash, back, resolve, walk, render, clean, join_path}

abbrev pub IsName : String → Type 0
IsName elem = elem ≢ ".."

abbrev IsUp : String → Type 0
IsUp elem = elem ≡ ".."

-- The elements so far, the last one at the head: names, below them the ".." of a path that is not rooted.
abbrev IsStack : Bool → List String → Type 0
IsStack rooted [] = Unit
IsStack rooted (elem ∷ out) =
    (IsName elem × IsStack rooted out) ⊎ ((rooted ≡ false) × All IsUp (elem ∷ out))

back-IsStack :
    (rooted : Bool) (out : List String) → IsStack rooted out → IsStack rooted (back rooted out)
unfolding back
back-IsStack true [] h = tt
back-IsStack false [] h = inr (refl, (refl, tt))
back-IsStack rooted (top ∷ out) (inl (name, h)) = rw (eq_false top ".." name) h
back-IsStack rooted (top ∷ out) (inr (e, (up, ups))) =
    rw ((eq_iff top "..").1 up) (inr (e, (refl, (up, ups))))

resolve-IsStack :
    (rooted : Bool) (out : List String) (elem : String)
    → IsStack rooted out
    → IsStack rooted (resolve rooted out elem)
unfolding resolve
resolve-IsStack rooted out elem h = elim (Bool-cases (elem == "" || elem == ".")) [
  | inl e ↦ rw e h
  | inr e ↦ elim (Bool-cases (elem == "..")) [
    | inl up ↦ rw (e, up) (back-IsStack rooted out h)
    | inr name ↦ rw (e, name) (inl ((λ same. false≢true (sym name ∙ (eq_iff elem "..").1 same)), h))
  ]
]

walk-IsStack :
    (rooted : Bool) (out elems : List String)
    → IsStack rooted out
    → IsStack rooted (walk rooted out elems)
unfolding walk
walk-IsStack rooted out [] h = h
walk-IsStack rooted out (elem ∷ elems) h =
    walk-IsStack rooted (resolve rooted out elem) elems (resolve-IsStack rooted out elem h)

-- No element holds a slash.
abbrev AllFree : List String → Type 0
AllFree = All (IsFree slash)

back-AllFree : (rooted : Bool) (out : List String) → AllFree out → AllFree (back rooted out)
unfolding back
back-AllFree true [] h = tt
back-AllFree false [] h = (refl, tt)
back-AllFree rooted (top ∷ out) (h, hs) = elim (Bool-cases (top == "..")) [
  | inl e ↦ rw e (refl, (h, hs))
  | inr e ↦ rw e hs
]

resolve-AllFree :
    (rooted : Bool) (out : List String) (elem : String)
    → AllFree out
    → IsFree slash elem
    → AllFree (resolve rooted out elem)
unfolding resolve
resolve-AllFree rooted out elem h free = ground (arith, back-AllFree rooted out h)

walk-AllFree :
    (rooted : Bool) (out elems : List String)
    → AllFree out
    → AllFree elems
    → AllFree (walk rooted out elems)
unfolding walk
walk-AllFree rooted out [] h hs = h
walk-AllFree rooted out (elem ∷ elems) h (free, hs) =
    walk-AllFree rooted (resolve rooted out elem) elems (resolve-AllFree rooted out elem h free) hs

-- The first element of a stack, seen from below, is ".." or no element is.
abbrev Starts : List String → Type 0
Starts elems = (rest : List String) × (elems ≡ ".." ∷ rest)

Starts-append : (elems more : List String) → Starts elems → Starts (elems ++ more)
Starts-append elems more (rest, e) = (rest ++ more, ap (λ l. l ++ more) e)

Starts-reverse :
    (elem : String) (out : List String) → All IsUp (elem ∷ out) → Starts (reverse (elem ∷ out))
Starts-reverse elem [] (up, ups) = ([], rw up refl)
Starts-reverse elem (next ∷ out) (up, ups) =
    rw (reverse-cons elem (next ∷ out))
      (Starts-append (reverse (next ∷ out)) (elem ∷ []) (Starts-reverse next out ups))

IsStack-Starts :
    (rooted : Bool) (out : List String)
    → IsStack rooted out
    → All IsName out ⊎ ((rooted ≡ false) × Starts (reverse out))
IsStack-Starts rooted [] h = inl tt
IsStack-Starts rooted (elem ∷ out) (inr (e, ups)) = inr (e, Starts-reverse elem out ups)
IsStack-Starts rooted (elem ∷ out) (inl (name, h)) = elim (IsStack-Starts rooted out h) [
  | inl names ↦ inl (name, names)
  | inr (e, starts) ↦
      inr (e, rw (reverse-cons elem out) (Starts-append (reverse out) (elem ∷ []) starts))
]

All-reverse : (P : String → Type 0) (xs : List String) → All P xs → All P (reverse xs)
All-reverse P [] h = tt
All-reverse P (x ∷ xs) (h, hs) =
    rw (reverse-cons x xs) (All-append P (reverse xs) (x ∷ []) (All-reverse P xs hs) (h, tt))

-- The elements of a path that is joined from a stack.
abbrev Ends : List String → Type 0
Ends elems = All IsName elems ⊎ Starts elems

empty-IsName : IsName ""
empty-IsName = ground (arith, eq_iff "" "..")

dot-IsName : IsName "."
dot-IsName = ground (arith, eq_iff "." "..")

-- Joined elements are split again, and no element at all gives an empty one.
split-joined :
    (P : List String → Type 0) (elems : List String)
    → P ("" ∷ [])
    → AllFree elems
    → P elems
    → P (split slash (join elems "/"))
unfolding split
split-joined P [] empty h holds = empty
split-joined P (elem ∷ elems) empty (h, hs) holds = rw (split-join slash elem elems h hs) holds

split-rooted : (t : String) → split slash ("/" <> t) ≡ "" ∷ split slash t
unfolding split
split-rooted t =
    subst (λ u. split slash u ≡ "" ∷ split slash t) (nil-append ("/" <> t))
      (split-append slash "" t)

-- The stack of a path that is rooted has names only.
rooted-IsName : (out : List String) → IsStack true out → All IsName out
rooted-IsName out h = elim (IsStack-Starts true out h) [
  | inl names ↦ names
  | inr (e, starts) ↦ absurd (false≢true (sym e))
]

Ends-reverse : (rooted : Bool) (out : List String) → IsStack rooted out → Ends (reverse out)
Ends-reverse rooted out h = elim (IsStack-Starts rooted out h) [
  | inl names ↦ inl (All-reverse IsName out names)
  | inr (e, starts) ↦ inr starts
]

-- The second of two lists.
All-right : (P : String → Type 0) (xs ys : List String) → All P (xs ++ ys) → All P ys
All-right P [] ys h = h
All-right P (x ∷ xs) ys (h, hs) = All-right P xs ys hs

abbrev first_of : List String → String
first_of [] = ""
first_of (elem ∷ elems) = elem

split-render :
    (rooted : Bool) (out : List String)
    → IsStack rooted out
    → AllFree out
    → Ends (split slash (render rooted out))
unfolding render split
split-render true out h free = inl (
    subst (All IsName) (sym (split-rooted (join (reverse out) "/"))) (
      empty-IsName,
      split-joined (All IsName) (reverse out) (empty-IsName, tt)
          (All-reverse (IsFree slash) out free) (All-reverse IsName out (rooted-IsName out h)),
    ))
split-render false [] h free = inl (dot-IsName, tt)
split-render false (elem ∷ out) h free =
    split-joined Ends (reverse (elem ∷ out)) (inl (empty-IsName, tt))
      (All-reverse (IsFree slash) (elem ∷ out) free) (Ends-reverse false (elem ∷ out) h)

-- The elements of a cleaned path are names, or the first one is "..".
pub split-clean : (path : String) → Ends (split slash (clean path))
unfolding clean
split-clean path =
    let rooted = starts_with path "/" in
    let elems = split slash path in
    split-render rooted (walk rooted [] elems) (walk-IsStack rooted [] elems tt)
      (walk-AllFree rooted [] elems tt (split-IsFree slash path))

pub split-join_path : (dest name : String) → Ends (split slash (join_path dest name))
unfolding join_path split
split-join_path dest name = elim (Bool-cases (dest == "")) [
  | inl e ↦ elim (Bool-cases (name == "")) [
    | inl e' ↦ rw (e, e') (inl (empty-IsName, tt))
    | inr e' ↦ rw (e, e') (split-clean name)
  ]
  | inr e ↦ rw e (split-clean (dest <> ("/" <> name)))
]

-- What stands behind a slash in such a path has no "..", if what stands before it has none.
pub split-behind :
    (path front behind : String)
    → Ends (split slash path)
    → path ≡ front <> ("/" <> behind)
    → All IsName (split slash front)
    → All IsName (split slash behind)
split-behind path front behind ends e names =
    by_ends (subst Ends (ap (split slash) e ∙ split-append slash front behind) ends)
  where
    by_ends : Ends (split slash front ++ split slash behind) → All IsName (split slash behind)
    by_ends (inl all) = All-right IsName (split slash front) (split slash behind) all
    by_ends (inr (rest, starts)) =
        let (part, parts, found) = split-first slash front in
        absurd ((rw found at names).0 (ap first_of (rw found at starts)))
