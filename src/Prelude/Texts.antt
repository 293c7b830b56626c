-- ===== src/Prelude/Texts.antt =====
-- Tests on texts that are made of a prefix and a suffix.
use Prim.Native.String.{String, ◌++◌ as ◌<>◌}
use native.Mathlib.Omega.{arith}
use text.Mathlib.Text.{◌==◌}
use text.Mathlib.TextEquality.{eq_iff}
use text.Mathlib.TextLemmas.{append_cancel_left, append-eq-nil_iff, append-nil}
use text.Mathlib.TextPositions.{eq_refl}
use mathlib.Core.Path.{◌≡◌, sym, ◌∙◌, subst}
use mathlib.Core.Bool.{false}
use mathlib.Core.Logic.{◌≢◌, inl, inr}
use layer7_operator.Prelude.Tests.{Bool-cases}

-- Two names with one prefix are compared by what follows it.
pub append-eq_text : (s a b : String) → (s <> a == s <> b) ≡ (a == b)
append-eq_text s a b = elim (Bool-cases (a == b)) [
  | inl e ↦ rw ((eq_iff a b).0 e) (eq_refl (s <> b) ∙ sym (eq_refl b))
  | inr e ↦ elim (Bool-cases (s <> a == s <> b)) [
    | inl f ↦ f ∙ sym ((eq_iff a b).1 (append_cancel_left s a b ((eq_iff (s <> a) (s <> b)).0 f)))
    | inr f ↦ f ∙ sym e
  ]
]

pub self-eq_append : (s a : String) → (s == s <> a) ≡ ("" == a)
self-eq_append s a = subst (λ t. (t == s <> a) ≡ ("" == a)) (append-nil s) (append-eq_text s "" a)

pub append-eq_self : (s a : String) → (s <> a == s) ≡ (a == "")
append-eq_self s a = subst (λ t. (s <> a == t) ≡ (a == "")) (append-nil s) (append-eq_text s a "")

pub ruleset text_tests = (append-eq_text, self-eq_append, append-eq_self, eq_refl)

-- Different texts are tested unequal, from either side.
pub eq_false : (s t : String) → s ≢ t → (s == t) ≡ false
eq_false s t h = elim (Bool-cases (s == t)) [ inl e ↦ absurd (h ((eq_iff s t).0 e)) | inr e ↦ e ]

pub eq_false_sym : (s t : String) → s ≢ t → (t == s) ≡ false
eq_false_sym s t h = eq_false t s (λ p. h (sym p))

-- A text with something behind it is not empty.
pub append-ne_empty : (s : String) → (s <> "m" == "") ≡ false
append-ne_empty s = eq_false (s <> "m") "" (λ e. unit_named ((append-eq-nil_iff.0 e).1))
  where
    unit_named : ◌≢◌ {A = String} "m" ""
    unit_named = ground (arith, eq_iff "m" "")
