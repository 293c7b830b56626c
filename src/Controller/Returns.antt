-- ===== src/Controller/Returns.antt =====
-- Calls that end in a value or an error, not in a panic (controller.go and the builders that it calls).
pub mod Bundles
pub mod Objects
pub mod Statuses
pub mod Whole
use layer7_operator.Prelude.{
  ℕ, String, Bool, true, false, ◌≡◌, ◌≢◌, refl, Outcome, ok, err, panic, none, some, value, List,
  Result, failure, not_found, Error, Option, if◌then◌else◌,
}
use layer7_operator.Prelude.Dict.{Dict}
use layer7_operator.Prelude.Exec.{Exec, proceed, or_zero, ignore_error, pure, raise}
use layer7_operator.Kube.Pods.{Pod}
use layer7_operator.Api.Gateway.{Gateway}
use layer7_operator.Runtime.{Runtime}
use layer7_operator.Bundle.Xml.{Bundle}
use layer7_operator.Controller.Client.{Client}
use layer7_operator.Controller.Run.{Run, is_not_found, when}
use layer7_operator.Controller.Status.Report.{all_started}
use layer7_operator.Controller.Converge.Places.{Kind, Object, api_at}

abbrev pub returns : {A : Type 0} → Outcome A → Bool
returns (ok a) = true
returns (err e) = true
returns panic = false

abbrev pub Returns : {S A : Type 0} → Exec S A → Type 0
Returns m = (s : _) → returns (m s).0 ≡ true

-- The calls of Go's libraries do not panic.
pub record IsSafe (R : Runtime) : Type 0 where
  pub rand_read : (n : ℕ) → Returns (R.rand_read n)
  pub range : (d : Dict String) → Returns (R.range d)
  pub marshal : (b : Bundle) → returns (R.marshal b) ≡ true

-- The libraries do not panic, every pod that is listed has started, and every repository that is cloned
-- has a head.
pub record IsTame (R : Runtime) (C : Client) : Type 0 where
  pub safe : IsSafe R
  pub create : (k : Kind) (x : Object k) → Returns ((api_at C k).create x)
  pub update : (k : Kind) (x : Object k) → Returns ((api_at C k).update x)
  pub patch_pod : (pod : Pod) (text : String) → Returns (C.patch_pod pod text)
  pub update_status : (gw : Gateway) → Returns (C.update_status gw)
  pub started :
      (ns : String) (labels : Dict String) (s : C.State) (pods : List Pod)
      → C.list_pods ns labels s ≡ value pods
      → all_started pods ≡ true
  pub head :
      (url : String) (s : C.State) (repo : C.Repo) → C.clone url s ≡ value repo → C.head repo ≢ none

module _ {S : Type 0} where
  pub proceed-returns :
      {A B : Type 0} (r : Outcome A) (s : S) (f : A → Exec S B)
      → returns r ≡ true
      → ((a : A) → Returns (f a))
      → returns (proceed r s f).0 ≡ true
  proceed-returns (ok a) s f h rest = rest a s
  proceed-returns (err e) s f h rest = refl
  proceed-returns panic s f h rest = h

  pub call-returns :
      {A B : Type 0} (m : Exec S A) (f : A → Exec S B) (s : S)
      → Returns m
      → ((a : A) → Returns (f a))
      → returns (proceed (m s).0 (m s).1 f).0 ≡ true
  call-returns m f s h rest = proceed-returns (m s).0 (m s).1 f (h s) rest

  pub if-Returns :
      {A : Type 0} (b : Bool) (m m' : Exec S A)
      → Returns m
      → Returns m'
      → Returns (if b then m else m')
  if-Returns true m m' h h' = h
  if-Returns false m m' h h' = h'

  pub ignore_error-Returns :
      {A : Type 0} (zero_value : A) (m : Exec S A) → Returns m → Returns (ignore_error zero_value m)
  ignore_error-Returns zero_value m h s = by_outcome (m s).0 (h s)
    where
      by_outcome : (r : Outcome _) → returns r ≡ true → returns (or_zero zero_value r) ≡ true
      by_outcome (ok a) h = refl
      by_outcome (err e) h = refl
      by_outcome panic h = h

module _ {R : Runtime} {C : Client} where
  pub when-Returns : (b : Bool) (m : Exec (Run R C) (Unit {0})) → Returns m → Returns (when b m)
  when-Returns true m h run = h run
  when-Returns false m h run = refl
