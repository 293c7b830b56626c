-- ===== src/Runtime.antt =====
-- What the builders use of Go's runtime and of libraries: random bytes, the order in which a map is
-- ranged over, floating-point arithmetic, XML, and Kubernetes quantities.
use layer7_operator.Prelude.{ℕ, String, Bool, Outcome, List}
use layer7_operator.Prelude.Int.{ℤ}
use layer7_operator.Prelude.Dict.{Dict}
use layer7_operator.Prelude.Exec.{Exec}
use layer7_operator.Kube.Meta.{Raw}
use layer7_operator.Bundle.Xml.{Bundle}

pub record Runtime : Type 1 where
  -- What random bytes and map orders are drawn from.
  pub Entropy : Type 0
  -- `rand.Read` into a buffer of that length
  pub rand_read : ℕ → Exec Entropy (List ℕ)
  -- the entries of a map in the order in which `range` meets them
  pub range : Dict String → Exec Entropy (Dict String)
  pub Float : Type 0
  -- `float64(n)`, a constant of the source, `*`, `/`, `int64(x)`
  pub float64 : ℤ → Float
  pub constant : String → Float
  pub mul : Float → Float → Float
  pub div : Float → Float → Float
  pub int64 : Float → ℤ
  -- `strconv.FormatInt(n, 10)`
  pub format_int : ℤ → String
  -- `limits.Memory().IsZero()` and `limits.Memory().Value()`
  pub memory_is_zero : Raw → Bool
  pub memory_value : Raw → ℤ
  -- `xml.Marshal`
  pub marshal : Bundle → Outcome String
