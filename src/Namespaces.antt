-- ===== src/Namespaces.antt =====
-- `GetWatchNamespace` and `GetOperatorNamespace` of pkg/gateway/util/util.go.
use Prim.Native.Char.{Char, code}
use layer7_operator.Prelude.{
  ℕ, String, ◌<>◌, Bool, false, ◌||◌, ◌&&◌, List, [], ◌∷◌, Option, none, some, Error, Result, value,
  failure, ◌==◌, if◌then◌else◌,
}
use layer7_operator.Prelude.Int.{nat_eq}

abbrev pub watch_namespace_env_var : String
watch_namespace_env_var = "WATCH_NAMESPACE"

-- Of what `os.LookupEnv` found.
unfoldable pub get_watch_namespace : Option String → Result String
get_watch_namespace none = failure (Error.other (watch_namespace_env_var <> " must be set"))
get_watch_namespace (some ns) = value ns

-- The code points of `unicode.IsSpace`.
abbrev pub spaces : List ℕ
spaces =
    9 ∷ 10 ∷ 11 ∷ 12 ∷ 13 ∷ 32 ∷ 0x85 ∷ 0xA0 ∷ 0x1680 ∷ 0x2000 ∷ 0x2001 ∷ 0x2002 ∷ 0x2003 ∷ 0x2004
    ∷ 0x2005 ∷ 0x2006 ∷ 0x2007 ∷ 0x2008 ∷ 0x2009 ∷ 0x200A ∷ 0x2028 ∷ 0x2029 ∷ 0x202F ∷ 0x205F
    ∷ 0x3000 ∷ []

abbrev one_of : ℕ → List ℕ → Bool
one_of n [] = false
one_of n (m ∷ ms) = nat_eq n m || one_of n ms

abbrev pub is_space : Char → Bool
is_space c = one_of (code c) spaces

unfoldable pub trim_left : String → String
trim_left String.[] = ""
trim_left (String.◌∷◌ c s) = let rest = trim_left s in if is_space c then rest else String.◌∷◌ c s

unfoldable pub trim_right : String → String
trim_right String.[] = ""
trim_right (String.◌∷◌ c s) =
    let rest = trim_right s in if rest == "" && is_space c then "" else String.◌∷◌ c rest

-- `strings.TrimSpace`
unfoldable pub trim_space : String → String
unfolding trim_left trim_right
trim_space s = trim_right (trim_left s)

-- Of what `ioutil.ReadFile` read.
unfoldable pub get_operator_namespace : Result String → Result String
unfolding trim_space
get_operator_namespace (value text) = value (trim_space text)
get_operator_namespace (failure e) = failure e
