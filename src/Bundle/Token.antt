-- ===== src/Bundle/Token.antt =====
-- `randToken` of pkg/gateway/util/bundle.go.
pub mod Length
use Prim.Native.Nat.{◌/◌, ◌%◌}
use layer7_operator.Prelude.{ℕ, zero, suc, String, ◌<>◌, List, [], ◌∷◌}
use layer7_operator.Prelude.Exec.{Exec, pure, ◌>>=◌}
use layer7_operator.Runtime.{Runtime}

abbrev hex_digits : List String
hex_digits =
    "0" ∷ "1" ∷ "2" ∷ "3" ∷ "4" ∷ "5" ∷ "6" ∷ "7" ∷ "8" ∷ "9" ∷ "a" ∷ "b" ∷ "c" ∷ "d" ∷ "e" ∷ "f"
    ∷ []

unfoldable pub nth : List String → ℕ → String
nth [] i = ""
nth (x ∷ xs) zero = x
nth (x ∷ xs) (suc i) = nth xs i

-- `hex.EncodeToString`
unfoldable pub encode_to_string : List ℕ → String
unfolding nth
encode_to_string [] = ""
encode_to_string (b ∷ bs) =
    nth hex_digits (b / 16) <> (nth hex_digits (b % 16) <> encode_to_string bs)

module _ (R : Runtime) where
  unfoldable pub rand_token : ℕ → Exec R.Entropy String
  unfolding encode_to_string
  rand_token n = do bytes ← R.rand_read n; pure (encode_to_string bytes)
