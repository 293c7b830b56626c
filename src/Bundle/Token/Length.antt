-- ===== src/Bundle/Token/Length.antt =====
-- The length of the ids that `randToken` of pkg/gateway/util/bundle.go makes.
use Prim.Native.Nat.{◌*◌, ◌/◌, ◌%◌}
use text.Mathlib.TextLemmas.{length-append}
use Prim.Native.String.{count}
use layer7_operator.Prelude.{
  ℕ, zero, suc, ◌<◌, String, ◌≡◌, refl, ap, ◌∙◌, List, [], ◌∷◌, All, arith, ok,
}
use layer7_operator.Runtime.{Runtime}
use layer7_operator.Bundle.Token.{hex_digits, rand_token, nth, encode_to_string}

-- The number of bytes.
abbrev pub size : List ℕ → ℕ
size [] = 0
size (b ∷ bs) = suc (size bs)

abbrev size_of : List String → ℕ
size_of [] = 0
size_of (d ∷ ds) = suc (size_of ds)

nth-count :
    (digits : List String) (i : ℕ)
    → All (λ d. count d ≡ 1) digits
    → i < size_of digits
    → count (nth digits i) ≡ 1
unfolding nth
nth-count [] i h lt = ground arith
nth-count (d ∷ ds) zero (one, h) lt = one
nth-count (d ∷ ds) (suc i) (one, h) lt = nth-count ds i h (omega arith)

hex_digit-count : (i : ℕ) → i < 16 → count (nth hex_digits i) ≡ 1
hex_digit-count i lt =
    nth-count hex_digits i
      (
        refl,
        (
          refl,
          (
            refl,
            (
              refl,
              (
                refl,
                (
                  refl,
                  (
                    refl,
                    (refl, (refl, (refl, (refl, (refl, (refl, (refl, (refl, (refl, tt))))))))),
                  ),
                ),
              ),
            ),
          ),
        ),
      )
      lt

-- The text of bytes has two characters for each byte.
encode_to_string-count :
    (bytes : List ℕ) → All (λ b. b < 256) bytes → count (encode_to_string bytes) ≡ 2 * size bytes
unfolding encode_to_string
encode_to_string-count [] h = refl
encode_to_string-count (b ∷ bs) (lt, h) =
    let high = hex_digit-count (b / 16) (omega arith) in
    let low = hex_digit-count (b % 16) (omega arith) in
    let rest = encode_to_string-count bs h in
    rw (length-append, length-append, high, low, rest) (omega arith)

-- If the source of randomness fills the buffer of `n` bytes, the id has two characters for each of them.
rand_token-count :
    (R : Runtime) (n : ℕ) (e e' : R.Entropy) (bytes : List ℕ)
    → R.rand_read n e ≡ (ok bytes, e')
    → size bytes ≡ n
    → All (λ b. b < 256) bytes
    → (id : String) × (rand_token R n e ≡ (ok id, e')) × (count id ≡ 2 * n)
unfolding rand_token
rand_token-count R n e e' bytes read filled small = (
  encode_to_string bytes,
  rw read refl,
  encode_to_string-count bytes small ∙ ap (λ k. 2 * k) filled,
)
