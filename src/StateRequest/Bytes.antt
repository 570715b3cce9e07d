-- ===== src/StateRequest/Bytes.antt =====
-- state_request.rs: the length prefix, eight bytes with the highest first.
use Prim.Native.Nat.{◌/◌}
use shario.Prelude.{
  ℕ, zero, suc, ◌+◌, ◌*◌, ◌%◌, ◌^◌, ◌<◌, List, [], ◌∷◌, ◌++◌, ◌≡◌, refl, ap, ◌∙◌, arith, length,
  length-append,
}

-- The low bytes of a number.
unfoldable be_bytes : ℕ → ℕ → List ℕ
be_bytes zero n = []
be_bytes (suc size) n = be_bytes size (n / 256) ++ n % 256 ∷ []

unfoldable be_value : ℕ → List ℕ → ℕ
be_value acc [] = acc
be_value acc (b ∷ bytes) = be_value (acc * 256 + b) bytes

-- `u64::to_be_bytes` and `u64::from_be_bytes`
unfoldable pub to_be_bytes : ℕ → List ℕ
unfolding be_bytes
to_be_bytes n = be_bytes 8 n

unfoldable pub from_be_bytes : List ℕ → ℕ
unfolding be_value
from_be_bytes bytes = be_value 0 bytes

length-be_bytes : (size n : ℕ) → length (be_bytes size n) ≡ size
unfolding be_bytes
length-be_bytes zero n = refl
length-be_bytes (suc size) n =
    omega (
      arith,
      length-append (be_bytes size (n / 256)) (n % 256 ∷ []),
      length-be_bytes size (n / 256),
    )

be_value-append :
    (acc : ℕ) (xs : List ℕ) (b : ℕ) → be_value acc (xs ++ b ∷ []) ≡ be_value acc xs * 256 + b
unfolding be_value
be_value-append acc [] b = refl
be_value-append acc (x ∷ xs) b = be_value-append (acc * 256 + x) xs b

div_mod : (n : ℕ) → (n / 256) * 256 + n % 256 ≡ n
div_mod n = omega arith

div_below : (size n : ℕ) → n < 256 ^ suc size → n / 256 < 256 ^ size
div_below size n h = omega arith

be_value-be_bytes : (size n : ℕ) → n < 256 ^ size → be_value 0 (be_bytes size n) ≡ n
unfolding be_bytes be_value
be_value-be_bytes zero n lt = omega arith
be_value-be_bytes (suc size) n lt =
    be_value-append 0 (be_bytes size (n / 256)) (n % 256)
    ∙ ap (λ v. v * 256 + n % 256) (be_value-be_bytes size (n / 256) (div_below size n lt))
    ∙ div_mod n

pub length-to_be_bytes : (n : ℕ) → length (to_be_bytes n) ≡ 8
unfolding to_be_bytes
length-to_be_bytes n = length-be_bytes 8 n

pub from_be_bytes-to_be_bytes : (n : ℕ) → n < 2 ^ 64 → from_be_bytes (to_be_bytes n) ≡ n
unfolding to_be_bytes from_be_bytes
from_be_bytes-to_be_bytes n lt = be_value-be_bytes 8 n (omega (arith, lt))
