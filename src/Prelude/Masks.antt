-- ===== src/Prelude/Masks.antt =====
-- Masks on words: the bits below a place, and those from a place on.
use Prim.Native.Nat.{ℕ, ◌+◌, ◌-◌, ◌*◌, ◌/◌, ◌%◌, ◌^◌, ◌<◌, bit_and, bit_or}
use mathlib.Core.Path.{◌≡◌, ap, ◌∙◌}
use native.Mathlib.Omega.{arith}
use native.Mathlib.Nat.{div-add-mod, mod-lt, one-le-pow}
use vesper.Prelude.Bits.{
  bit_or-fields, bit_or-halve, bit_or-zero, bit_and-low, bit_and-high, bit_and-full,
}

split_at : (k a : ℕ) → a ≡ a / 2 ^ k * 2 ^ k + a % 2 ^ k
split_at k a = omega (arith, div-add-mod a (2 ^ k))

below : (k a : ℕ) → a % 2 ^ k < 2 ^ k
below k a = mod-lt a (omega (arith, one-le-pow k 2))

-- The mask of the low bits is a remainder.
pub bit_and-mask : (k a : ℕ) → bit_and a (2 ^ k - 1) ≡ a % 2 ^ k
bit_and-mask k a =
    ap (λ t. bit_and t (2 ^ k - 1)) (split_at k a)
    ∙ bit_and-low k (a / 2 ^ k) (a % 2 ^ k) (2 ^ k - 1) (below k a) (omega (arith, one-le-pow k 2))
    ∙ bit_and-full k (a % 2 ^ k) (below k a)

-- The mask of the high bits drops the remainder.
pub bit_and-clear :
    (j k a : ℕ) → a / 2 ^ k < 2 ^ j → bit_and a ((2 ^ j - 1) * 2 ^ k) ≡ a / 2 ^ k * 2 ^ k
bit_and-clear j k a fits =
    ap (λ t. bit_and t ((2 ^ j - 1) * 2 ^ k)) (split_at k a)
    ∙ bit_and-high k (a / 2 ^ k) (a % 2 ^ k) (2 ^ j - 1) (below k a)
    ∙ ap (λ t. t * 2 ^ k) (bit_and-full j (a / 2 ^ k) fits)

-- The high bits of one word with the low bits of another.
pub bit_or-combine :
    (j k a b : ℕ)
    → a / 2 ^ k < 2 ^ j
    → bit_or (bit_and a ((2 ^ j - 1) * 2 ^ k)) (bit_and b (2 ^ k - 1))
      ≡ a / 2 ^ k * 2 ^ k + b % 2 ^ k
bit_or-combine j k a b fits =
    ap (λ t. bit_or t (bit_and b (2 ^ k - 1))) (bit_and-clear j k a fits)
    ∙ ap (bit_or (a / 2 ^ k * 2 ^ k)) (bit_and-mask k b)
    ∙ bit_or-fields k (a / 2 ^ k) (b % 2 ^ k) (below k b)

-- The lowest bit is set.
pub bit_or-one : (a : ℕ) → bit_or a 1 ≡ a / 2 * 2 + 1
bit_or-one a = omega (arith, bit_or-halve a 1, bit_or-zero (a / 2))
