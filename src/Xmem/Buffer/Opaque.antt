-- ===== src/Xmem/Buffer/Opaque.antt =====
-- getOpaque and getPosFromOpaque undo each other.
use Prim.Native.Nat.{bit_and, min, digits, bit_and-bitwise}
use goxdcr.Prelude.{ℕ, zero, suc, ◌+◌, ◌*◌, ◌/◌, ◌%◌, ◌^◌, ◌≤◌, ◌<◌, ◌≡◌, refl, subst, arith}
use goxdcr.Xmem.Buffer.{get_opaque, get_pos_from_opaque}

abbrev common_digits : ℕ → ℕ → ℕ → ℕ
common_digits fuel a b = digits (λ b. zero) min fuel a b

enough_digits : (n a b : ℕ) → a ≤ n → common_digits n a b ≡ common_digits a a b
enough_digits n a b h = go n a a b h (omega arith)
  where
    go : (n m a b : ℕ) → a ≤ n → a ≤ m → common_digits n a b ≡ common_digits m a b
    go zero zero a b p q = refl
    go zero (suc m) zero b p q = refl
    go (suc n) zero zero b p q = refl
    go (suc n) (suc m) zero b p q = refl
    go zero m (suc a) b p q = absurd (omega arith)
    go (suc n) zero (suc a) b p q = absurd (omega arith)
    go (suc n) (suc m) (suc a) b p q =
        omega (arith, go n m (suc a / 2) (b / 2) (omega arith) (omega arith))

lowest_digit :
    (a b : ℕ) → bit_and (suc a) b ≡ bit_and (suc a / 2) (b / 2) * 2 + min (suc a % 2) (b % 2)
lowest_digit a b = omega (
  arith,
  bit_and-bitwise (suc a) b,
  bit_and-bitwise (suc a / 2) (b / 2),
  enough_digits a (suc a / 2) (b / 2) (omega arith),
)

-- An odd mask keeps the lowest digit.
odd_mask : (a b : ℕ) → bit_and (suc (a * 2)) b ≡ bit_and a (b / 2) * 2 + b % 2
odd_mask a b =
    let e : suc (a * 2) / 2 ≡ a = omega arith in
    let l = lowest_digit (a * 2) b in
    let r : bit_and (suc (a * 2)) b ≡ bit_and a (b / 2) * 2 + min (suc (a * 2) % 2) (b % 2) =
      subst (λ x. bit_and (suc (a * 2)) b ≡ bit_and x (b / 2) * 2 + min (suc (a * 2) % 2) (b % 2)) e
        l in
    omega arith

unfoldable ones : ℕ → ℕ
ones zero = 0
ones (suc k) = suc (ones k * 2)

-- The number of the lowest k digits.
unfoldable lowest : ℕ → ℕ → ℕ
lowest zero b = 0
lowest (suc k) b = lowest k (b / 2) * 2 + b % 2

bit_and-ones : (k b : ℕ) → bit_and (ones k) b ≡ lowest k b
unfolding ones lowest
bit_and-ones zero b = bit_and-bitwise 0 b
bit_and-ones (suc k) b = omega (arith, odd_mask (ones k) b, bit_and-ones k (b / 2))

low_half : (b : ℕ) → bit_and 0xffff b ≡ b % 2 ^ 16
unfolding ones lowest
low_half b = omega (arith, bit_and-ones 16 b)

-- The position in an opaque is the one it was made from, whatever the sequence.
pub get_pos_from_opaque-get_opaque :
    (index sequence : ℕ) → index < 2 ^ 16 → get_pos_from_opaque (get_opaque index sequence) ≡ index
unfolding get_pos_from_opaque get_opaque
get_pos_from_opaque-get_opaque index sequence h =
    let e = low_half (get_opaque index sequence) in omega arith
