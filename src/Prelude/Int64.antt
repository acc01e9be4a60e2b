-- ===== src/Prelude/Int64.antt =====
-- Signed integers over the native numbers, and Go's int64: two's complement arithmetic that wraps,
-- and division that truncates towards zero.
use Prim.Native.Nat.{ℕ, suc, ◌+◌, ◌-◌, ◌*◌, ◌/◌, ◌%◌, ◌^◌, ◌≤◌, ◌<◌}
use mathlib.Core.Path.{◌≡◌, refl}
use mathlib.Core.Logic.{◌⊎◌, inl, inr}
use mathlib.Core.Bool.{Bool, true, ◌&&◌}
use native.Mathlib.Omega.{arith}
use goxdcr.Prelude.Tests.{ltb, leb, if◌then◌else◌}

-- `negsuc n` is -(n + 1).
pub data ℤ : Type 0 where
  pos : ℕ → ℤ
  negsuc : ℕ → ℤ

abbrev pub pos_part : ℤ → ℕ
pos_part (pos n) = n
pos_part (negsuc n) = 0

abbrev pub neg_part : ℤ → ℕ
neg_part (pos n) = 0
neg_part (negsuc n) = suc n

-- a - b, as an integer.
abbrev pub sub_ℕ : ℕ → ℕ → ℤ
sub_ℕ a b = if leb b a then pos (a - b) else negsuc (b - a - 1)

infix 50 ◌≤ℤ◌ ◌<ℤ◌
abbrev pub ◌≤ℤ◌ : ℤ → ℤ → Type 0
a ≤ℤ b = pos_part a + neg_part b ≤ pos_part b + neg_part a

abbrev pub ◌<ℤ◌ : ℤ → ℤ → Type 0
a <ℤ b = pos_part a + neg_part b < pos_part b + neg_part a

abbrev pub ltb_ℤ : ℤ → ℤ → Bool
ltb_ℤ a b = ltb (pos_part a + neg_part b) (pos_part b + neg_part a)

abbrev pub leb_ℤ : ℤ → ℤ → Bool
leb_ℤ a b = leb (pos_part a + neg_part b) (pos_part b + neg_part a)

-- The int64 with bit pattern `w`, below 2 ^ 64.
abbrev pub signed : ℕ → ℤ
signed w = if ltb w (2 ^ 63) then pos w else negsuc (2 ^ 64 - w - 1)

-- The int64 that an exact result is stored as.
abbrev pub wrap : ℤ → ℤ
wrap (pos n) = signed (n % 2 ^ 64)
wrap (negsuc n) = signed (2 ^ 64 - 1 - n % 2 ^ 64)

infixl 65 ◌+ℤ◌ ◌-ℤ◌
unfoldable pub ◌+ℤ◌ : ℤ → ℤ → ℤ
a +ℤ b = wrap (sub_ℕ (pos_part a + pos_part b) (neg_part a + neg_part b))

unfoldable pub ◌-ℤ◌ : ℤ → ℤ → ℤ
a -ℤ b = wrap (sub_ℕ (pos_part a + neg_part b) (neg_part a + pos_part b))

-- a / k for a positive k: the quotient of the magnitudes, with the sign of `a`.
unfoldable pub div_pos : ℤ → ℕ → ℤ
div_pos (pos n) k = pos (n / k)
div_pos (negsuc n) k = sub_ℕ 0 (suc n / k)

-- The values of an int64.
abbrev pub IsInt64 : ℤ → Type 0
IsInt64 (pos n) = n < 2 ^ 63
IsInt64 (negsuc n) = n < 2 ^ 63

-- The exact sum and difference, which the wrapping ones give where they are in range.
abbrev pub exact_add : ℤ → ℤ → ℤ
exact_add a b = sub_ℕ (pos_part a + pos_part b) (neg_part a + neg_part b)

abbrev pub exact_sub : ℤ → ℤ → ℤ
exact_sub a b = sub_ℕ (pos_part a + neg_part b) (neg_part a + pos_part b)

pub wrap-IsInt64 : (a : ℤ) → IsInt64 (wrap a)
wrap-IsInt64 (pos n) = ground arith
wrap-IsInt64 (negsuc n) = ground arith

pub wrap_of_IsInt64 : (a : ℤ) → IsInt64 a → wrap a ≡ a
wrap_of_IsInt64 (pos n) h = ground arith
wrap_of_IsInt64 (negsuc n) h = ground arith

abbrev pub eqb_ℤ : ℤ → ℤ → Bool
eqb_ℤ a b = leb_ℤ a b && leb_ℤ b a

-- a * k for a positive k, and its int64.
unfoldable pub mul_pos : ℤ → ℕ → ℤ
mul_pos (pos n) k = wrap (pos (n * k))
mul_pos (negsuc n) k = wrap (sub_ℕ 0 (suc n * k))

-- Far from the ends of the range, so that a sum or difference of two does not wrap.
abbrev pub IsSmall : ℤ → Type 0
IsSmall a = (pos_part a < 2 ^ 62) × (neg_part a < 2 ^ 62)

pub eq_of_parts : (a b : ℤ) → pos_part a + neg_part b ≡ pos_part b + neg_part a → a ≡ b
eq_of_parts a b h = ground arith

pub eqb→eq : (a b : ℤ) → eqb_ℤ a b ≡ true → a ≡ b
eqb→eq a b h = eq_of_parts a b (ground arith)

sub_ℕ-parts : (a b : ℕ) → pos_part (sub_ℕ a b) + b ≡ neg_part (sub_ℕ a b) + a
sub_ℕ-parts a b = ground arith

sub_ℕ-IsInt64 : (a b : ℕ) → a < 2 ^ 63 → b < 2 ^ 63 → IsInt64 (sub_ℕ a b)
sub_ℕ-IsInt64 a b h k = ground arith

pub one_part : (a : ℤ) → (pos_part a ≡ 0) ⊎ (neg_part a ≡ 0)
one_part (pos n) = inr refl
one_part (negsuc n) = inl refl

pub -ℤ_parts :
    (a b : ℤ)
    → IsSmall a
    → IsSmall b
    → pos_part (a -ℤ b) + neg_part a + pos_part b ≡ neg_part (a -ℤ b) + pos_part a + neg_part b
unfolding ◌-ℤ◌
-ℤ_parts a b h k =
    let p = pos_part a + neg_part b in
    let n = neg_part a + pos_part b in
    let w = wrap_of_IsInt64 (sub_ℕ p n) (sub_ℕ-IsInt64 p n (omega arith) (omega arith)) in
    rw w (omega (arith, sub_ℕ-parts p n))

pub +ℤ_parts :
    (a b : ℤ)
    → IsSmall a
    → IsSmall b
    → pos_part (a +ℤ b) + neg_part a + neg_part b ≡ neg_part (a +ℤ b) + pos_part a + pos_part b
unfolding ◌+ℤ◌
+ℤ_parts a b h k =
    let p = pos_part a + pos_part b in
    let n = neg_part a + neg_part b in
    let w = wrap_of_IsInt64 (sub_ℕ p n) (sub_ℕ-IsInt64 p n (omega arith) (omega arith)) in
    rw w (omega (arith, sub_ℕ-parts p n))

pub div_pos_nonneg :
    (a : ℤ) (k : ℕ)
    → neg_part a ≡ 0
    → (pos_part (div_pos a k) ≡ pos_part a / k) × (neg_part (div_pos a k) ≡ 0)
unfolding div_pos
div_pos_nonneg (pos n) k h = (refl, refl)
div_pos_nonneg (negsuc n) k h = absurd (omega arith)

pub div-le : (n k : ℕ) → 0 < k → n / k ≤ n
div-le n k h = grind arith
