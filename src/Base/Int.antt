-- ===== src/Base/Int.antt =====
-- Go's signed integers, over the native numbers. Sums and orders go through the two parts of an
-- integer, which are numbers; `wrap64` is the wrap-around of int64.
use cmt_top.Base.{
  ℕ, suc, ◌+◌, ◌-◌, ◌*◌, ◌/◌, ◌%◌, ◌≤◌, ◌<◌, ◌≡◌, ◌↔◌, refl, Bool, true, arith, Comparable,
  if◌then◌else◌,
}
use cmt_top.Base.{ltb as nat_ltb, leb as nat_leb, nat_eqb}

-- `negsuc n` is -(n + 1).
pub data ℤ : Type 0 where
  pos : ℕ → ℤ
  negsuc : ℕ → ℤ

abbrev pub pos_part : ℤ → ℕ
pos_part (pos n) = n
pos_part (negsuc n) = 0

abbrev pub neg_part : ℤ → ℕ
neg_part (pos n) = 0
neg_part (negsuc n) = suc n

-- a - b, as an integer.
abbrev pub sub_ℕ : ℕ → ℕ → ℤ
sub_ℕ a b = if nat_leb b a then pos (a - b) else negsuc (b - a - 1)

infixl 65 ◌+ℤ◌ ◌-ℤ◌
infixl 70 ◌*ℤ◌
infix 50 ◌≤ℤ◌ ◌<ℤ◌
unfoldable pub ◌+ℤ◌ : ℤ → ℤ → ℤ
a +ℤ b = sub_ℕ (pos_part a + pos_part b) (neg_part a + neg_part b)

unfoldable pub ◌-ℤ◌ : ℤ → ℤ → ℤ
a -ℤ b = sub_ℕ (pos_part a + neg_part b) (neg_part a + pos_part b)

unfoldable pub ◌*ℤ◌ : ℤ → ℤ → ℤ
a *ℤ b =
    sub_ℕ (pos_part a * pos_part b + neg_part a * neg_part b)
      (pos_part a * neg_part b + neg_part a * pos_part b)

abbrev pub ◌≤ℤ◌ : ℤ → ℤ → Type 0
a ≤ℤ b = pos_part a + neg_part b ≤ pos_part b + neg_part a

abbrev pub ◌<ℤ◌ : ℤ → ℤ → Type 0
a <ℤ b = pos_part a + neg_part b < pos_part b + neg_part a

abbrev pub ltb : ℤ → ℤ → Bool
ltb a b = nat_ltb (pos_part a + neg_part b) (pos_part b + neg_part a)

abbrev pub leb : ℤ → ℤ → Bool
leb a b = nat_leb (pos_part a + neg_part b) (pos_part b + neg_part a)

abbrev pub eqb : ℤ → ℤ → Bool
eqb a b = nat_eqb (pos_part a + neg_part b) (pos_part b + neg_part a)

pub eq_of_parts : (a b : ℤ) → pos_part a + neg_part b ≡ pos_part b + neg_part a → a ≡ b
eq_of_parts a b h = ground arith

pub eqb_iff : (a b : ℤ) → (eqb a b ≡ true) ↔ (a ≡ b)
eqb_iff a b = ((λ h. eq_of_parts a b (ground arith)), λ e. ground arith)

pub eqb_refl : (a : ℤ) → eqb a a ≡ true
eqb_refl a = ground arith

instance abbrev pub ℤ_eq : Comparable ℤ
ℤ_eq = record { equals = eqb; decides = eqb_iff }

pub +ℤ_parts :
    (a b : ℤ)
    → pos_part (a +ℤ b) + neg_part a + neg_part b ≡ neg_part (a +ℤ b) + pos_part a + pos_part b
unfolding ◌+ℤ◌
+ℤ_parts a b = ground arith

pub -ℤ_parts :
    (a b : ℤ)
    → pos_part (a -ℤ b) + neg_part a + pos_part b ≡ neg_part (a -ℤ b) + pos_part a + neg_part b
unfolding ◌-ℤ◌
-ℤ_parts a b = ground arith

abbrev pub max_int64 : ℤ
max_int64 = pos 9223372036854775807

abbrev pub min_int64 : ℤ
min_int64 = negsuc 9223372036854775807

abbrev pub max_int32 : ℤ
max_int32 = pos 2147483647

-- The int64 that stands for a machine word.
abbrev pub of_word64 : ℕ → ℤ
of_word64 w = if nat_ltb w 9223372036854775808 then pos w else negsuc (18446744073709551615 - w)

-- What is left of an integer in an int64.
unfoldable pub wrap64 : ℤ → ℤ
wrap64 (pos n) = of_word64 (n % 18446744073709551616)
wrap64 (negsuc n) = of_word64 (18446744073709551615 - n % 18446744073709551616)

unfoldable pub add64 : ℤ → ℤ → ℤ
add64 a b = wrap64 (a +ℤ b)

unfoldable pub sub64 : ℤ → ℤ → ℤ
sub64 a b = wrap64 (a -ℤ b)

pub wrap64_lem : (a : ℤ) → min_int64 ≤ℤ a → a ≤ℤ max_int64 → wrap64 a ≡ a
unfolding wrap64
wrap64_lem (pos n) h k = ground arith
wrap64_lem (negsuc n) h k = ground arith

wrap64_over : wrap64 (pos 9223372036854775808) ≡ min_int64
unfolding wrap64
wrap64_over = refl

pub add64_lem : (a b : ℤ) → min_int64 ≤ℤ a +ℤ b → a +ℤ b ≤ℤ max_int64 → add64 a b ≡ a +ℤ b
unfolding add64
add64_lem a b h k = wrap64_lem (a +ℤ b) h k

pub sub64_lem : (a b : ℤ) → min_int64 ≤ℤ a -ℤ b → a -ℤ b ≤ℤ max_int64 → sub64 a b ≡ a -ℤ b
unfolding sub64
sub64_lem a b h k = wrap64_lem (a -ℤ b) h k

-- Go's `a / n` for a positive `n`: towards zero.
unfoldable pub quot : ℤ → ℕ → ℤ
quot (pos a) n = pos (a / n)
quot (negsuc a) n = sub_ℕ 0 (suc a / n)

-- A counter of type uint64.
unfoldable pub next64 : ℕ → ℕ
next64 n = (n + 1) % 18446744073709551616

-- Sums regrouped.
pub +ℤ_assoc : (a b c : ℤ) → (a +ℤ b) +ℤ c ≡ a +ℤ (b +ℤ c)
+ℤ_assoc a b c =
    eq_of_parts ((a +ℤ b) +ℤ c) (a +ℤ (b +ℤ c))
      (omega (arith, +ℤ_parts a b, +ℤ_parts (a +ℤ b) c, +ℤ_parts b c, +ℤ_parts a (b +ℤ c)))

pub +ℤ_swap : (a b c : ℤ) → a +ℤ (b +ℤ c) ≡ b +ℤ (a +ℤ c)
+ℤ_swap a b c =
    eq_of_parts (a +ℤ (b +ℤ c)) (b +ℤ (a +ℤ c))
      (omega (arith, +ℤ_parts b c, +ℤ_parts a (b +ℤ c), +ℤ_parts a c, +ℤ_parts b (a +ℤ c)))

pub pos_zero_+ℤ : (a : ℤ) → pos 0 +ℤ a ≡ a
pos_zero_+ℤ a = eq_of_parts (pos 0 +ℤ a) a (omega (arith, +ℤ_parts (pos 0) a))
