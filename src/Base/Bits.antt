-- ===== src/Base/Bits.antt =====
-- `a ^ b` is 0 exactly for equal words: the test by which C code compares keys.
use Prim.Native.Nat.{
  ℕ, zero, suc, ◌/◌, ◌%◌, ◌≤◌, min, bit_and, bit_or, bit_xor, digits, differ, bit_and-bitwise,
  bit_or-bitwise, bit_xor-bitwise,
}
use mathlib.Core.Path.{◌≡◌, refl, sym, ap, ◌∙◌}
use native.Mathlib.Omega.{arith}

abbrev xor_digits : ℕ → ℕ → ℕ → ℕ
xor_digits n a b = digits (λ b. b) differ n a b

eq_of_differ : (x y : ℕ) → differ x y ≡ 0 → x ≡ y
eq_of_differ zero y h = sym h
eq_of_differ (suc x) zero h = omega arith
eq_of_differ (suc x) (suc y) h = ap suc (eq_of_differ x y h)

differ_self : (x : ℕ) → differ x x ≡ 0
differ_self zero = refl
differ_self (suc x) = differ_self x

eq_of_xor_digits : (n a b : ℕ) → a ≤ n → xor_digits n a b ≡ 0 → a ≡ b
eq_of_xor_digits zero zero b p h = sym h
eq_of_xor_digits zero (suc a) b p h = absurd (omega arith)
eq_of_xor_digits (suc n) zero b p h = sym h
eq_of_xor_digits (suc n) (suc a) b p h = omega (
  arith,
  eq_of_xor_digits n (suc a / 2) (b / 2) (omega arith) (omega arith),
  eq_of_differ (suc a % 2) (b % 2) (omega arith),
)

xor_digits_self : (n a : ℕ) → a ≤ n → xor_digits n a a ≡ 0
xor_digits_self zero zero p = refl
xor_digits_self zero (suc a) p = absurd (omega arith)
xor_digits_self (suc n) zero p = refl
xor_digits_self (suc n) (suc a) p =
    omega (arith, xor_digits_self n (suc a / 2) (omega arith), differ_self (suc a % 2))

pub eq_of_bit_xor : (a b : ℕ) → bit_xor a b ≡ 0 → a ≡ b
eq_of_bit_xor a b h = eq_of_xor_digits a a b (omega arith) (sym (bit_xor-bitwise a b) ∙ h)

pub bit_xor_self : (a : ℕ) → bit_xor a a ≡ 0
bit_xor_self a = bit_xor-bitwise a a ∙ xor_digits_self a a (omega arith)

and_digits-zero : (n a : ℕ) → digits (λ b. zero) min n a 0 ≡ 0
and_digits-zero zero a = refl
and_digits-zero (suc n) zero = refl
and_digits-zero (suc n) (suc a) = omega (arith, and_digits-zero n (suc a / 2))

pub bit_and-one : (a : ℕ) → bit_and a 1 ≡ a % 2
bit_and-one zero = refl
bit_and-one (suc a) = omega (arith, bit_and-bitwise (suc a) 1, and_digits-zero a (suc a / 2))

-- After `a |= 1` the lowest bit is set.
pub bit_or-one : (a : ℕ) → bit_or a 1 % 2 ≡ 1
bit_or-one zero = refl
bit_or-one (suc a) = omega (arith, bit_or-bitwise (suc a) 1)
