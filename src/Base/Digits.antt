-- ===== src/Base/Digits.antt =====
-- The binary digits of a word, and how `&`, `|`, `<<` and `>>` act on them.
use Prim.Native.Nat.{
  ℕ, zero, suc, ◌+◌, ◌-◌, ◌*◌, ◌/◌, ◌%◌, ◌^◌, ◌≤◌, ◌<◌, min, max, bit_and, bit_or, digits,
  bit_and-bitwise, bit_or-bitwise,
}
use mathlib.Core.Path.{◌≡◌, refl, sym, ap, ◌∙◌}
use native.Mathlib.Nat.{div-div-eq-div-mul, pow-suc, pow-succ', mul_assoc}
use mathlib.Core.Logic.{◌⊎◌, inl, inr}
use native.Mathlib.Omega.{arith}
use ixmap.Base.Tests.{◌==◌, if◌then◌else◌}

-- Digit `i` of `a`.
abbrev pub bit : ℕ → ℕ → ℕ
bit a zero = a % 2
bit a (suc i) = bit (a / 2) i

pub bit_le : (a i : ℕ) → bit a i ≤ 1
bit_le a zero = omega arith
bit_le a (suc i) = bit_le (a / 2) i

pub zero-bit : (i : ℕ) → bit 0 i ≡ 0
zero-bit zero = refl
zero-bit (suc i) = zero-bit i

-- A native operation on digits acts on each digit by itself.
module _ (op : ℕ → ℕ → ℕ) (rest : ℕ → ℕ) (bit-rest : (b i : ℕ) → bit (rest b) i ≡ op 0 (bit b i))
    (op_le : (x y : ℕ) → x ≤ 1 → y ≤ 1 → op x y ≤ 1) where
  bit-digits : (n a b i : ℕ) → a ≤ n → bit (digits rest op n a b) i ≡ op (bit a i) (bit b i)
  bit-digits zero a b i p =
      let none_left : a ≡ 0 = omega arith in rw (none_left, zero-bit i) (bit-rest b i)
  bit-digits (suc n) zero b i p = rw (zero-bit i) (bit-rest b i)
  bit-digits (suc n) (suc a) b zero p =
      omega (arith, op_le (suc a % 2) (b % 2) (omega arith) (omega arith))
  bit-digits (suc n) (suc a) b (suc i) p =
      let above = digits rest op n (suc a / 2) (b / 2) in
      let half : (above * 2 + op (suc a % 2) (b % 2)) / 2 ≡ above =
        omega (arith, op_le (suc a % 2) (b % 2) (omega arith) (omega arith)) in
      ap (λ x. bit x i) half ∙ bit-digits n (suc a / 2) (b / 2) i (omega arith)

pub bit-bit_and : (a b i : ℕ) → bit (bit_and a b) i ≡ min (bit a i) (bit b i)
bit-bit_and a b i =
    ap (λ x. bit x i) (bit_and-bitwise a b)
    ∙ bit-digits min (λ b. 0) (λ b i. omega (arith, zero-bit i)) (λ x y p q. omega arith) a a b i
        (omega arith)

pub bit-bit_or : (a b i : ℕ) → bit (bit_or a b) i ≡ max (bit a i) (bit b i)
bit-bit_or a b i =
    ap (λ x. bit x i) (bit_or-bitwise a b)
    ∙ bit-digits max (λ b. b) (λ b i. omega arith) (λ x y p q. omega arith) a a b i (omega arith)

-- Numbers with the same digits are equal.
eq_of_bits_fuel : (n a b : ℕ) → a + b ≤ n → ((i : ℕ) → bit a i ≡ bit b i) → a ≡ b
eq_of_bits_fuel zero a b h same = omega arith
eq_of_bits_fuel (suc n) zero zero h same = refl
eq_of_bits_fuel (suc n) zero (suc b) h same =
    omega (arith, same 0, eq_of_bits_fuel n 0 (suc b / 2) (omega arith) (λ i. same (suc i)))
eq_of_bits_fuel (suc n) (suc a) b h same =
    omega (arith, same 0, eq_of_bits_fuel n (suc a / 2) (b / 2) (omega arith) (λ i. same (suc i)))

pub eq_of_bits : (a b : ℕ) → ((i : ℕ) → bit a i ≡ bit b i) → a ≡ b
eq_of_bits a b same = eq_of_bits_fuel (a + b) a b (omega arith) same

half_pow : (a k : ℕ) → a / 2 ^ suc k ≡ a / 2 / 2 ^ k
half_pow a k = ap (λ n. a / n) (pow-succ' 2 k) ∙ sym (div-div-eq-div-mul a 2 (2 ^ k))

twice_pow : (a k : ℕ) → a * 2 ^ suc k ≡ a * 2 ^ k * 2
twice_pow a k = ap (λ n. a * n) (pow-suc 2 k) ∙ sym (mul_assoc a (2 ^ k) 2)

half_twice : (a k : ℕ) → a * 2 ^ suc k / 2 ≡ a * 2 ^ k
half_twice a k = omega (arith, twice_pow a k)

-- `a >> k`.
pub bit-shift_right : (a k i : ℕ) → bit (a / 2 ^ k) i ≡ bit a (k + i)
bit-shift_right a zero i =
    let whole : a / 1 ≡ a = omega arith in
    let plain : 0 + i ≡ i = omega arith in rw (whole, plain) refl
bit-shift_right a (suc k) i =
    let next : suc k + i ≡ suc (k + i) = omega arith in
    rw (next, half_pow a k) (bit-shift_right (a / 2) k i)

-- `a << k`.
pub bit-shift_left : (a k i : ℕ) → bit (a * 2 ^ k) (k + i) ≡ bit a i
bit-shift_left a zero i =
    let whole : a * 1 ≡ a = omega arith in
    let plain : 0 + i ≡ i = omega arith in rw (whole, plain) refl
bit-shift_left a (suc k) i =
    let next : suc k + i ≡ suc (k + i) = omega arith in
    rw next (ap (λ x. bit x (k + i)) (half_twice a k) ∙ bit-shift_left a k i)

pub bit-shift_left_low : (a k i : ℕ) → i < k → bit (a * 2 ^ k) i ≡ 0
bit-shift_left_low a zero i h = elim h [ ]
bit-shift_left_low a (suc k) zero h = omega (arith, twice_pow a k)
bit-shift_left_low a (suc k) (suc i) h =
    ap (λ x. bit x i) (half_twice a k) ∙ bit-shift_left_low a k i (omega arith)

pub bit_high : (a k i : ℕ) → a < 2 ^ k → k ≤ i → bit a i ≡ 0
bit_high a zero i h p = let none_left : a ≡ 0 = omega arith in rw none_left (zero-bit i)
bit_high a (suc k) zero h p = absurd (omega arith)
bit_high a (suc k) (suc i) h p = bit_high (a / 2) k i (omega (arith, twice_pow 1 k)) (omega arith)

-- A mask of one digit.
pub bit-pow : (k i : ℕ) → bit (2 ^ k) i ≡ (if i == k then 1 else 0)
bit-pow zero zero = refl
bit-pow zero (suc i) = zero-bit i ∙ ground arith
bit-pow (suc k) zero = ground (arith, pow-suc 2 k)
bit-pow (suc k) (suc i) =
    let half : 2 ^ suc k / 2 ≡ 2 ^ k = omega (arith, pow-suc 2 k) in
    ap (λ x. bit x i) half ∙ bit-pow k i ∙ ground arith

-- What `~` leaves of a word of `w` digits.
pub bit_complement : (w x i : ℕ) → x < 2 ^ w → i < w → bit (2 ^ w - 1 - x) i ≡ 1 - bit x i
bit_complement zero x i h p = elim p [ ]
bit_complement (suc w) x zero h p = omega (arith, pow-suc 2 w)
bit_complement (suc w) x (suc i) h p =
    let half : (2 ^ suc w - 1 - x) / 2 ≡ 2 ^ w - 1 - x / 2 = omega (arith, pow-suc 2 w) in
    ap (λ y. bit y i) half ∙ bit_complement w (x / 2) i (omega (arith, pow-suc 2 w)) (omega arith)

bit_cases : (a i : ℕ) → (bit a i ≡ 0) ⊎ (bit a i ≡ 1)
bit_cases a i = ground (arith, bit_le a i)

pow_pos : (k : ℕ) → 0 < 2 ^ k
pow_pos zero = omega arith
pow_pos (suc k) = omega (arith, pow_pos k, pow-suc 2 k)

-- `a & (1 << k)` is the digit, in its place.
pub bit_and-pow : (a k : ℕ) → bit_and a (2 ^ k) ≡ bit a k * 2 ^ k
bit_and-pow a k = eq_of_bits _ _ λ i. bit-bit_and a (2 ^ k) i ∙ (elim (bit_cases a k) [
  | inl e ↦
      let nothing : 0 * 2 ^ k ≡ 0 = omega arith in
      rw (e, nothing, zero-bit i) (ground (arith, bit-pow k i, e, bit_le a i))
  | inr e ↦
      let whole : 1 * 2 ^ k ≡ 2 ^ k = omega arith in
      rw (e, whole, bit-pow k i) (ground (arith, e, bit_le a i))
])

-- The test of one digit.
pub bit_and-pow-test : (a k : ℕ) → (bit_and a (2 ^ k) == 0) ≡ (bit a k == 0)
bit_and-pow-test a k = elim (bit_cases a k) [
  | inl e ↦ rw (bit_and-pow a k, e) (ground arith)
  | inr e ↦ rw (bit_and-pow a k, e) (ground (arith, pow_pos k))
]

-- `|` by halves, and of words whose digits stand apart.
bit_or-half : (a b : ℕ) → bit_or a b / 2 ≡ bit_or (a / 2) (b / 2)
bit_or-half a b = eq_of_bits _ _ λ i. bit-bit_or a b (suc i) ∙ sym (bit-bit_or (a / 2) (b / 2) i)

bit_or-zero : (a : ℕ) → bit_or a 0 ≡ a
bit_or-zero a = eq_of_bits _ _ λ i. bit-bit_or a 0 i ∙ omega (arith, zero-bit i)

pub bit_or-low : (k x y : ℕ) → y < 2 ^ k → bit_or (x * 2 ^ k) y ≡ x * 2 ^ k + y
bit_or-low zero x y h =
    let none_low : y ≡ 0 = omega arith in rw none_low (omega (arith, bit_or-zero (x * 1)))
bit_or-low (suc k) x y h =
    let below = bit_or-low k x (y / 2) (omega (arith, pow-suc 2 k)) in
    let half = bit_or-half (x * 2 ^ suc k) y ∙ ap (λ a. bit_or a (y / 2)) (half_twice x k) in
    omega (arith, half, below, bit-bit_or (x * 2 ^ suc k) y 0, twice_pow x k)

bit_and-zero : (a : ℕ) → bit_and a 0 ≡ 0
bit_and-zero a = eq_of_bits _ _ λ i. bit-bit_and a 0 i ∙ omega (arith, zero-bit i)

bit_and-half : (a b : ℕ) → bit_and a b / 2 ≡ bit_and (a / 2) (b / 2)
bit_and-half a b = eq_of_bits _ _ λ i. bit-bit_and a b (suc i) ∙ sym (bit-bit_and (a / 2) (b / 2) i)

pub bit_and-three : (a : ℕ) → bit_and a 3 ≡ a % 4
bit_and-three a = omega (
  arith,
  bit_and-half a 3,
  bit-bit_and a 3 0,
  bit-bit_and (a / 2) 1 0,
  bit_and-half (a / 2) 1,
  bit_and-half (a / 2 / 2) 0,
  bit_and-zero (a / 2 / 2),
)

pub bit_and-fifteen : (a : ℕ) → bit_and a 15 ≡ a % 16
bit_and-fifteen a = omega (
  arith,
  bit_and-half a 15,
  bit-bit_and a 15 0,
  bit-bit_and (a / 2) 7 0,
  bit_and-half (a / 2) 7,
  bit_and-three (a / 2 / 2),
)

pub bit_and-byte : (a : ℕ) → bit_and a 255 ≡ a % 256
bit_and-byte a = omega (
  arith,
  bit_and-half a 255,
  bit-bit_and a 255 0,
  bit-bit_and (a / 2) 127 0,
  bit_and-half (a / 2) 127,
  bit-bit_and (a / 2 / 2) 63 0,
  bit_and-half (a / 2 / 2) 63,
  bit-bit_and (a / 2 / 2 / 2) 31 0,
  bit_and-half (a / 2 / 2 / 2) 31,
  bit_and-fifteen (a / 2 / 2 / 2 / 2),
)
