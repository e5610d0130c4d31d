-- ===== src/Eeprom/Wire.antt =====
-- kmod/ixmap_eeprom.c: the bits on the wire to the EEPROM are the digits of the word.
use ixmap.Base.{
  ℕ, zero, suc, ◌+◌, ◌-◌, ◌*◌, ◌/◌, ◌%◌, ◌^◌, ◌≤◌, ◌<◌, ◌≡◌, ◌⊎◌, inl, inr, refl, sym, ap, ◌∙◌,
  List, [], ◌∷◌, map, true, false, ◌==◌, ◌&&◌, if◌then◌else◌, arith, bit_and, bit_or, bit, bit_le,
  bit-bit_and, bit-bit_or, bit-shift_right, bit_and-pow-test, bit_or-low, length,
}
use native.Mathlib.Nat.{pow-suc, div-div-eq-div-mul, div-eq_of_lt, pow-le-pow_right}
use ixmap.Hw.{clear_bits}
use ixmap.Eeprom.Serial.{
  eec_sk, eec_di, eec_do, ixmap_raise_eeprom_clk, ixmap_lower_eeprom_clk, shift_out_loop,
  ixmap_shift_out_eeprom_bits, shift_in_loop, ixmap_shift_in_eeprom_bits,
}

-- What the EEPROM sees of the writes: DI whenever SK goes from 0, or `clock`, to 1.
unfoldable pub sampled : ℕ → List ℕ → List ℕ
sampled clock [] = []
sampled clock (eec ∷ writes) =
    if clock == 0 && bit eec 0 == 1
    then bit eec 2 ∷ sampled (bit eec 0) writes
    else sampled (bit eec 0) writes

-- The last `n` digits, the highest first.
abbrev pub digits_down : ℕ → ℕ → List ℕ
digits_down word zero = []
digits_down word (suc n) = bit word n ∷ digits_down word n

bit_cases : (a i : ℕ) → (bit a i ≡ 0) ⊎ (bit a i ≡ 1)
bit_cases a i = ground (arith, bit_le a i)

-- The register with the next digit at DI: the clock is as before.
abbrev digit_set : ℕ → ℕ → ℕ → ℕ
digit_set word mask eec =
    if bit_and word mask == 0 then clear_bits eec eec_di else bit_or eec eec_di

digit_set-bits :
    (word n eec : ℕ)
    → (bit (digit_set word (2 ^ n) eec) 0 ≡ bit eec 0)
      × (bit (digit_set word (2 ^ n) eec) 2 ≡ bit word n)
digit_set-bits word n eec = elim (bit_cases word n) [
  | inl e ↦
      let test : (bit_and word (2 ^ n) == 0) ≡ true = bit_and-pow-test word n ∙ rw e refl in
      rw (test, e)
        (
          bit-bit_and eec 0xffff_fffb 0 ∙ omega (arith, bit_le eec 0),
          bit-bit_and eec 0xffff_fffb 2 ∙ omega arith,
        )
  | inr e ↦
      let test : (bit_and word (2 ^ n) == 0) ≡ false = bit_and-pow-test word n ∙ rw e refl in
      rw (test, e)
        (
          bit-bit_or eec eec_di 0 ∙ omega arith,
          bit-bit_or eec eec_di 2 ∙ omega (arith, bit_le eec 2),
        )
]

raised_bits :
    (eec : ℕ)
    → (bit (ixmap_raise_eeprom_clk eec) 0 ≡ 1) × (bit (ixmap_raise_eeprom_clk eec) 2 ≡ bit eec 2)
raised_bits eec =
    (bit-bit_or eec eec_sk 0 ∙ omega (arith, bit_le eec 0), bit-bit_or eec eec_sk 2 ∙ omega arith)

lowered_bit : (eec : ℕ) → bit (ixmap_lower_eeprom_clk eec) 0 ≡ 0
lowered_bit eec = bit-bit_and eec 0xffff_fffe 0 ∙ omega arith

-- Three writes show one digit.
sampled-digit :
    (set raised lowered : ℕ) (writes : List ℕ)
    → bit set 0 ≡ 0
    → bit raised 0 ≡ 1
    → bit lowered 0 ≡ 0
    → sampled 0 (set ∷ raised ∷ lowered ∷ writes) ≡ bit raised 2 ∷ sampled 0 writes
unfolding sampled
sampled-digit set raised lowered writes a b c = rw (a, b, c) refl

half_mask : (n : ℕ) → 2 ^ suc n / 2 ≡ 2 ^ n
half_mask n = omega (arith, pow-suc 2 n)

-- One round of the loop.
shift_out_loop-digit :
    (word n eec : ℕ) (rest : List ℕ)
    → bit eec 0 ≡ 0
    → let set = digit_set word (2 ^ n) eec in
      let raised = ixmap_raise_eeprom_clk set in
      sampled 0 (set ∷ raised ∷ ixmap_lower_eeprom_clk raised ∷ rest) ≡ bit word n ∷ sampled 0 rest
shift_out_loop-digit word n eec rest low =
    let set = digit_set word (2 ^ n) eec in
    let raised = ixmap_raise_eeprom_clk set in
    let (clock, digit) = digit_set-bits word n eec in
    let (up, kept) = raised_bits set in
    sampled-digit set raised (ixmap_lower_eeprom_clk raised) rest (clock ∙ low) up
      (lowered_bit raised)
    ∙ ap (λ b. b ∷ sampled 0 rest) (kept ∙ digit)

sampled-last : (eec : ℕ) → bit eec 0 ≡ 0 → sampled 0 (clear_bits eec eec_di ∷ []) ≡ []
unfolding sampled
sampled-last eec low =
    let clear : bit (clear_bits eec eec_di) 0 ≡ 0 =
      bit-bit_and eec 0xffff_fffb 0 ∙ omega (arith, low) in
    rw clear refl

shift_out_loop-sampled :
    (word n mask eec : ℕ)
    → bit eec 0 ≡ 0
    → mask ≡ 2 ^ n / 2
    → sampled 0 (shift_out_loop word n mask eec) ≡ digits_down word n
unfolding shift_out_loop
shift_out_loop-sampled word zero mask eec low e = sampled-last eec low
shift_out_loop-sampled word (suc n) mask eec low e =
    let place : mask ≡ 2 ^ n = e ∙ half_mask n in
    let set = digit_set word (2 ^ n) eec in
    let lowered = ixmap_lower_eeprom_clk (ixmap_raise_eeprom_clk set) in
    rw place (
      shift_out_loop-digit word n eec (shift_out_loop word n (2 ^ n / 2) lowered) low
      ∙ ap (λ bits. bit word n ∷ bits)
          (shift_out_loop-sampled word n (2 ^ n / 2) lowered
            (lowered_bit (ixmap_raise_eeprom_clk set)) refl))

-- Bits put together, the highest first.
abbrev from_bits : ℕ → List ℕ → ℕ
from_bits acc [] = acc
from_bits acc (b ∷ bits) = from_bits (acc * 2 + b) bits

from_bits-digits_down : (word n : ℕ) → from_bits (word / 2 ^ n) (digits_down word n) ≡ word
from_bits-digits_down word zero = omega arith
from_bits-digits_down word (suc n) =
    let plain : n + 0 ≡ n = omega arith in
    let digit : bit word n ≡ word / 2 ^ n % 2 =
      sym (ap (bit word) plain) ∙ sym (bit-shift_right word n 0) in
    let half : word / 2 ^ suc n ≡ word / 2 ^ n / 2 =
      ap (λ d. word / d) (pow-suc 2 n) ∙ sym (div-div-eq-div-mul word (2 ^ n) 2) in
    let up : word / 2 ^ suc n * 2 + bit word n ≡ word / 2 ^ n = omega (arith, half, digit) in
    ap (λ a. from_bits a (digits_down word n)) up ∙ from_bits-digits_down word n

-- What one answer of the register adds to the word.
abbrev shifted : ℕ → ℕ → ℕ
shifted acc value =
    if bit_and (clear_bits value eec_di) eec_do == 0
    then acc * 2 % 2 ^ 16
    else bit_or (acc * 2 % 2 ^ 16) 1

shifted_lem : (acc value : ℕ) → acc < 2 ^ 15 → shifted acc value ≡ acc * 2 + bit value 3
shifted_lem acc value h =
    let kept : bit (clear_bits value eec_di) 3 ≡ bit value 3 =
      bit-bit_and value 0xffff_fffb 3 ∙ omega (arith, bit_le value 3) in
    let test : (bit_and (clear_bits value eec_di) eec_do == 0) ≡ (bit value 3 == 0) =
      bit_and-pow-test (clear_bits value eec_di) 3 ∙ ap (λ b. b == 0) kept in
    let small : acc * 2 % 2 ^ 16 ≡ acc * 2 ^ 1 = omega arith in
    elim (bit_cases value 3) [
      | inl e ↦ rw (test, e, small) (omega arith)
      | inr e ↦ rw (test, e, small) (bit_or-low 1 acc 1 (omega arith) ∙ omega arith)
    ]

-- The words fit as long as there are at most 16 bits.
shift_in_loop-from_bits :
    (reads : List ℕ) (eec acc k : ℕ)
    → acc < 2 ^ k
    → k + length reads ≤ 16
    → (shift_in_loop (length reads) reads eec acc).0 ≡ from_bits acc (map (λ v. bit v 3) reads)
unfolding shift_in_loop
shift_in_loop-from_bits [] eec acc k h few = refl
shift_in_loop-from_bits (value ∷ reads) eec acc k h few =
    let room : 2 ^ k ≤ 2 ^ 15 =
      pow-le-pow_right {n = 2} (omega arith) {i = k} {j = 15} (omega arith) in
    let small : acc < 2 ^ 15 = omega (arith, room) in
    ap
      (λ a.
        (shift_in_loop (length reads) reads (ixmap_lower_eeprom_clk (clear_bits value eec_di)) a).0)
      (shifted_lem acc value small)
    ∙ shift_in_loop-from_bits reads (ixmap_lower_eeprom_clk (clear_bits value eec_di))
        (acc * 2 + bit value 3) (suc k) (omega (arith, bit_le value 3, pow-suc 2 k)) (omega arith)

shift_out-digits :
    (word count eec : ℕ)
    → bit eec 0 ≡ 0
    → sampled 0 (shift_out_loop word count (2 ^ (count - 1)) eec) ≡ digits_down word count
unfolding shift_out_loop
shift_out-digits word zero eec low = sampled-last eec low
shift_out-digits word (suc n) eec low =
    let place : suc n - 1 ≡ n = omega arith in
    ap (λ i. sampled 0 (shift_out_loop word (suc n) (2 ^ i) eec)) place
    ∙ shift_out_loop-sampled word (suc n) (2 ^ n) eec low (sym (half_mask n))

-- A word that has no more digits, from all of them.
from_bits-all : (word count : ℕ) → word < 2 ^ count → from_bits 0 (digits_down word count) ≡ word
from_bits-all word count fits =
    let none_above : word / 2 ^ count ≡ 0 = div-eq_of_lt fits in
    sym (ap (λ a. from_bits a (digits_down word count)) none_above)
    ∙ from_bits-digits_down word count

-- With the clock low, ixmap_shift_out_eeprom_bits shows the EEPROM the last `count` digits of a word,
-- the highest first. If the register then answers with as many values whose DO bits are these
-- digits, at most 16, ixmap_shift_in_eeprom_bits returns the word, if it has no more digits.
pub ixmap_shift_in_eeprom_bits-sampled :
    (word count eec eec' : ℕ) (reads : List ℕ)
    → bit eec 0 ≡ 0
    → word < 2 ^ count
    → count ≤ 16
    → length reads ≡ count
    → map (λ v. bit v 3) reads ≡ sampled 0 (ixmap_shift_out_eeprom_bits word count eec)
    → (sampled 0 (ixmap_shift_out_eeprom_bits word count eec) ≡ digits_down word count)
      × ((ixmap_shift_in_eeprom_bits count reads eec').0 ≡ word)
unfolding ixmap_shift_out_eeprom_bits ixmap_shift_in_eeprom_bits
ixmap_shift_in_eeprom_bits-sampled word count eec eec' reads low fits few len answers =
    let shown = shift_out-digits word count eec low in
    let start = clear_bits eec' (bit_or eec_do eec_di) in
    let rounds : (shift_in_loop count reads start 0).0
        ≡ (shift_in_loop (length reads) reads start 0).0 =
      sym (ap (λ n. (shift_in_loop n reads start 0).0) len) in
    (
      shown,
      rounds
          ∙ shift_in_loop-from_bits reads start 0 0 (omega arith) (omega arith)
          ∙ ap (from_bits 0) (answers ∙ shown)
          ∙ from_bits-all word count fits,
    )
