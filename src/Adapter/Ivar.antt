-- ===== src/Adapter/Ivar.antt =====
-- ixmap_set_ivar of kmod/ixmap_main.c: one byte of an interrupt vector register.
use ixmap.Base.{
  ℕ, zero, suc, ◌+◌, ◌-◌, ◌*◌, ◌/◌, ◌%◌, ◌^◌, ◌≤◌, ◌<◌, ◌≡◌, ◌≢◌, refl, ap, ◌∙◌, arith, bit_or, ltb,
  leb, ◌==◌, if◌then◌else◌, ◌&&◌, bit, bit_le, bit-bit_and, bit-bit_or, zero-bit, bit-shift_left,
  bit-shift_left_low, bit_high, bit_complement, ==_iff, Bool-cases, inl, inr, true,
}
use ixmap.Hw.{Regs, clear_bits, reg_ivar}
use ixmap.Adapter.{ixmap_set_ivar}

-- Digit `i` of `x << k`.
bit-shifted : (x k i : ℕ) → bit (x * 2 ^ k) i ≡ (if leb k i then bit x (i - k) else 0)
bit-shifted x k i = elim (Bool-cases (leb k i)) [
  | inl above ↦
      let place : i ≡ k + (i - k) = ground arith in
      rw above (ap (bit (x * 2 ^ k)) place ∙ bit-shift_left x k (i - k))
  | inr below ↦ rw below (bit-shift_left_low x k i (ground arith))
]

-- The digits of 0xff.
bit-byte_mask : (i : ℕ) → bit 0xff i ≡ (if ltb i 8 then 1 else 0)
bit-byte_mask zero = refl
bit-byte_mask (suc zero) = refl
bit-byte_mask (suc (suc zero)) = refl
bit-byte_mask (suc (suc (suc zero))) = refl
bit-byte_mask (suc (suc (suc (suc zero)))) = refl
bit-byte_mask (suc (suc (suc (suc (suc zero))))) = refl
bit-byte_mask (suc (suc (suc (suc (suc (suc zero)))))) = refl
bit-byte_mask (suc (suc (suc (suc (suc (suc (suc zero))))))) = refl
bit-byte_mask (suc (suc (suc (suc (suc (suc (suc (suc i)))))))) = zero-bit i ∙ ground arith

-- The byte of a word at digit `k` replaced by `x`.
bit-put_byte :
    (old x k i : ℕ)
    → 0xff * 2 ^ k < 2 ^ 32
    → (8 ≤ i - k → bit x (i - k) ≡ 0)
    → i < 32
    → bit (bit_or (clear_bits old (0xff * 2 ^ k % 2 ^ 32)) (x * 2 ^ k)) i
      ≡ (if leb k i && ltb i (k + 8) then bit x (i - k) else bit old i)
bit-put_byte old x k i m b h =
    let small : 0xff * 2 ^ k % 2 ^ 32 ≡ 0xff * 2 ^ k = omega arith in
    let mask = bit_complement 32 (0xff * 2 ^ k) i m h in
    rw
      (
        bit-bit_or (clear_bits old (0xff * 2 ^ k % 2 ^ 32)) (x * 2 ^ k) i,
        small,
        bit-bit_and old (2 ^ 32 - 1 - 0xff * 2 ^ k) i,
        mask,
        bit-shifted 0xff k i,
        bit-byte_mask (i - k),
        bit-shifted x k i,
      )
      (ground (arith, bit_le old i, bit_le x (i - k), b))

index_fits :
    (p direction : ℕ) → p < 2 → direction ≤ 1 → 0xff * 2 ^ (16 * p + 8 * direction) < 2 ^ 32
index_fits zero zero h h' = omega arith
index_fits zero (suc zero) h h' = omega arith
index_fits zero (suc (suc d)) h h' = absurd (omega arith)
index_fits (suc zero) zero h h' = omega arith
index_fits (suc zero) (suc zero) h h' = omega arith
index_fits (suc zero) (suc (suc d)) h h' = absurd (omega arith)
index_fits (suc (suc p)) d h h' = absurd (omega arith)

-- Nothing stands above the byte.
bit-valid_vector : (vector j : ℕ) → 8 ≤ j → bit (bit_or (vector % 2 ^ 8) 0x80) j ≡ 0
bit-valid_vector vector j h = ground (
  arith,
  bit-bit_or (vector % 2 ^ 8) 0x80 j,
  bit_high (vector % 2 ^ 8) 8 j (omega arith) h,
  bit_high 0x80 8 j (omega arith) h,
)

-- ixmap_set_ivar writes the vector with the valid bit 0x80 to the byte of the queue's register that
-- belongs to the queue and the direction, and changes no other byte and no other register.
ixmap_set_ivar-bits :
    (direction queue vector i reg : ℕ) (regs : Regs)
    → direction ≤ 1
    → i < 32
    → let regs' = ixmap_set_ivar direction queue vector regs in
      let k = 16 * (queue % 2) + 8 * direction in
      (bit (regs' (reg_ivar (queue / 2))) i ≡ (
        if leb k i && ltb i (k + 8)
        then bit (bit_or (vector % 2 ^ 8) 0x80) (i - k)
        else bit (regs (reg_ivar (queue / 2))) i))
      × (reg ≢ reg_ivar (queue / 2) → regs' reg ≡ regs reg)
unfolding ixmap_set_ivar
ixmap_set_ivar-bits direction queue vector i reg regs d h =
    let k = 16 * (queue % 2) + 8 * direction in
    let here : (reg_ivar (queue / 2) == reg_ivar (queue / 2)) ≡ true = (==_iff _ _).1 refl in
    (
      rw (ixmap_set_ivar, here)
          (bit-put_byte (regs (reg_ivar (queue / 2))) (bit_or (vector % 2 ^ 8) 0x80) k i
            (index_fits (queue % 2) direction (omega arith) d) (bit-valid_vector vector (i - k)) h),
      λ other. ground arith,
    )
