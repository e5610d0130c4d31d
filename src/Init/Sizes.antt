-- ===== src/Init/Sizes.antt =====
-- Frame and buffer sizes as ixmap_set_rx_buffer_len (lib/rxinit.c) sets them.
use ixmap.Base.{
  bit, bit_le, ℕ, ◌+◌, ◌-◌, ◌*◌, ◌/◌, ◌%◌, ◌^◌, ◌≤◌, ◌<◌, ◌≡◌, ◌⊎◌, inl, inr, ◌∙◌, ◌==◌, arith,
  bit_or, bit-bit_and, bit-bit_or, bit-shift_right, bit-shift_left, bit_high, eq_of_bits,
  Bool-cases,
}
use ixmap.Hw.{clear_bits}
use ixmap.Setup.{Handle}
use ixmap.Init.{Card}
use ixmap.Init.Rx.{reg_mhadd, frame_size, ixmap_set_rx_buffer_len}

-- The upper half of a word replaced.
put_high : (old frame : ℕ) → bit_or (clear_bits old 0xffff_0000) (frame * 2 ^ 16) / 2 ^ 16 ≡ frame
put_high old frame = eq_of_bits _ _ λ i.
    bit-shift_right (bit_or (clear_bits old 0xffff_0000) (frame * 2 ^ 16)) 16 i
    ∙ bit-bit_or (clear_bits old 0xffff_0000) (frame * 2 ^ 16) (16 + i)
    ∙ rw
        (
          bit-bit_and old 0xffff (16 + i),
          bit_high 0xffff 16 (16 + i) (omega arith) (omega arith),
          bit-shift_left frame 16 i,
        )
        (omega arith)

long_frames : (old : ℕ) → bit (bit_or old 4) 2 ≡ 1
long_frames old = bit-bit_or old 4 2 ∙ omega (arith, bit_le old 2)

-- The frame size for one that was asked for: at least 1518, the standard frame with its check sum.
abbrev pub FrameFor : ℕ → ℕ → Type 0
FrameFor asked frame = ((asked < 1518) × (frame ≡ 1518)) ⊎ ((1518 ≤ asked) × (frame ≡ asked))

-- What ixmap_set_rx_buffer_len leaves for a frame size that was asked for: the card's limit, the
-- bit of the register HLREG0 that lets long frames in, the
-- size with the 4 bytes of a tag, and the size of a buffer.
abbrev pub Sized : ℕ → Handle × Card → Type 0
Sized asked r =
    let ih = r.0 in
    (frame : ℕ) × FrameFor asked frame
    × (r.1.regs reg_mhadd / 2 ^ 16 ≡ frame)
    × (bit (r.1.regs 0x04240) 2 ≡ 1)
    × (ih.mtu_frame ≡ frame + 4)
    × (ih.buf_size % 1024 ≡ 0)
    × (2048 ≤ ih.buf_size)
    × (ih.buf_size ≤ 16384)
    × (((ih.mtu_frame ≤ ih.buf_size) × ((ih.buf_size ≡ 2048) ⊎ (ih.buf_size < ih.mtu_frame + 1024)))
        ⊎ ((16384 < ih.mtu_frame) × (ih.buf_size ≡ 16384)))

-- For a frame size below 2 ^ 16 - 4, ixmap_set_rx_buffer_len sets the card's limit to that
-- size, but at least to 1518 bytes, and lets long frames in. The buffer is the smallest multiple of 1024 bytes from 2048 on
-- that a frame with a tag of 4 bytes fits into, or 16384 bytes for a frame that is longer.
pub ixmap_set_rx_buffer_len-Sized :
    (ih : Handle) (card : Card)
    → ih.mtu_frame < 2 ^ 16 - 4
    → Sized ih.mtu_frame (ixmap_set_rx_buffer_len ih card)
unfolding ixmap_set_rx_buffer_len
ixmap_set_rx_buffer_len-Sized ih card h =
    let frame = frame_size ih.mtu_frame in
    let short : frame * 2 ^ 16 % 2 ^ 32 ≡ frame * 2 ^ 16 = ground arith in
    let high = put_high (card.regs reg_mhadd) frame in
    (
      frame,
      ground arith,
      elim (Bool-cases (frame == card.regs reg_mhadd / 2 ^ 16)) [
        | inl e ↦ rw e (ground arith)
        | inr e ↦ rw (e, short) high
      ],
      long_frames _,
      ground arith,
      ground arith,
      ground arith,
      ground arith,
      ground arith,
    )
