-- ===== src/Setup/Irq.antt =====
-- ixmap_irq_open, ixmap_irq_close and ixmap_irq_setaffinity of lib/ixmap.c. A shift of an `int` by
-- 32 or more is the one of x86, which takes the low five bits.
use ixmap.Base.{ℕ, ◌+◌, ◌-◌, ◌%◌, ◌^◌, Option, none, some, ◌==◌, leb, if◌then◌else◌}
use ixmap.Setup.{
  memory, file, stream, World, irq_req, smp_affinity, note, ask, acquire, release, attempt,
  sizeof_irq_handle, Handle, IrqKind, irq_rx, irq_tx,
}

-- `at` is where the handle lies.
pub record IrqHandle : Type 0 where
  pub at : ℕ
  pub fd : ℕ
  pub qmask : ℕ
  pub vector : ℕ

-- `1 << k`, an `int`: as it lies in an `uint32_t`, and as an `uint64_t`, where its sign is spread.
abbrev pub int_bit32 : ℕ → ℕ
int_bit32 k = 2 ^ (k % 32)

abbrev pub int_bit64 : ℕ → ℕ
int_bit64 k = if k % 32 == 31 then 0xffff_ffff_8000_0000 else 2 ^ (k % 32)

abbrev pub mask_low : ℕ → ℕ
mask_low core_id = if leb core_id 31 then int_bit32 core_id else 0

abbrev pub mask_high : ℕ → ℕ
mask_high core_id = if leb core_id 31 then 0 else int_bit32 (core_id - 31)

-- `some 0` is the return value 0 and `none` is -1.
unfoldable pub ixmap_irq_setaffinity : ℕ → ℕ → World → Option ℕ × World
ixmap_irq_setaffinity vector core_id w =
    attempt (acquire stream w) (λ w. w)
      λ f w.
        attempt (ask (note (smp_affinity vector (mask_high core_id) (mask_low core_id)) w))
          (release (stream f)) λ ret w. (some 0, release (stream f) w)

abbrev pub qmask : Handle → ℕ → IrqKind → ℕ
qmask ih core_id irq_rx = int_bit64 core_id
qmask ih core_id irq_tx = int_bit64 (core_id + ih.num_queues)

unfoldable pub ixmap_irq_open : Handle → ℕ → IrqKind → World → Option IrqHandle × World
ixmap_irq_open ih core_id type w =
    if leb ih.num_queues core_id
    then (none, w)
    else attempt (acquire file w) (λ w. w)
        λ efd w.
          attempt (ask (note (irq_req ih.fd type core_id efd) w)) (release (file efd)) λ vector w.
            attempt (ixmap_irq_setaffinity vector core_id w) (release (file efd)) λ ret w.
              attempt (acquire (λ at. memory at sizeof_irq_handle) w) (release (file efd)) λ at w. (
                some (record { at = at; fd = efd; qmask = qmask ih core_id type; vector = vector }),
                w,
              )

unfoldable pub ixmap_irq_close : IrqHandle → World → World
ixmap_irq_close irqh w = release (memory irqh.at sizeof_irq_handle) (release (file irqh.fd) w)
