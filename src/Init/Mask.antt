-- ===== src/Init/Mask.antt =====
-- ixmap_irq_enable and ixmap_irq_enable_queues of lib/ixmap.c.
use ixmap.Base.{ℕ, ◌-◌, ◌/◌, ◌%◌, ◌^◌, ◌==◌, if◌then◌else◌, bit_or}
use ixmap.Hw.{clear_bits}
use ixmap.Setup.Plane.{eims_ex}
use ixmap.Init.{Card, ixmap_write_reg}

-- IXGBE_EIMS, and IXGBE_EIMS_RTX_QUEUE, _LSC, _TCP_TIMER and _OTHER.
abbrev pub reg_eims : ℕ
reg_eims = 0x00880

abbrev pub eims_rtx_queue : ℕ
eims_rtx_queue = 0xffff

abbrev pub eims_lsc : ℕ
eims_lsc = 0x0010_0000

abbrev pub eims_tcp_timer : ℕ
eims_tcp_timer = 0x4000_0000

abbrev pub eims_other : ℕ
eims_other = 0x8000_0000

-- `qmask` is an `uint64_t`: one bit for each queue's interrupt.
pub ixmap_irq_enable_queues : ℕ → Card → Card
ixmap_irq_enable_queues qmask card =
    let low = qmask % 2 ^ 32 in
    let high = qmask / 2 ^ 32 in
    let first = if low == 0 then card else ixmap_write_reg (eims_ex 0) low card in
    if high == 0 then first else ixmap_write_reg (eims_ex 1) high first

pub ixmap_irq_enable : Card → Card
ixmap_irq_enable card =
    let all = bit_or (bit_or (bit_or eims_rtx_queue eims_lsc) eims_tcp_timer) eims_other in
    let mask = clear_bits all eims_rtx_queue in
    let used = clear_bits (clear_bits (clear_bits mask eims_lsc) eims_tcp_timer) eims_other in
    ixmap_irq_enable_queues (2 ^ 64 - 1) (ixmap_write_reg reg_eims used card)
