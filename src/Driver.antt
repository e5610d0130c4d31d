-- ===== src/Driver.antt =====
-- lib/driver.c, lib/driver.h and the structs of lib/ixmap.h: the rings and packet slots of a port.
-- An index in `uint16_t` wraps at 2 ^ 16 and the counters in `unsigned long` at 2 ^ 64. Arrays are
-- functions of the index. The registers that a call writes are listed, the last first.
pub mod Rx
pub mod Tx
pub mod Slots
pub mod Rings
pub mod Transmit
pub mod Receive
mod Examples
use ixmap.Base.{
  ℕ, zero, suc, ◌+◌, ◌-◌, ◌*◌, ◌/◌, ◌%◌, ◌^◌, List, [], ◌∷◌, Bool, true, false, Option, none, some,
  ◌==◌, ltb, if◌then◌else◌, update, bit_and, bit_or,
}

-- `pkt_addr` or what the hardware wrote over it, and the second quad word: `hdr_addr`, or
-- `status_error` (low half), `length` and `vlan`.
pub record RxDesc : Type 0 where
  pub pkt_addr : ℕ
  pub upper : ℕ

-- `olinfo_status` is `status` after the hardware's writeback.
pub record TxDesc : Type 0 where
  pub buffer_addr : ℕ
  pub cmd_type_len : ℕ
  pub olinfo_status : ℕ

pub record Ring (D : Type 0) : Type 0 where
  pub desc : ℕ → D
  pub tail : List ℕ
  pub next_to_use : ℕ
  pub next_to_clean : ℕ
  pub slot_index : ℕ → ℕ

pub record Buf : Type 0 where
  pub addr_virt : ℕ
  pub addr_dma : ℕ → ℕ
  pub buf_size : ℕ
  pub count : ℕ
  pub slots : ℕ → ℕ

pub record Port : Type 0 where
  pub irqreg : List (ℕ × ℕ)
  pub rx_ring : Ring RxDesc
  pub tx_ring : Ring TxDesc
  pub rx_slot_next : ℕ
  pub rx_slot_offset : ℕ
  pub tx_suspended : ℕ
  pub num_tx_desc : ℕ
  pub num_rx_desc : ℕ
  pub rx_budget : ℕ
  pub tx_budget : ℕ
  pub mac_addr : List ℕ
  pub count_rx_alloc_failed : ℕ
  pub count_rx_clean_total : ℕ
  pub count_tx_xmit_failed : ℕ
  pub count_tx_clean_total : ℕ

pub record Packet : Type 0 where
  pub slot_buf : ℕ
  pub slot_size : ℕ
  pub slot_index : ℕ

abbrev pub slot_inflight : ℕ
slot_inflight = 1

abbrev pub stat_dd : ℕ
stat_dd = 1

abbrev pub max_data_per_txd : ℕ
max_data_per_txd = 2 ^ 14

-- IXGBE_TXD_CMD_EOP | IXGBE_TXD_CMD_RS | IXGBE_ADVTXD_DTYP_DATA | IXGBE_ADVTXD_DCMD_DEXT
-- | IXGBE_ADVTXD_DCMD_IFCS, as `|` writes it.
abbrev pub tx_flags : ℕ
tx_flags =
    bit_or 0x0100_0000 (bit_or 0x0800_0000 (bit_or 0x0030_0000 (bit_or 0x2000_0000 0x0200_0000)))

-- The result is cut to `uint16_t`; the difference below is taken in `int`, and is -1 where the
-- ring has no descriptor.
unfoldable pub ixmap_desc_unused : {D : Type 0} → Ring D → ℕ → ℕ
ixmap_desc_unused ring num_desc =
    if ltb ring.next_to_use ring.next_to_clean
    then ring.next_to_clean - ring.next_to_use - 1
    else (num_desc % 2 ^ 16 + 2 ^ 16 - ring.next_to_use + ring.next_to_clean - 1) % 2 ^ 16

pub ixmap_test_staterr : RxDesc → ℕ → ℕ
ixmap_test_staterr rx_desc stat_err_bits = bit_and (rx_desc.upper % 2 ^ 32) stat_err_bits

abbrev pub ixmap_write_tail : {D : Type 0} → Ring D → ℕ → Ring D
ixmap_write_tail ring value = record ring { tail = value ∷ ring.tail }

-- The writes to `irqreg[0]` and `irqreg[1]`.
pub ixmap_irq_unmask_queues : Port → ℕ → Port
ixmap_irq_unmask_queues port qmask =
    let low = qmask % 2 ^ 32 in
    let high = qmask / 2 ^ 32 in
    let first = if low == 0 then port.irqreg else (0, low) ∷ port.irqreg in
    record port { irqreg = if high == 0 then first else (1, high) ∷ first }

-- `next_to_use + 1` or `next_to_clean + 1` in `uint16_t`, and back to 0 at the end of the ring.
pub ring_next : ℕ → ℕ → ℕ
ring_next i num_desc = let next = (i + 1) % 2 ^ 16 in if ltb next num_desc then next else 0

abbrev pub ixmap_slot_attach : {D : Type 0} → Ring D → ℕ → ℕ → Ring D
ixmap_slot_attach ring desc_index slot_index = record ring {
  slot_index = update ring.slot_index desc_index slot_index;
}

abbrev pub ixmap_slot_detach : {D : Type 0} → Ring D → ℕ → ℕ
ixmap_slot_detach ring desc_index = ring.slot_index desc_index

unfoldable pub ixmap_slot_release : Buf → ℕ → Buf
ixmap_slot_release buf slot_index = record buf { slots = update buf.slots slot_index 0 }

pub ixmap_slot_addr_dma : Buf → ℕ → ℕ → ℕ
ixmap_slot_addr_dma buf slot_index port_index =
    (buf.addr_dma port_index + (buf.buf_size * slot_index) % 2 ^ 32) % 2 ^ 64

-- `slot_index` is cut to `uint16_t` here.
pub ixmap_slot_addr_virt : Buf → ℕ → ℕ
ixmap_slot_addr_virt buf slot_index =
    buf.addr_virt + (buf.buf_size * (slot_index % 2 ^ 16)) % 2 ^ 32

abbrev pub ixmap_slot_size : Buf → ℕ
ixmap_slot_size buf = buf.buf_size

-- The loop of ixmap_slot_assign, with `n` rounds to go: `slot_next` of the first free slot.
unfoldable pub find_slot : Buf → ℕ → ℕ → ℕ → Option ℕ
find_slot buf offset zero slot_next = none
find_slot buf offset (suc n) slot_next =
    let rest = find_slot buf offset n (if slot_next + 1 == buf.count then 0 else slot_next + 1) in
    if bit_and (buf.slots (offset + slot_next)) slot_inflight == 0 then some slot_next else rest

-- `none` is the return value -1.
unfoldable pub ixmap_slot_assign : Buf → Port → Option (ℕ × Buf × Port)
ixmap_slot_assign buf port = elim (find_slot buf port.rx_slot_offset buf.count port.rx_slot_next) [
  | none ↦ none
  | some slot_next ↦
      let slot_index = port.rx_slot_offset + slot_next in
      some (
        slot_index,
        record buf {
          slots = update buf.slots slot_index (bit_or (buf.slots slot_index) slot_inflight);
        },
        record port { rx_slot_next = if slot_next + 1 == buf.count then 0 else slot_next + 1 },
      )
]

unfoldable pub ixmap_macaddr : Port → List ℕ
ixmap_macaddr port = port.mac_addr
