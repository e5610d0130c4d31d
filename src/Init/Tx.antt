-- ===== src/Init/Tx.antt =====
-- lib/txinit.c and lib/txinit.h.
use ixmap.Base.{ℕ, zero, suc, ◌+◌, ◌*◌, ◌/◌, ◌%◌, ◌^◌, not, ltb, if◌then◌else◌, bit_or, update}
use ixmap.Hw.{clear_bits, reg_txdctl, txdctl_swflsh, reg_dmatxctl, dmatxctl_te}
use ixmap.Setup.{Handle, HandleRing, sizeof_desc}
use ixmap.Init.{Card, ixmap_write_reg, poll_reg, dctl_enable, is_enabled}

-- IXGBE_TDBAL, IXGBE_TDBAH, IXGBE_TDLEN, IXGBE_TDH, IXGBE_TDT, IXGBE_TDWBAL and IXGBE_TDWBAH.
abbrev pub reg_tdbal : ℕ → ℕ
reg_tdbal i = 0x06000 + i * 0x40

abbrev pub reg_tdbah : ℕ → ℕ
reg_tdbah i = 0x06004 + i * 0x40

abbrev pub reg_tdlen : ℕ → ℕ
reg_tdlen i = 0x06008 + i * 0x40

abbrev pub reg_tdh : ℕ → ℕ
reg_tdh i = 0x06010 + i * 0x40

abbrev pub reg_tdt : ℕ → ℕ
reg_tdt i = 0x06018 + i * 0x40

abbrev pub reg_tdwbal : ℕ → ℕ
reg_tdwbal i = 0x06038 + i * 0x40

abbrev pub reg_tdwbah : ℕ → ℕ
reg_tdwbah i = 0x0603c + i * 0x40

-- IXGBE_RTTDCS and IXGBE_RTTDCS_ARBDIS.
abbrev pub reg_rttdcs : ℕ
reg_rttdcs = 0x04900

abbrev pub rttdcs_arbdis : ℕ
rttdcs_arbdis = 0x0040

-- IXGBE_MTQC gets IXGBE_MTQC_64Q_1PB.
unfoldable pub ixmap_setup_mtqc : Card → Card
ixmap_setup_mtqc card =
    let rttdcs = bit_or (card.regs reg_rttdcs) rttdcs_arbdis in
    let stopped = ixmap_write_reg reg_rttdcs rttdcs card in
    let laid_out = ixmap_write_reg 0x08120 0 stopped in
    ixmap_write_reg reg_rttdcs (clear_bits rttdcs rttdcs_arbdis) laid_out

-- IXGBE_TXDCTL as it enables a queue.
abbrev pub txdctl_value : Handle → ℕ
txdctl_value ih =
    let writeback =
      if ltb ih.num_interrupt_rate 8
      then bit_or dctl_enable (1 * 2 ^ 16)
      else bit_or dctl_enable (8 * 2 ^ 16) in
    bit_or writeback (bit_or (1 * 2 ^ 8) 32)

-- The ring with its `tail`, and the card.
unfoldable pub ixmap_configure_tx_ring : Handle → ℕ → HandleRing → Card → HandleRing × Card
ixmap_configure_tx_ring ih reg_idx ring card =
    let flushed = ixmap_write_reg (reg_txdctl reg_idx) txdctl_swflsh card in
    let based = ixmap_write_reg (reg_tdlen reg_idx) (ih.num_tx_desc * sizeof_desc % 2 ^ 32) (
      ixmap_write_reg (reg_tdbah reg_idx) (ring.addr_dma / 2 ^ 32)
        (ixmap_write_reg (reg_tdbal reg_idx) (ring.addr_dma % 2 ^ 32) flushed)) in
    let plain =
      ixmap_write_reg (reg_tdwbal reg_idx) 0 (ixmap_write_reg (reg_tdwbah reg_idx) 0 based) in
    let emptied = ixmap_write_reg (reg_tdt reg_idx) 0 (ixmap_write_reg (reg_tdh reg_idx) 0 plain) in
    let enabled = ixmap_write_reg (reg_txdctl reg_idx) (txdctl_value ih) emptied in
    (record ring { tail = ih.bar + reg_tdt reg_idx }, poll_reg (λ v. not (is_enabled v)) 10 enabled)

-- The loop over the queues, with `n` to go.
unfoldable pub configure_tx_rings : ℕ → ℕ → Handle → Card → Handle × Card
configure_tx_rings zero i ih card = (ih, card)
configure_tx_rings (suc n) i ih card =
    let (ring, card') = ixmap_configure_tx_ring ih i (ih.tx_ring i) card in
    configure_tx_rings n (i + 1) (record ih { tx_ring = update ih.tx_ring i ring }) card'

unfoldable pub ixmap_configure_tx : Handle → Card → Handle × Card
ixmap_configure_tx ih card =
    let laid_out = ixmap_setup_mtqc card in
    let dmatxctl = bit_or (laid_out.regs reg_dmatxctl) dmatxctl_te in
    configure_tx_rings ih.num_queues 0 ih (ixmap_write_reg reg_dmatxctl dmatxctl laid_out)
