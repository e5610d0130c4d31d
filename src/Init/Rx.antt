-- ===== src/Init/Rx.antt =====
-- lib/rxinit.c and lib/rxinit.h.
use ixmap.Base.{
  ℕ, zero, suc, ◌+◌, ◌*◌, ◌/◌, ◌%◌, ◌^◌, List, [], ◌∷◌, not, ◌==◌, ltb, if◌then◌else◌, bit_and,
  bit_or, update,
}
use ixmap.Hw.{Regs, write_reg, clear_bits}
use ixmap.Setup.{Handle, HandleRing, sizeof_desc}
use ixmap.Init.{Card, ixmap_write_reg, poll_reg, dctl_enable, is_enabled}

-- IXGBE_RDBAL, IXGBE_RDBAH, IXGBE_RDLEN, IXGBE_RDH, IXGBE_RDT, IXGBE_RXDCTL and IXGBE_SRRCTL.
abbrev pub reg_rdbal : ℕ → ℕ
reg_rdbal i = 0x01000 + i * 0x40

abbrev pub reg_rdbah : ℕ → ℕ
reg_rdbah i = 0x01004 + i * 0x40

abbrev pub reg_rdlen : ℕ → ℕ
reg_rdlen i = 0x01008 + i * 0x40

abbrev pub reg_rdh : ℕ → ℕ
reg_rdh i = 0x01010 + i * 0x40

abbrev pub reg_rdt : ℕ → ℕ
reg_rdt i = 0x01018 + i * 0x40

abbrev pub reg_rxdctl : ℕ → ℕ
reg_rxdctl i = 0x01028 + i * 0x40

abbrev pub reg_srrctl : ℕ → ℕ
reg_srrctl i = 0x02100 + i * 4

-- IXGBE_RETA and IXGBE_RSSRK.
abbrev pub reg_reta : ℕ → ℕ
reg_reta i = 0x05c00 + i * 4

abbrev pub reg_rssrk : ℕ → ℕ
reg_rssrk i = 0x05c80 + i * 4

abbrev pub reg_rxctrl : ℕ
reg_rxctrl = 0x03000

abbrev pub reg_mhadd : ℕ
reg_mhadd = 0x04268

abbrev pub reg_fctrl : ℕ
reg_fctrl = 0x05080

-- IXGBE_FCTRL_MPE, _UPE and IXGBE_VMOLR_MPE.
abbrev pub fctrl_mpe : ℕ
fctrl_mpe = 0x0100

abbrev pub fctrl_upe : ℕ
fctrl_upe = 0x0200

abbrev pub vmolr_mpe : ℕ
vmolr_mpe = 0x1000_0000

unfoldable pub ixmap_set_rx_mode : Handle → Card → Card
ixmap_set_rx_mode ih card =
    let expected = bit_or (bit_or (bit_or (card.regs reg_fctrl) 0x0400) 0x2000) 0x1000 in
    let cleared = clear_bits expected (bit_or fctrl_upe fctrl_mpe) in
    let vlnctrl = clear_bits (card.regs 0x05088) (bit_or 0x4000_0000 0x2000_0000) in
    let promiscuous = not (ih.promisc == 0) in
    let fctrl =
      if promiscuous
      then bit_or cleared (bit_or fctrl_upe fctrl_mpe)
      else bit_or cleared fctrl_mpe in
    let mode = bit_or (bit_or 0x0800_0000 0x0100_0000) vmolr_mpe in
    let kept = clear_bits (card.regs 0x0f000) (bit_or (bit_or vmolr_mpe 0x0200_0000) 0x0400_0000) in
    ixmap_write_reg reg_fctrl fctrl
      (ixmap_write_reg 0x05088 vlnctrl (ixmap_write_reg 0x0f000 (bit_or mode kept) card))

-- Nothing is done with the local switch.
unfoldable pub ixmap_disable_rx : Card → Card
ixmap_disable_rx card =
    let rxctrl = card.regs reg_rxctrl in
    if bit_and rxctrl 1 == 0 then card else ixmap_write_reg reg_rxctrl (clear_bits rxctrl 1) card

unfoldable pub ixmap_enable_rx : Card → Card
ixmap_enable_rx card = ixmap_write_reg reg_rxctrl (bit_or (card.regs reg_rxctrl) 1) card

unfoldable pub ixmap_setup_psrtype : Handle → Card → Card
ixmap_setup_psrtype ih card =
    let psrtype = bit_or (bit_or (bit_or (bit_or 0x0010 0x0020) 0x0100) 0x1000) 0x0200 in
    let queues =
      if ltb 3 ih.num_queues
      then bit_or psrtype (2 * 2 ^ 29)
      else if ltb 1 ih.num_queues
      then bit_or psrtype (1 * 2 ^ 29)
      else psrtype in
    ixmap_write_reg 0x05480 queues card

unfoldable pub ixmap_setup_rdrxctl : Card → Card
ixmap_setup_rdrxctl card =
    let rdrxctl = card.regs 0x02f00 in
    let acked = ixmap_write_reg 0x03028 (bit_or 0x0080 (card.regs 0x03028)) card in
    ixmap_write_reg 0x02f00 (bit_or (clear_bits rdrxctl 0x003e_0000) 0x0002) acked

unfoldable pub ixmap_setup_rfctl : Card → Card
ixmap_setup_rfctl card = ixmap_write_reg 0x05008 (bit_or (card.regs 0x05008) 0x0020) card

abbrev pub seeds : List ℕ
seeds =
    0xe291_d73d ∷ 0x1805_ec6c ∷ 0x2a94_b30d ∷ 0xa54f_2bec ∷ 0xea49_af7c ∷ 0xe214_ad3d ∷ 0xb855_aabe
    ∷ 0x6a3e_67ea ∷ 0x1436_4d17 ∷ 0x3bed_200d ∷ []

unfoldable pub write_seeds : List ℕ → ℕ → Regs → Regs
write_seeds [] i regs = regs
write_seeds (seed ∷ rest) i regs = write_seeds rest (i + 1) (write_reg regs (reg_rssrk i) seed)

-- The loop that fills the redirection table, with `n` of its 128 rounds to go.
unfoldable pub fill_reta : ℕ → ℕ → ℕ → ℕ → ℕ → Regs → Regs
fill_reta num_queues zero i j reta regs = regs
fill_reta num_queues (suc n) i j reta regs =
    let queue = if j == num_queues then 0 else j in
    let reta' = bit_or (reta * 2 ^ 8 % 2 ^ 32) (queue * 1) in
    let regs' =
      if bit_and i 3 == 3
      then if ltb i 128 then write_reg regs (reg_reta (i / 4)) reta' else regs
      else regs in
    fill_reta num_queues n (i + 1) (queue + 1) reta' regs'

unfoldable pub ixmap_setup_mrqc : Handle → Card → Card
ixmap_setup_mrqc ih card =
    let filled : Card = record card {
      regs = fill_reta ih.num_queues 128 0 0 0 (write_seeds seeds 0 card.regs);
    } in
    let summed = ixmap_write_reg 0x05000 (bit_or (filled.regs 0x05000) 0x2000) filled in
    let ipv4 = bit_or (bit_or 0x0002_0000 0x0001_0000) 0x0040_0000 in
    let ipv6 = bit_or (bit_or 0x0010_0000 0x0020_0000) 0x0080_0000 in
    ixmap_write_reg 0x05818 (bit_or 1 (bit_or ipv4 ipv6)) summed

-- ETH_FRAME_LEN + ETH_FCS_LEN, VLAN_HLEN and IXGBE_MAX_RXBUFFER.
abbrev pub min_frame : ℕ
min_frame = 1514 + 4

abbrev pub vlan_hlen : ℕ
vlan_hlen = 4

abbrev pub max_rxbuffer : ℕ
max_rxbuffer = 16384

-- The frame size that is programmed, and the buffer size for a frame of this size, in `uint32_t`.
abbrev pub frame_size : ℕ → ℕ
frame_size mtu_frame = if ltb mtu_frame min_frame then min_frame else mtu_frame

abbrev pub buffer_size : ℕ → ℕ
buffer_size mtu_frame =
    let size = (mtu_frame + 1023) % 2 ^ 32 / 1024 * 1024 in
    if ltb max_rxbuffer size then max_rxbuffer else size

unfoldable pub ixmap_set_rx_buffer_len : Handle → Card → Handle × Card
ixmap_set_rx_buffer_len ih card =
    let frame = frame_size ih.mtu_frame in
    let mhadd = card.regs reg_mhadd in
    let limited =
      if frame == mhadd / 2 ^ 16
      then card
      else ixmap_write_reg reg_mhadd
          (bit_or (clear_bits mhadd 0xffff_0000) (frame * 2 ^ 16 % 2 ^ 32)) card in
    let tagged = (frame + vlan_hlen) % 2 ^ 32 in
    (
      record ih { mtu_frame = tagged; buf_size = buffer_size tagged },
      ixmap_write_reg 0x04240 (bit_or (limited.regs 0x04240) 0x0004) limited,
    )

unfoldable pub ixmap_disable_rx_queue : ℕ → Card → Card
ixmap_disable_rx_queue reg_idx card =
    let rxdctl = clear_bits (card.regs (reg_rxdctl reg_idx)) dctl_enable in
    poll_reg is_enabled 10 (ixmap_write_reg (reg_rxdctl reg_idx) rxdctl card)

unfoldable pub ixmap_configure_srrctl : Handle → ℕ → Card → Card
ixmap_configure_srrctl ih reg_idx card =
    let size = (ih.buf_size + 1023) % 2 ^ 32 / 1024 * 1024 / 2 ^ 10 in
    let srrctl = bit_or size 0x0200_0000 in
    let dropping = if ltb 1 ih.num_queues then bit_or srrctl 0x1000_0000 else srrctl in
    ixmap_write_reg (reg_srrctl reg_idx) dropping card

unfoldable pub ixmap_rx_desc_queue_enable : ℕ → Card → Card
ixmap_rx_desc_queue_enable reg_idx card = poll_reg (λ v. not (is_enabled v)) 10 card

-- The ring with its `tail`, and the card.
unfoldable pub ixmap_configure_rx_ring : Handle → ℕ → HandleRing → Card → HandleRing × Card
ixmap_configure_rx_ring ih reg_idx ring card =
    let rxdctl = card.regs (reg_rxdctl reg_idx) in
    let disabled = ixmap_disable_rx_queue reg_idx card in
    let based = ixmap_write_reg (reg_rdlen reg_idx) (ih.num_rx_desc * sizeof_desc % 2 ^ 32) (
      ixmap_write_reg (reg_rdbah reg_idx) (ring.addr_dma / 2 ^ 32)
        (ixmap_write_reg (reg_rdbal reg_idx) (ring.addr_dma % 2 ^ 32) disabled)) in
    let emptied = ixmap_write_reg (reg_rdt reg_idx) 0 (ixmap_write_reg (reg_rdh reg_idx) 0 based) in
    let sized = ixmap_configure_srrctl ih reg_idx emptied in
    let enabled = ixmap_write_reg (reg_rxdctl reg_idx) (bit_or rxdctl dctl_enable) sized in
    (record ring { tail = ih.bar + reg_rdt reg_idx }, ixmap_rx_desc_queue_enable reg_idx enabled)

-- The loop over the queues, with `n` to go.
unfoldable pub configure_rx_rings : ℕ → ℕ → Handle → Card → Handle × Card
configure_rx_rings zero i ih card = (ih, card)
configure_rx_rings (suc n) i ih card =
    let (ring, card') = ixmap_configure_rx_ring ih i (ih.rx_ring i) card in
    configure_rx_rings n (i + 1) (record ih { rx_ring = update ih.rx_ring i ring }) card'

unfoldable pub ixmap_configure_rx : Handle → Card → Handle × Card
ixmap_configure_rx ih card =
    let started = ixmap_setup_psrtype ih (ixmap_disable_rx (ixmap_set_rx_mode ih card)) in
    let spread = ixmap_setup_mrqc ih (ixmap_setup_rfctl (ixmap_setup_rdrxctl started)) in
    let (ih', sized) = ixmap_set_rx_buffer_len ih spread in
    let (ih'', ringed) = configure_rx_rings ih'.num_queues 0 ih' sized in
    (ih'', ixmap_enable_rx ringed)
