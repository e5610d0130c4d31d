-- ===== src/Init/Queues.antt =====
-- The receive queues of a card as ixmap_configure_rx (lib/rxinit.c) leaves them.
use ixmap.Base.{
  ℕ, zero, suc, ◌+◌, ◌*◌, ◌%◌, ◌^◌, ◌≤◌, ◌<◌, ◌≡◌, ◌≢◌, ◌⊎◌, inl, inr, refl, sym, ap, ◌∙◌, true,
  not, ◌==◌, arith, bit_or, update, bit, bit-bit_or, bit_le, bit_and-pow-test, Bool-cases,
}
use ixmap.Hw.{Regs}
use ixmap.Setup.{Handle, HandleRing, sizeof_desc}
use ixmap.Init.{Card, dctl_enable, is_enabled}
use ixmap.Init.Rx.{
  reg_rdbal, reg_rdbah, reg_rdlen, reg_rdh, reg_rdt, reg_rxdctl, reg_srrctl, reg_rxctrl,
  ixmap_configure_srrctl, ixmap_disable_rx_queue, ixmap_rx_desc_queue_enable,
  ixmap_configure_rx_ring, configure_rx_rings, ixmap_enable_rx, ixmap_configure_rx,
  ixmap_set_rx_buffer_len, ixmap_setup_psrtype, ixmap_disable_rx, ixmap_set_rx_mode,
  ixmap_setup_mrqc, ixmap_setup_rfctl, ixmap_setup_rdrxctl,
}

-- The registers of queue `q` say where the ring is, how long, and that it is empty and enabled.
abbrev pub Programmed : Handle → ℕ → Regs → Type 0
Programmed ih q regs =
    (regs (reg_rdbal q) + 2 ^ 32 * regs (reg_rdbah q) ≡ (ih.rx_ring q).addr_dma)
    × (regs (reg_rdlen q) ≡ ih.num_rx_desc * sizeof_desc % 2 ^ 32)
    × (regs (reg_rdh q) ≡ 0)
    × (regs (reg_rdt q) ≡ 0)
    × (is_enabled (regs (reg_rxdctl q)) ≡ true)

enabled_after : (value : ℕ) → is_enabled (bit_or value dctl_enable) ≡ true
enabled_after value =
    let set : bit (bit_or value (2 ^ 25)) 25 ≡ 1 =
      bit-bit_or value (2 ^ 25) 25 ∙ omega (arith, bit_le value 25) in
    ap not (bit_and-pow-test (bit_or value dctl_enable) 25) ∙ rw set refl

-- Programmed by registers that two cards have in common.
Programmed-same :
    (ih : Handle) (q : ℕ) (regs regs' : Regs)
    → ((reg : ℕ) → reg_rdbal q ≤ reg → reg < reg_rdbal q + 0x40 → regs' reg ≡ regs reg)
    → Programmed ih q regs
    → Programmed ih q regs'
Programmed-same ih q regs regs' e p =
    let at = λ (k : ℕ) (h : k < 0x40). e (reg_rdbal q + k) (omega arith) (omega arith) in
    (
      omega (
        arith,
        p.0,
        e (reg_rdbal q) (omega arith) (omega arith),
        e (reg_rdbah q) (omega arith) (omega arith),
      ),
      e (reg_rdlen q) (omega arith) (omega arith) ∙ p.1,
      e (reg_rdh q) (omega arith) (omega arith) ∙ p.2,
      e (reg_rdt q) (omega arith) (omega arith) ∙ p.3,
      ap is_enabled (e (reg_rxdctl q) (omega arith) (omega arith)) ∙ p.4,
    )

module _ (ih : Handle) (q : ℕ) (ring : HandleRing) (card : Card) where
  ring-other :
      (reg : ℕ)
      → reg < reg_rdbal q ⊎ reg_rdbal q + 0x40 ≤ reg
      → reg ≢ reg_srrctl q
      → (ixmap_configure_rx_ring ih q ring card).1.regs reg ≡ card.regs reg
  unfolding ixmap_configure_rx_ring ixmap_configure_srrctl ixmap_disable_rx_queue
      ixmap_rx_desc_queue_enable
  ring-other reg h h' = ground arith

  ring-rxdctl :
      q < 64
      → (ixmap_configure_rx_ring ih q ring card).1.regs (reg_rxdctl q)
        ≡ bit_or (card.regs (reg_rxdctl q)) dctl_enable
  unfolding ixmap_configure_rx_ring ixmap_configure_srrctl ixmap_disable_rx_queue
      ixmap_rx_desc_queue_enable
  ring-rxdctl h = ground arith

ring-Programmed :
    (ih : Handle) (q : ℕ) (card : Card)
    → q < 64
    → Programmed ih q (ixmap_configure_rx_ring ih q (ih.rx_ring q) card).1.regs
unfolding ixmap_configure_rx_ring ixmap_configure_srrctl ixmap_disable_rx_queue
    ixmap_rx_desc_queue_enable
ring-Programmed ih q card h = (
  ground arith,
  ground arith,
  ground arith,
  ground arith,
  ap is_enabled (ring-rxdctl ih q (ih.rx_ring q) card h) ∙ enabled_after (card.regs (reg_rxdctl q)),
)

-- The handle once a queue's ring has its tail.
abbrev tailed : Handle → ℕ → Card → Handle
tailed ih i card = record ih {
  rx_ring = update ih.rx_ring i (ixmap_configure_rx_ring ih i (ih.rx_ring i) card).0;
}

tailed-addr_dma :
    (ih : Handle) (i q : ℕ) (card : Card)
    → ((tailed ih i card).rx_ring q).addr_dma ≡ (ih.rx_ring q).addr_dma
unfolding ixmap_configure_rx_ring
tailed-addr_dma ih i q card = elim (Bool-cases (q == i)) [
  | inl e ↦ let here : q ≡ i = ground arith in rw (e, here) refl
  | inr e ↦ rw e refl
]

Programmed-step :
    (ih : Handle) (i q : ℕ) (card : Card)
    → i < 64
    → q < suc i
    → (q < i → Programmed ih q card.regs)
    → Programmed (tailed ih i card) q (ixmap_configure_rx_ring ih i (ih.rx_ring i) card).1.regs
Programmed-step ih i q card h lt before = elim (Bool-cases (q == i)) [
  | inl e ↦
      let here : q ≡ i = ground arith in
      let p = ring-Programmed ih i card h in
      rw here (p.0 ∙ sym (tailed-addr_dma ih i i card), p.1, p.2, p.3, p.4)
  | inr e ↦
      let p =
        Programmed-same ih q card.regs (ixmap_configure_rx_ring ih i (ih.rx_ring i) card).1.regs
          (λ reg low high. ring-other ih i (ih.rx_ring i) card reg (ground arith) (ground arith))
          (before (ground arith)) in
      (p.0 ∙ sym (tailed-addr_dma ih i q card), p.1, p.2, p.3, p.4)
]

rings-Programmed :
    (n i : ℕ) (ih : Handle) (card : Card) (q : ℕ)
    → i + n ≤ 64
    → q < i + n
    → (q < i → Programmed ih q card.regs)
    → Programmed ih q (configure_rx_rings n i ih card).1.regs
unfolding configure_rx_rings
rings-Programmed zero i ih card q h lt before = before (omega arith)
rings-Programmed (suc n) i ih card q h lt before =
    let card' = (ixmap_configure_rx_ring ih i (ih.rx_ring i) card).1 in
    let p =
      rings-Programmed n (i + 1) (tailed ih i card) card' q (omega arith) (omega arith)
        (λ earlier. Programmed-step ih i q card (omega arith) (omega arith) before) in
    (p.0 ∙ tailed-addr_dma ih i q card, p.1, p.2, p.3, p.4)

rings-tail :
    (n i : ℕ) (ih : Handle) (card : Card) (q : ℕ)
    → q < i + n
    → (q < i → (ih.rx_ring q).tail ≡ ih.bar + reg_rdt q)
    → ((configure_rx_rings n i ih card).0.rx_ring q).tail ≡ ih.bar + reg_rdt q
unfolding configure_rx_rings ixmap_configure_rx_ring
rings-tail zero i ih card q lt before = before (omega arith)
rings-tail (suc n) i ih card q lt before =
    let card' = (ixmap_configure_rx_ring ih i (ih.rx_ring i) card).1 in
    rings-tail n (i + 1) (tailed ih i card) card' q (omega arith) λ earlier.
      elim (Bool-cases (q == i)) [
        | inl e ↦ let here : q ≡ i = ground arith in rw (e, here) refl
        | inr e ↦ rw e (before (ground arith))
      ]

-- The first queue's registers lie behind those that ixmap_enable_rx and the others write.
enable-Programmed :
    (ih : Handle) (q : ℕ) (card : Card)
    → q < 64
    → Programmed ih q card.regs
    → Programmed ih q (ixmap_enable_rx card).regs
unfolding ixmap_enable_rx
enable-Programmed ih q card h p =
    Programmed-same ih q card.regs (ixmap_enable_rx card).regs (λ reg low high. ground arith) p

enable-on : (card : Card) → bit ((ixmap_enable_rx card).regs reg_rxctrl) 0 ≡ 1
unfolding ixmap_enable_rx
enable-on card =
    bit-bit_or (card.regs reg_rxctrl) 1 0 ∙ omega (arith, bit_le (card.regs reg_rxctrl) 0)

-- After ixmap_configure_rx with at most 64 queues, the registers of each queue of the handle say
-- where its ring is and how long, that it is empty, and enable it; no other queue's set-up disturbs
-- them. The ring's tail points to the queue's tail register, and the card receives.
pub ixmap_configure_rx-Programmed :
    (ih : Handle) (card : Card) (q : ℕ)
    → ih.num_queues ≤ 64
    → q < ih.num_queues
    → Programmed ih q (ixmap_configure_rx ih card).1.regs
      × (((ixmap_configure_rx ih card).0.rx_ring q).tail ≡ ih.bar + reg_rdt q)
      × (bit ((ixmap_configure_rx ih card).1.regs reg_rxctrl) 0 ≡ 1)
unfolding ixmap_configure_rx ixmap_set_rx_buffer_len
ixmap_configure_rx-Programmed ih card q few lt =
    let started = ixmap_setup_psrtype ih (ixmap_disable_rx (ixmap_set_rx_mode ih card)) in
    let spread = ixmap_setup_mrqc ih (ixmap_setup_rfctl (ixmap_setup_rdrxctl started)) in
    let (sized_ih, sized) = ixmap_set_rx_buffer_len ih spread in
    (
      enable-Programmed ih q _ (omega arith) (
          rings-Programmed ih.num_queues 0 sized_ih sized q (omega arith) (omega arith)
            (λ h. absurd (omega arith))),
      rings-tail ih.num_queues 0 sized_ih sized q (omega arith) (λ h. absurd (omega arith)),
      enable-on _,
    )
