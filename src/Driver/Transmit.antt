-- ===== src/Driver/Transmit.antt =====
-- The transmit ring as a queue of packet slots: ixmap_tx_assign puts a slot in, ixmap_tx_clean
-- takes the oldest out and releases them.
use ixmap.Base.{
  ℕ, zero, suc, ◌+◌, ◌%◌, ◌^◌, ◌≤◌, ◌≡◌, ◌⊎◌, inl, inr, refl, ap, ◌∙◌, List, [], ◌∷◌, ◌++◌, Bool,
  true, arith, ◌==◌, ltb, if◌then◌else◌, length, bit_and, Bool-cases, ◌||◌, All, map, false,
  bit_and-one,
}
use ixmap.Driver.{
  TxDesc, Ring, Buf, Port, Packet, stat_dd, max_data_per_txd, ixmap_desc_unused, ring_next,
  ixmap_slot_release,
}
use ixmap.Driver.Tx.{tx_desc, ixmap_tx_assign, tx_clean_loop, ixmap_tx_clean}
use ixmap.Driver.Rings.{RingValid, queue, entries, queue-push, queue-pop}

-- Whether ixmap_tx_assign drops the packet: the ring is full or the packet too large.
abbrev pub tx_refused : Port → Packet → Bool
tx_refused port packet =
    (ixmap_desc_unused port.tx_ring port.num_tx_desc == 0) || ltb max_data_per_txd packet.slot_size

-- The slots after the release of each of a list.
abbrev pub release_all : Buf → List ℕ → Buf
release_all buf [] = buf
release_all buf (slot ∷ slots) = release_all (ixmap_slot_release buf slot) slots

-- ixmap_tx_assign on a valid ring: a packet that is not refused enters at the end of the queue and
-- its slot stays held; of a refused one the slot is released and the ring is as before. The
-- tail register is not written.
pub ixmap_tx_assign-queue :
    (port_index : ℕ) (buf : Buf) (port : Port) (packet : Packet)
    → RingValid port.tx_ring port.num_tx_desc
    → let (buf', port') = ixmap_tx_assign port_index buf port packet in
      RingValid port'.tx_ring port.num_tx_desc
      × (queue port'.tx_ring port.num_tx_desc ≡ (
          if tx_refused port packet
          then queue port.tx_ring port.num_tx_desc
          else queue port.tx_ring port.num_tx_desc ++ (packet.slot_index ∷ [])))
      × (buf' ≡ (if tx_refused port packet then ixmap_slot_release buf packet.slot_index else buf))
      × ((if tx_refused port packet then port'.tx_ring else port.tx_ring) ≡ port.tx_ring)
      × (port'.tx_ring.tail ≡ port.tx_ring.tail)
unfolding ixmap_tx_assign
ixmap_tx_assign-queue port_index buf port packet valid =
    elim (Bool-cases (ixmap_desc_unused port.tx_ring port.num_tx_desc == 0)) [
      | inl full ↦ rw full (valid, refl, refl, refl, refl)
      | inr room ↦ elim (Bool-cases (ltb max_data_per_txd packet.slot_size)) [
        | inl large ↦ rw (room, large) (valid, refl, refl, refl, refl)
        | inr fits ↦
            let ring : Ring TxDesc = port.tx_ring in
            let (ok, count, more, entry) =
              queue-push port.tx_ring port.num_tx_desc valid (tx_desc port_index buf packet)
                packet.slot_index (ground arith) in
            rw (room, fits) (ok, more, refl, refl, refl)
      ]
    ]

-- Whether the hardware has done the descriptor: the lowest bit of its status.
abbrev pub tx_done : TxDesc → Bool
tx_done desc = desc.olinfo_status % 2 == 1

tx_done-test :
    (desc : TxDesc)
    → (bit_and desc.olinfo_status stat_dd == 0) ≡ (if tx_done desc then false else true)
tx_done-test desc = ground (arith, bit_and-one desc.olinfo_status)

-- What a round of cleaning leaves: the oldest entries out of the queue, all of them done, and their
-- slots released, as many as the budget, the queue and the hardware allow. Of the ring only
-- `next_to_clean` is changed.
abbrev pub TxCleaned : ℕ → ℕ → Buf → Ring TxDesc → ℕ → ℕ × Buf × Ring TxDesc → Type 0
TxCleaned num_desc budget buf ring before (total, buf', ring') =
    (cleaned : List (ℕ × TxDesc)) × (entries ring num_desc ≡ cleaned ++ entries ring' num_desc)
    × All (λ (e : ℕ × TxDesc). tx_done e.1 ≡ true) cleaned
    × (total ≡ before + length cleaned)
    × (length cleaned ≤ budget)
    × (buf' ≡ release_all buf (map (λ (e : ℕ × TxDesc). e.0) cleaned))
    × RingValid ring' num_desc
    × (ring' ≡ record ring { next_to_clean = ring'.next_to_clean })
    × ((length cleaned ≡ budget)
        ⊎ ((ring'.next_to_clean ≡ ring'.next_to_use)
            ⊎ (tx_done (ring'.desc ring'.next_to_clean) ≡ false)))

tx_clean_loop-TxCleaned :
    (num_desc n : ℕ) (buf : Buf) (ring : Ring TxDesc) (before : ℕ)
    → RingValid ring num_desc
    → TxCleaned num_desc n buf ring before (tx_clean_loop num_desc n buf ring before)
unfolding tx_clean_loop
tx_clean_loop-TxCleaned num_desc zero buf ring before valid =
    ([], refl, tt, omega arith, omega arith, refl, valid, refl, inl refl)
tx_clean_loop-TxCleaned num_desc (suc n) buf ring before valid =
    elim (Bool-cases (ring.next_to_clean == ring.next_to_use)) [
      | inl empty ↦
          rw empty
            ([], refl, tt, omega arith, omega arith, refl, valid, refl, inr (inl (ground arith)))
      | inr some_there ↦
          let desc : TxDesc = ring.desc ring.next_to_clean in
          let test = tx_done-test desc in
          elim (Bool-cases (tx_done desc)) [
            | inr wait ↦
                rw (some_there, test, wait)
                  ([], refl, tt, omega arith, omega arith, refl, valid, refl, inr (inr wait))
            | inl done ↦
                let (ok, first, first_entry) = queue-pop ring num_desc valid (ground arith) in
                let slot = ring.slot_index ring.next_to_clean in
                let (cleaned, split, all_done, total, within, released, valid', same, stop) =
                  tx_clean_loop-TxCleaned num_desc n (ixmap_slot_release buf slot)
                    (record ring { next_to_clean = ring_next ring.next_to_clean num_desc })
                    (suc before) ok in
                rw (some_there, test, done)
                  (
                    (slot, desc) ∷ cleaned,
                    first_entry ∙ ap (λ q. (slot, desc) ∷ q) split,
                    (done, all_done),
                    omega arith,
                    omega arith,
                    released,
                    valid',
                    same,
                    elim stop [ inl e ↦ inl (ap suc e) | inr e ↦ inr e ],
                  )
          ]
    ]

-- ixmap_tx_clean on a valid ring takes the oldest entries out of the queue, whose descriptors the
-- hardware has done, releases exactly their slots and counts them; it stops at the budget, at an
-- empty queue or at a descriptor not done.
pub ixmap_tx_clean-TxCleaned :
    (buf : Buf) (port : Port)
    → RingValid port.tx_ring port.num_tx_desc
    → let (buf', port') = ixmap_tx_clean buf port in
      (total : ℕ) × TxCleaned port.num_tx_desc port.tx_budget buf port.tx_ring 0
        (total, buf', port'.tx_ring)
      × (port'.count_tx_clean_total ≡ (port.count_tx_clean_total + total) % 2 ^ 64)
unfolding ixmap_tx_clean
ixmap_tx_clean-TxCleaned buf port valid =
    (_, tx_clean_loop-TxCleaned port.num_tx_desc port.tx_budget buf port.tx_ring 0 valid, refl)
