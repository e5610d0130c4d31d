-- ===== src/Driver/Receive.antt =====
-- The receive ring as a queue of packet slots: ixmap_rx_assign puts free slots in, ixmap_rx_clean
-- hands the oldest to the caller.
use ixmap.Base.{
  ℕ, zero, suc, ◌+◌, ◌%◌, ◌^◌, ◌≤◌, ◌<◌, ◌≡◌, ◌⊎◌, inl, inr, refl, sym, ap, ◌∙◌, List, [], ◌∷◌,
  ◌++◌, Bool, true, false, arith, ◌==◌, update, length, map, Bool-cases, ◌||◌, append-nil,
  append_assoc, bit_and-one, if◌then◌else◌, All, ◌/◌, ◌*◌,
}
use ixmap.Driver.{
  RxDesc, Ring, Buf, Port, Packet, stat_dd, ixmap_desc_unused, ixmap_test_staterr, ring_next,
  ixmap_slot_addr_dma, ixmap_slot_addr_virt,
}
use ixmap.Driver.Rx.{rx_assign_loop, ixmap_rx_assign, rx_clean_loop, ixmap_rx_clean}
use ixmap.Driver.Rings.{RingValid, queue, entries, queue-push, queue-pop, ixmap_desc_unused-pending}
use ixmap.Driver.Slots.{
  in_flight, SlotValid, ixmap_slot_assign-eq-none, Assigned-take_slot, take_slot, step_slot,
  ixmap_slot_assign-cases,
}

-- Whether the hardware has done the descriptor: the lowest bit of `status_error`.
abbrev pub rx_done : RxDesc → Bool
rx_done desc = desc.upper % 2 == 1

rx_done-test :
    (desc : RxDesc)
    → (ixmap_test_staterr desc stat_dd == 0) ≡ (if rx_done desc then false else true)
unfolding ixmap_test_staterr
rx_done-test desc = ground (arith, bit_and-one (desc.upper % 2 ^ 32))

abbrev pub slots_of : List Packet → List ℕ
slots_of packets = map (λ (p : Packet). p.slot_index) packets

-- The packet of a slot and its descriptor: the slot's address, and the length that the hardware
-- wrote, the third 16 bits of the second quad word.
abbrev pub packet_of : Buf → ℕ × RxDesc → Packet
packet_of buf (slot, desc) = record {
  slot_buf = ixmap_slot_addr_virt buf slot;
  slot_size = desc.upper / 2 ^ 32 % 2 ^ 16;
  slot_index = slot;
}

-- The packets are those of the oldest entries, all of them done, and as many as the budget, the
-- queue and the hardware allow. Of the ring only `next_to_clean` is changed.
abbrev pub RxCleaned : Buf → ℕ → ℕ → Ring RxDesc → List Packet × Ring RxDesc → Type 0
RxCleaned buf num_desc budget ring (packets, ring') =
    (queue ring num_desc ≡ slots_of packets ++ queue ring' num_desc)
    × ((taken : List (ℕ × RxDesc)) × (entries ring num_desc ≡ taken ++ entries ring' num_desc)
        × (packets ≡ map (packet_of buf) taken)
        × All (λ (e : ℕ × RxDesc). rx_done e.1 ≡ true) taken)
    × (length packets ≤ budget)
    × RingValid ring' num_desc
    × (ring' ≡ record ring { next_to_clean = ring'.next_to_clean })
    × ((length packets ≡ budget)
        ⊎ ((ring'.next_to_clean ≡ ring'.next_to_use)
            ⊎ (rx_done (ring'.desc ring'.next_to_clean) ≡ false)))

rx_clean_loop-RxCleaned :
    (buf : Buf) (num_desc n : ℕ) (ring : Ring RxDesc)
    → RingValid ring num_desc
    → RxCleaned buf num_desc n ring (rx_clean_loop buf num_desc n ring)
unfolding rx_clean_loop
rx_clean_loop-RxCleaned buf num_desc zero ring valid =
    (refl, ([], refl, refl, tt), omega arith, valid, refl, inl refl)
rx_clean_loop-RxCleaned buf num_desc (suc n) ring valid =
    elim (Bool-cases (ring.next_to_clean == ring.next_to_use)) [
      | inl empty ↦
          rw empty (refl, ([], refl, refl, tt), omega arith, valid, refl, inr (inl (ground arith)))
      | inr some_there ↦
          let desc : RxDesc = ring.desc ring.next_to_clean in
          let test = rx_done-test desc in
          elim (Bool-cases (rx_done desc)) [
            | inr wait ↦
                rw (some_there, test, wait)
                  (refl, ([], refl, refl, tt), omega arith, valid, refl, inr (inr wait))
            | inl done ↦
                let (ok, first, first_entry) = queue-pop ring num_desc valid (ground arith) in
                let slot = ring.slot_index ring.next_to_clean in
                let (split, (taken, parts, packets, all_done), within, valid', same, stop) =
                  rx_clean_loop-RxCleaned buf num_desc n
                    (record ring { next_to_clean = ring_next ring.next_to_clean num_desc }) ok in
                rw (some_there, test, done)
                  (
                    first ∙ ap (λ q. slot ∷ q) split,
                    (
                      (slot, desc) ∷ taken,
                      first_entry ∙ ap (λ q. (slot, desc) ∷ q) parts,
                      ap (λ q. packet_of buf (slot, desc) ∷ q) packets,
                      (done, all_done),
                    ),
                    omega arith,
                    valid',
                    same,
                    elim stop [ inl e ↦ inl (ap suc e) | inr e ↦ inr e ],
                  )
          ]
    ]

-- ixmap_rx_clean on a valid ring returns the packets of the oldest entries of the queue, in order,
-- with their slots' addresses and the lengths that the hardware wrote. The hardware has done all of
-- their descriptors. Exactly these entries are taken out; it stops at the budget, at an empty queue or
-- at a descriptor not done.
pub ixmap_rx_clean-RxCleaned :
    (buf : Buf) (port : Port)
    → RingValid port.rx_ring port.num_rx_desc
    → let (packets, port') = ixmap_rx_clean buf port in
      RxCleaned buf port.num_rx_desc port.rx_budget port.rx_ring (packets, port'.rx_ring)
      × (port'.count_rx_clean_total ≡ (port.count_rx_clean_total + length packets) % 2 ^ 64)
unfolding ixmap_rx_clean
ixmap_rx_clean-RxCleaned buf port valid =
    (rx_clean_loop-RxCleaned buf port.num_rx_desc port.rx_budget port.rx_ring valid, refl)

-- Whether the slot is one of a list.
abbrev pub holds : List ℕ → ℕ → Bool
holds [] i = false
holds (slot ∷ slots) i = (i == slot) || holds slots i

-- Slots of the port's that no packet held, each once.
abbrev pub Unheld : Buf → Port → List ℕ → Type 0
Unheld buf port [] = Unit
Unheld buf port (slot ∷ slots) =
    (port.rx_slot_offset ≤ slot)
    × (slot < port.rx_slot_offset + buf.count)
    × (in_flight buf slot ≡ false)
    × (holds slots slot ≡ false)
    × Unheld buf port slots

-- The entry that posts a slot: the address of the slot for the device, and no status.
abbrev pub posted_entry : Buf → ℕ → ℕ → ℕ × RxDesc
posted_entry buf port_index slot = (
  slot,
  record {
    pkt_addr = (buf.addr_dma port_index + buf.buf_size * slot % 2 ^ 32) % 2 ^ 64;
    upper = 0;
  },
)

-- What ixmap_rx_assign leaves: `new` are the slots that entered the queue, with the descriptors that
-- post them; they alone are newly in flight, they are distinct slots of the port's that were free,
-- and the ring is full unless every slot of the port's is in flight.
abbrev pub RxFilled : ℕ → ℕ → Buf → Port → Buf → Port → Type 0
RxFilled port_index room buf port buf' port' =
    (new : List ℕ) × (queue port'.rx_ring port.num_rx_desc
      ≡ queue port.rx_ring port.num_rx_desc ++ new)
    × (entries port'.rx_ring port.num_rx_desc
        ≡ entries port.rx_ring port.num_rx_desc ++ map (posted_entry buf port_index) new)
    × Unheld buf port new
    × ((i : ℕ) → in_flight buf' i ≡ (holds new i || in_flight buf i))
    × (length new ≤ room)
    × RingValid port'.rx_ring port.num_rx_desc
    × SlotValid buf' port'
    × ((length new ≡ room)
        ⊎ ((k : ℕ) → k < buf.count → in_flight buf' (port.rx_slot_offset + k) ≡ true))

-- Slots that are free while one more is held were free before, and are others than this one.
Unheld-before :
    (buf : Buf) (port port₁ : Port) (slot : ℕ) (new : List ℕ)
    → port₁.rx_slot_offset ≡ port.rx_slot_offset
    → Unheld (take_slot buf slot) port₁ new
    → ((i : ℕ) → in_flight (take_slot buf slot) i ≡ (if i == slot then true else in_flight buf i))
    → Unheld buf port new × (holds new slot ≡ false)
Unheld-before buf port port₁ slot [] same u flags = (tt, refl)
Unheld-before buf port port₁ slot (s ∷ new) same (lo, hi, free, once, u) flags =
    let (u', apart) = Unheld-before buf port port₁ slot new same u flags in
    let other : (s == slot) ≡ false = ground (arith, flags s) in
    ((omega arith, omega arith, ground (arith, flags s), once, u'), ground arith)

-- The ring with one more slot posted.
abbrev posted : ℕ → Buf → Ring RxDesc → ℕ → ℕ → Ring RxDesc
posted port_index buf ring num_desc slot = record ring {
  slot_index = update ring.slot_index ring.next_to_use slot;
  desc =
      update ring.desc ring.next_to_use
        (record { pkt_addr = ixmap_slot_addr_dma buf slot port_index; upper = 0 });
  next_to_use = ring_next ring.next_to_use num_desc;
}

rx_assign_loop-RxFilled :
    (port_index n : ℕ) (buf : Buf) (port : Port) (total : ℕ)
    → RingValid port.rx_ring port.num_rx_desc
    → SlotValid buf port
    → n ≤ ixmap_desc_unused port.rx_ring port.num_rx_desc
    → let (total', buf', port') = rx_assign_loop port_index n buf port total in
      RxFilled port_index n buf port buf' port' × (total ≤ total')
unfolding rx_assign_loop ixmap_slot_addr_dma
rx_assign_loop-RxFilled port_index zero buf port total valid slots room = (
  ([], sym (append-nil _), sym (append-nil _), tt, λ i. refl, omega arith, valid, slots, inl refl),
  omega arith,
)
rx_assign_loop-RxFilled port_index (suc n) buf port total valid slots room =
    elim (ixmap_slot_assign-cases buf port slots) [
      | inl none_free ↦
          rw (rx_assign_loop, none_free)
            (
              (
                [],
                sym (append-nil _),
                sym (append-nil _),
                tt,
                λ i. refl,
                omega arith,
                valid,
                slots,
                inr (ixmap_slot_assign-eq-none buf port slots none_free),
              ),
              omega arith,
            )
      | inr (k, lt, free, e) ↦
          let slot = port.rx_slot_offset + k in
          let (lo, hi, was_free, flags, ok, same, same_buf) =
            Assigned-take_slot buf port k lt free in
          let buf₁ : Buf = take_slot buf slot in
          let stepped : Port = step_slot buf port k in
          let ring : Ring RxDesc = posted port_index buf₁ port.rx_ring port.num_rx_desc slot in
          let port₁ : Port = record stepped { rx_ring = ring } in
          let (valid₁, count, pushed, pushed_entry) =
            queue-push port.rx_ring port.num_rx_desc valid (posted_entry buf port_index slot).1 slot
              (omega arith) in
          let before = (ixmap_desc_unused-pending port.rx_ring port.num_rx_desc valid).0 in
          let after = (ixmap_desc_unused-pending ring port.num_rx_desc valid₁).0 in
          let ((new, queued, filled, unheld, held, within, valid', slots', stop), more) =
            rx_assign_loop-RxFilled port_index n buf₁ port₁ (suc total) valid₁ ok (omega arith) in
          let (fresh, apart) = Unheld-before buf port port₁ slot new refl unheld flags in
          rw (rx_assign_loop, e)
            (
              (
                slot ∷ new,
                queued
                    ∙ ap (λ q. q ++ new) pushed
                    ∙ append_assoc (queue port.rx_ring port.num_rx_desc) (slot ∷ []) new,
                filled
                    ∙ ap (λ q. q ++ map (posted_entry buf port_index) new) pushed_entry
                    ∙ append_assoc (entries port.rx_ring port.num_rx_desc)
                        (posted_entry buf port_index slot ∷ [])
                        (map (posted_entry buf port_index) new),
                (lo, hi, was_free, apart, fresh),
                λ i. ground (arith, held i, flags i),
                omega arith,
                valid',
                slots',
                elim stop [ inl full ↦ inl (ap suc full) | inr all_held ↦ inr all_held ],
              ),
              omega arith,
            )
    ]

-- The loop does not write the tail register; `next_to_use` moves only with a slot posted.
rx_assign_loop-tail :
    (port_index n : ℕ) (buf : Buf) (port : Port) (total : ℕ)
    → SlotValid buf port
    → let (total', buf', port') = rx_assign_loop port_index n buf port total in
      (port'.rx_ring.tail ≡ port.rx_ring.tail)
      × (((total' ≡ total) × (port'.rx_ring.next_to_use ≡ port.rx_ring.next_to_use))
          ⊎ (total < total'))
unfolding rx_assign_loop
rx_assign_loop-tail port_index zero buf port total slots = (refl, inl (refl, refl))
rx_assign_loop-tail port_index (suc n) buf port total slots =
    elim (ixmap_slot_assign-cases buf port slots) [
      | inl none_free ↦ rw (rx_assign_loop, none_free) (refl, inl (refl, refl))
      | inr (k, lt, free, e) ↦
          let slot = port.rx_slot_offset + k in
          let (lo, hi, was_free, flags, ok, same, same_buf) =
            Assigned-take_slot buf port k lt free in
          let buf₁ : Buf = take_slot buf slot in
          let stepped : Port = step_slot buf port k in
          let port₁ : Port = record stepped {
            rx_ring = posted port_index buf₁ port.rx_ring port.num_rx_desc slot;
          } in
          let (tail, more) = rx_assign_loop-tail port_index n buf₁ port₁ (suc total) ok in
          rw (rx_assign_loop, e)
            (tail, inr (elim more [ inl (here, next) ↦ omega arith | inr above ↦ omega arith ]))
    ]

-- The hardware is told of new descriptors: the tail register is written once, with the new
-- `next_to_use`, or this is as it was and the register is not written.
abbrev pub RxTold : Ring RxDesc → Ring RxDesc → Type 0
RxTold ring ring' =
    ((ring'.tail ≡ ring.tail) × (ring'.next_to_use ≡ ring.next_to_use))
    ⊎ (ring'.tail ≡ ring'.next_to_use ∷ ring.tail)

-- ixmap_rx_assign on a valid port: distinct slots of the port's that were free, and no others, enter
-- the ring behind those that are posted, each with its address for the device in a descriptor that
-- shows no status, until the ring is full or every slot of the port's is in flight. The tail register
-- is written with the new end of the ring, or not at all if no slot entered.
pub ixmap_rx_assign-RxFilled :
    (port_index : ℕ) (buf : Buf) (port : Port)
    → RingValid port.rx_ring port.num_rx_desc
    → SlotValid buf port
    → let (buf', port') = ixmap_rx_assign port_index buf port in
      RxFilled port_index (ixmap_desc_unused port.rx_ring port.num_rx_desc) buf port buf' port'
      × RxTold port.rx_ring port'.rx_ring
unfolding ixmap_rx_assign
ixmap_rx_assign-RxFilled port_index buf port valid slots =
    let room = ixmap_desc_unused port.rx_ring port.num_rx_desc in
    let (filled, more) =
      rx_assign_loop-RxFilled port_index room buf port 0 valid slots (omega arith) in
    let (tail, moved) = rx_assign_loop-tail port_index room buf port 0 slots in
    elim (Bool-cases (room == 0)) [
      | inl full ↦ rw full (
        (
          [],
          sym (append-nil _),
          sym (append-nil _),
          tt,
          λ i. refl,
          omega arith,
          valid,
          slots,
          inl (ground arith),
        ),
        inl (refl, refl),
      )
      | inr left ↦ elim (Bool-cases ((rx_assign_loop port_index room buf port 0).0 == 0)) [
        | inl nothing ↦
            let next : (rx_assign_loop port_index room buf port 0).2.rx_ring.next_to_use
                ≡ port.rx_ring.next_to_use =
              elim moved [ inl (same, next) ↦ next | inr above ↦ absurd (ground arith) ] in
            rw (left, nothing) (filled, inl (tail, next))
        | inr something ↦
            let ring : Ring RxDesc = (rx_assign_loop port_index room buf port 0).2.rx_ring in
            rw (left, something) (filled, inr (ap (λ t. ring.next_to_use ∷ t) tail))
      ]
    ]
