-- ===== src/Forward/Process.antt =====
-- forward_process and forward_process_tun: the slots and the transmit queues that they leave.
use ixmap.Base.{
  ℕ, ◌≤◌, ◌≡◌, ◌⊎◌, inl, inr, refl, List, [], ◌∷◌, ◌++◌, true, false, none, some, arith, ◌==◌, ltb,
  length, All, ==_iff, Option-cases, Bool-cases, append-nil, append_assoc, sym, subst, ap, ◌∙◌,
  if◌then◌else◌,
}
use ixmap.Driver.{
  Buf, Port, Packet, ixmap_slot_release, ixmap_slot_assign, ixmap_slot_addr_virt, ixmap_slot_size,
}
use ixmap.Driver.Tx.{ixmap_tx_assign}
use ixmap.Driver.Slots.{in_flight, SlotValid, ixmap_slot_assign-Assigned}
use ixmap.Driver.Rings.{RingValid, queue}
use ixmap.Driver.Transmit.{tx_refused, ixmap_tx_assign-queue}
use ixmap.Forward.Bytes.{read_bytes, read_bytes-write_bytes}
use ixmap.Forward.{
  Thread, forward_ip_process, forward_ip6_process, forward_arp_process, forward_packet, send,
  packet_drop, forward_process, forward_process_tun,
}

module _ (thread : Thread) (port : ℕ) (packet : Packet) where
  send-in_flight :
      (i : ℕ) → in_flight thread.buf i ≡ false → in_flight (send thread port packet).buf i ≡ false
  unfolding send ixmap_tx_assign ixmap_slot_release
  send-in_flight i free = ground arith

module _ (thread : Thread) (port_index : ℕ) (packet : Packet) where
  -- The decision about a frame changes no slot and no port.
  forward_packet-buf :
      ((forward_packet thread port_index packet).1.buf ≡ thread.buf)
      × ((forward_packet thread port_index packet).1.ports ≡ thread.ports)
  unfolding forward_packet forward_arp_process forward_ip_process forward_ip6_process
  forward_packet-buf = ground arith

  -- A packet that forward_process takes leaves its slot free, sent or not.
  round_frees :
      let (ret, thread') = forward_packet thread port_index packet in
      let sent : Thread = elim ret [ none ↦ thread' | some port ↦ send thread' port packet ] in
      (i : ℕ)
      → ((in_flight thread.buf i ≡ false) ⊎ (i ≡ packet.slot_index))
      → in_flight (packet_drop sent packet).buf i ≡ false
  unfolding ixmap_slot_release
  round_frees i (inr same) = ground arith
  round_frees i (inl free) =
      let (ret, thread') = forward_packet thread port_index packet in
      let kept : in_flight thread'.buf i ≡ false = rw (forward_packet-buf.0) free in
      elim (Option-cases ret) [
        | inl e ↦ rw e (ground arith)
        | inr (port, e) ↦
            let still = send-in_flight thread' port packet i kept in rw e (ground arith)
      ]

frees_still :
    (port_index i : ℕ) (packets : List Packet) (thread : Thread)
    → in_flight thread.buf i ≡ false
    → in_flight (forward_process thread port_index packets).buf i ≡ false
unfolding forward_process
frees_still port_index i [] thread free = free
frees_still port_index i (packet ∷ packets) thread free =
    frees_still port_index i packets _ (round_frees thread port_index packet i (inl free))

-- After forward_process the slot of every packet that it was given is free, also of those that it
-- put into a transmit queue.
pub forward_process-frees :
    (port_index : ℕ) (packets : List Packet) (thread : Thread)
    → All
        (λ (p : Packet).
          in_flight (forward_process thread port_index packets).buf p.slot_index ≡ false)
        packets
unfolding forward_process
forward_process-frees port_index [] thread = tt
forward_process-frees port_index (packet ∷ packets) thread = (
  frees_still port_index packet.slot_index packets _
      (round_frees thread port_index packet packet.slot_index (inr refl)),
  forward_process-frees port_index packets _,
)

-- The transmit rings of all ports are valid.
abbrev pub TxValid : Thread → Type 0
TxValid thread = (q : ℕ) → RingValid (thread.ports q).tx_ring (thread.ports q).num_tx_desc

-- From one state to the next the queue of a port only grows, at its end.
abbrev Grows : Thread → Thread → ℕ → Type 0
Grows thread thread' q =
    ((thread'.ports q).num_tx_desc ≡ (thread.ports q).num_tx_desc)
    × RingValid (thread'.ports q).tx_ring (thread.ports q).num_tx_desc
    × ((more : List ℕ) × (queue (thread'.ports q).tx_ring (thread.ports q).num_tx_desc
          ≡ queue (thread.ports q).tx_ring (thread.ports q).num_tx_desc ++ more))

Grows-same : (thread : Thread) (q : ℕ) → TxValid thread → Grows thread thread q
Grows-same thread q valid = (refl, valid q, ([], sym (append-nil _)))

Grows-valid : (thread thread' : Thread) → ((q : ℕ) → Grows thread thread' q) → TxValid thread'
Grows-valid thread thread' g q =
    let (num, ok, grown) = g q in subst (λ n. RingValid (thread'.ports q).tx_ring n) (sym num) ok

Grows-trans : (a b c : Thread) (q : ℕ) → Grows a b q → Grows b c q → Grows a c q
Grows-trans a b c q (num, ok, (more, grown)) (num', ok', (more', grown')) =
    let same : (b.ports q).num_tx_desc ≡ (a.ports q).num_tx_desc = num in
    (
      num' ∙ num,
      subst (λ n. RingValid (c.ports q).tx_ring n) same ok',
      (
        more ++ more',
        subst (λ n. queue (c.ports q).tx_ring n ≡ queue (b.ports q).tx_ring n ++ more') same grown'
            ∙ ap (λ xs. xs ++ more') grown
            ∙ append_assoc (queue (a.ports q).tx_ring (a.ports q).num_tx_desc) more more',
      ),
    )

ixmap_tx_assign-num_tx_desc :
    (port_index : ℕ) (buf : Buf) (port : Port) (packet : Packet)
    → (ixmap_tx_assign port_index buf port packet).1.num_tx_desc ≡ port.num_tx_desc
unfolding ixmap_tx_assign
ixmap_tx_assign-num_tx_desc port_index buf port packet = ground arith

-- The packet that was put at the end of the queue, or nothing.
abbrev entered : Port → Packet → List ℕ
entered port packet = if tx_refused port packet then [] else packet.slot_index ∷ []

send-Grows_here :
    (thread : Thread) (port : ℕ) (packet : Packet)
    → TxValid thread
    → Grows thread (send thread port packet) port
unfolding send
send-Grows_here thread port packet valid =
    let here : (port == port) ≡ true = (==_iff port port).1 refl in
    let old : Port = thread.ports port in
    let (ok, queued, held, ring_same, tail_same) =
      ixmap_tx_assign-queue port thread.buf old packet (valid port) in
    let grown : queue (ixmap_tx_assign port thread.buf old packet).1.tx_ring old.num_tx_desc
        ≡ queue old.tx_ring old.num_tx_desc ++ entered old packet =
      elim (Bool-cases (tx_refused old packet)) [
        | inl refused ↦ rw refused ((rw refused at queued) ∙ sym (append-nil _))
        | inr put ↦ rw put (rw put at queued)
      ] in
    rw here
      (ixmap_tx_assign-num_tx_desc port thread.buf old packet, ok, (entered old packet, grown))

send-Grows :
    (thread : Thread) (port : ℕ) (packet : Packet) (q : ℕ)
    → TxValid thread
    → Grows thread (send thread port packet) q
unfolding send
send-Grows thread port packet q valid = elim (Bool-cases (q == port)) [
  | inr away ↦ rw away (Grows-same thread q valid)
  | inl here ↦
      subst (Grows thread (send thread port packet)) (sym ((==_iff q port).0 here))
        (send-Grows_here thread port packet valid)
]

-- One packet of the batch.
abbrev round : Thread → ℕ → Packet → Thread
round thread port_index packet =
    let (ret, thread') = forward_packet thread port_index packet in
    let sent : Thread = elim ret [ none ↦ thread' | some port ↦ send thread' port packet ] in
    packet_drop sent packet

round-Grows :
    (thread : Thread) (port_index : ℕ) (packet : Packet) (q : ℕ)
    → TxValid thread
    → Grows thread (round thread port_index packet) q
round-Grows thread port_index packet q valid =
    let (ret, thread') = forward_packet thread port_index packet in
    let same = (forward_packet-buf thread port_index packet).1 in
    let valid' : TxValid thread' = rw same valid in
    let kept : Grows thread thread' q = rw same (Grows-same thread q valid) in
    elim (Option-cases ret) [
      | inl e ↦ rw e kept
      | inr (port, e) ↦ rw e (
          Grows-trans thread thread' (send thread' port packet) q kept
            (send-Grows thread' port packet q valid'))
    ]

forward_process-Grows :
    (port_index : ℕ) (packets : List Packet) (thread : Thread) (q : ℕ)
    → TxValid thread
    → Grows thread (forward_process thread port_index packets) q
unfolding forward_process
forward_process-Grows port_index [] thread q valid = Grows-same thread q valid
forward_process-Grows port_index (packet ∷ packets) thread q valid =
    let next : Thread = round thread port_index packet in
    let step = λ (k : ℕ). round-Grows thread port_index packet k valid in
    Grows-trans thread next (forward_process next port_index packets) q (step q)
      (forward_process-Grows port_index packets next q (Grows-valid thread next step))

forward_process-append :
    (port_index : ℕ) (before after : List Packet) (thread : Thread)
    → forward_process thread port_index (before ++ after)
      ≡ forward_process (forward_process thread port_index before) port_index after
unfolding forward_process
forward_process-append port_index [] after thread = refl
forward_process-append port_index (packet ∷ before) after thread =
    forward_process-append port_index before after (round thread port_index packet)

round-queue :
    (port_index port : ℕ) (thread : Thread) (packet : Packet)
    → TxValid thread
    → (forward_packet thread port_index packet).0 ≡ some port
    → tx_refused (thread.ports port) packet ≡ false
    → let n = (thread.ports port).num_tx_desc in
      queue ((round thread port_index packet).ports port).tx_ring n
      ≡ queue (thread.ports port).tx_ring n ++ (packet.slot_index ∷ [])
unfolding send
round-queue port_index port thread packet valid sent taken =
    let old : Port = thread.ports port in
    let here : (port == port) ≡ true = (==_iff port port).1 refl in
    let (buf_same, ports_same) = forward_packet-buf thread port_index packet in
    let (ok, queued, held, ring_same, tail_same) =
      ixmap_tx_assign-queue port thread.buf old packet (valid port) in
    rw (sent, buf_same, ports_same, here) (rw taken at queued)

-- A batch with a packet in it, on ports with valid transmit rings: `reached` is the state when its
-- turn comes, after the packets before it. If it is sent to a port then, and not refused there, it
-- stands in that port's queue after forward_process, behind what stood there before the batch and
-- what the earlier packets put there, and before what the later ones do; but its slot is free.
pub forward_process-queue :
    (port_index port : ℕ) (thread : Thread) (before after : List Packet) (packet : Packet)
    → TxValid thread
    → let reached = forward_process thread port_index before in
      (forward_packet reached port_index packet).0 ≡ some port
      → tx_refused (reached.ports port) packet ≡ false
      → let n = (thread.ports port).num_tx_desc in
        let thread' = forward_process thread port_index (before ++ (packet ∷ after)) in
        (earlier : List ℕ) × (later : List ℕ) × (queue (thread'.ports port).tx_ring n
          ≡ ((queue (thread.ports port).tx_ring n ++ earlier) ++ (packet.slot_index ∷ [])) ++ later)
        × (queue (reached.ports port).tx_ring n ≡ queue (thread.ports port).tx_ring n ++ earlier)
        × (in_flight thread'.buf packet.slot_index ≡ false)
unfolding forward_process
forward_process-queue port_index port thread before after packet valid sent taken =
    let reached : Thread = forward_process thread port_index before in
    let next : Thread = round reached port_index packet in
    let grown = λ (q : ℕ). forward_process-Grows port_index before thread q valid in
    let valid₁ = Grows-valid thread reached grown in
    let step = λ (q : ℕ). round-Grows reached port_index packet q valid₁ in
    let (num, ok, (earlier, put)) = grown port in
    let (num₁, ok₁, grown₁) = step port in
    let (num₂, ok₂, (later, put₂)) =
      forward_process-Grows port_index after next port (Grows-valid reached next step) in
    let here = round-queue port_index port reached packet valid₁ sent taken in
    let ring = λ (t : Thread). (t.ports port).tx_ring in
    let whole = forward_process-append port_index before (packet ∷ after) thread in
    let all : queue (ring (forward_process next port_index after)) (thread.ports port).num_tx_desc
        ≡ ((queue (ring thread) (thread.ports port).num_tx_desc ++ earlier)
            ++ (packet.slot_index ∷ []))
          ++ later =
      subst
        (λ n. queue (ring (forward_process next port_index after)) n ≡ queue (ring next) n ++ later)
        (num₁ ∙ num) put₂
      ∙ ap (λ xs. xs ++ later)
          (subst (λ n. queue (ring next) n ≡ queue (ring reached) n ++ (packet.slot_index ∷ [])) num
              here
            ∙ ap (λ xs. xs ++ (packet.slot_index ∷ [])) put) in
    (
      earlier,
      later,
      ap (λ t. queue (ring t) (thread.ports port).num_tx_desc) whole ∙ all,
      put,
      ap (λ (t : Thread). in_flight t.buf packet.slot_index) whole
          ∙ (forward_process-frees port_index (packet ∷ after) reached).0,
    )

-- forward_process_tun with a frame that fits a slot, a free slot and room in a valid transmit
-- ring: the frame stands in that slot, the slot is held, and it is the last of the ring's queue.
pub forward_process_tun-queue :
    (thread : Thread) (port_index : ℕ) (read_buf : List ℕ) (slot : ℕ) (buf : Buf) (port : Port)
    → length read_buf ≤ ixmap_slot_size thread.buf
    → SlotValid thread.buf (thread.ports port_index)
    → ixmap_slot_assign thread.buf (thread.ports port_index) ≡ some (slot, buf, port)
    → RingValid port.tx_ring port.num_tx_desc
    → (let slot_buf = ixmap_slot_addr_virt buf slot in
        tx_refused port
          (record { slot_buf = slot_buf; slot_size = length read_buf; slot_index = slot })
        ≡ false)
    → let thread' = forward_process_tun thread port_index read_buf in
      let after : Port = thread'.ports port_index in
      (queue after.tx_ring port.num_tx_desc ≡ queue port.tx_ring port.num_tx_desc ++ (slot ∷ []))
      × (read_bytes thread'.mem (ixmap_slot_addr_virt buf slot) (length read_buf) ≡ read_buf)
      × (in_flight thread'.buf slot ≡ true)
unfolding forward_process_tun send
forward_process_tun-queue thread port_index read_buf slot buf port fits slots assigned valid taken =
    let slot_buf = ixmap_slot_addr_virt buf slot in
    let packet : Packet = record {
      slot_buf = slot_buf;
      slot_size = length read_buf;
      slot_index = slot;
    } in
    let small : ltb (ixmap_slot_size thread.buf) (length read_buf) ≡ false = ground arith in
    let (ok, queued, held, ring_same, tail_same) =
      ixmap_tx_assign-queue port_index buf port packet valid in
    let (lo, hi, was_free, flags, next_ok, port_same, buf_same) =
      ixmap_slot_assign-Assigned thread.buf (thread.ports port_index) slots (slot, buf, port)
        assigned in
    let here : (port_index == port_index) ≡ true = (==_iff port_index port_index).1 refl in
    rw (small, assigned, here)
      (
        rw taken at queued,
        read_bytes-write_bytes thread.mem slot_buf read_buf,
        rw (rw taken at held) (ground (arith, flags slot)),
      )
