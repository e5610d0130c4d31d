-- ===== src/Driver/Slots.antt =====
-- The packet slots of lib/driver.c: ixmap_slot_assign and ixmap_slot_release on the slots that a
-- port receives into, `count` of them from `rx_slot_offset` on.
use ixmap.Base.{
  ℕ, zero, suc, ◌+◌, ◌-◌, ◌≤◌, ◌<◌, ◌≡◌, refl, sym, ◌∙◌, ◌⊎◌, subst, none, some, some-injective,
  arith, ◌==◌, ltb, if◌then◌else◌, update, bit_and, bit_or, bit_and-one, bit_or-one, Bool-cases,
  Option-cases, inl, inr, Bool, true, false,
}
use ixmap.Driver.Rings.{around}
use ixmap.Driver.{Buf, Port, slot_inflight, find_slot, ixmap_slot_assign, ixmap_slot_release}

-- Whether a packet holds the slot.
abbrev pub in_flight : Buf → ℕ → Bool
in_flight buf i = if bit_and (buf.slots i) slot_inflight == 0 then false else true

-- The next slot to try is one of the port's.
abbrev pub SlotValid : Buf → Port → Type 0
SlotValid buf port = port.rx_slot_next < buf.count

module _ (buf : Buf) (offset : ℕ) where
  find_slot-none :
      (n s j : ℕ)
      → s < buf.count
      → n ≤ buf.count
      → j < n
      → find_slot buf offset n s ≡ none
      → in_flight buf (offset + around buf.count s j) ≡ true
  unfolding find_slot
  find_slot-none zero s j lt le h e = absurd (omega arith)
  find_slot-none (suc n) s zero lt le h e = ground arith
  find_slot-none (suc n) s (suc j) lt le h e =
      let s' = if s + 1 == buf.count then 0 else s + 1 in
      let rest : find_slot buf offset n s' ≡ none = ground arith in
      let ih = find_slot-none n s' j (ground arith) (omega arith) (omega arith) rest in
      let same : around buf.count s' j ≡ around buf.count s (suc j) = ground arith in rw (← same) ih

  find_slot-some :
      (n s k : ℕ)
      → s < buf.count
      → find_slot buf offset n s ≡ some k
      → (k < buf.count) × (in_flight buf (offset + k) ≡ false)
  unfolding find_slot
  find_slot-some zero s k lt e = absurd (ground arith)
  find_slot-some (suc n) s k lt e =
      let s' = if s + 1 == buf.count then 0 else s + 1 in
      elim (Bool-cases (bit_and (buf.slots (offset + s)) slot_inflight == 0)) [
        | inl free ↦
            let same = some-injective _ _ (rw (free, find_slot) at e) in
            (omega arith, rw (← same) (ground arith))
        | inr busy ↦ find_slot-some n s' k (ground arith) (rw (busy, find_slot) at e)
      ]

-- A free slot of the port's, marked as in flight.
abbrev pub Assigned : Buf → Port → ℕ × Buf × Port → Type 0
Assigned buf port (slot, buf', port') =
    (port.rx_slot_offset ≤ slot)
    × (slot < port.rx_slot_offset + buf.count)
    × (in_flight buf slot ≡ false)
    × ((i : ℕ) → in_flight buf' i ≡ (if i == slot then true else in_flight buf i))
    × SlotValid buf' port'
    × (port' ≡ record port { rx_slot_next = port'.rx_slot_next })
    × (buf' ≡ record buf { slots = buf'.slots })

-- The slots and the port after the `k`-th slot of the port's is taken.
abbrev pub take_slot : Buf → ℕ → Buf
take_slot buf slot = record buf {
  slots = update buf.slots slot (bit_or (buf.slots slot) slot_inflight);
}

abbrev pub step_slot : Buf → Port → ℕ → Port
step_slot buf port k = record port { rx_slot_next = if k + 1 == buf.count then 0 else k + 1 }

pub Assigned-take_slot :
    (buf : Buf) (port : Port) (k : ℕ)
    → k < buf.count
    → in_flight buf (port.rx_slot_offset + k) ≡ false
    → let slot = port.rx_slot_offset + k in
      Assigned buf port (slot, take_slot buf slot, step_slot buf port k)
Assigned-take_slot buf port k lt free = (
  omega arith,
  omega arith,
  free,
  λ i.
      let slot = port.rx_slot_offset + k in
      ground
        (arith, bit_or-one (buf.slots slot), bit_and-one (bit_or (buf.slots slot) slot_inflight)),
  ground arith,
  refl,
  refl,
)

module _ (buf : Buf) (port : Port) (valid : SlotValid buf port) where
  -- ixmap_slot_assign fails only if every slot of the port is in flight.
  pub ixmap_slot_assign-eq-none :
      ixmap_slot_assign buf port ≡ none
      → (k : ℕ) → k < buf.count
      → in_flight buf (port.rx_slot_offset + k) ≡ true
  unfolding ixmap_slot_assign
  ixmap_slot_assign-eq-none e k h =
      let s = port.rx_slot_next in
      let j = if ltb k s then k + buf.count - s else k - s in
      elim (Option-cases (find_slot buf port.rx_slot_offset buf.count s)) [
        | inr (slot, f) ↦ absurd (ground arith)
        | inl f ↦
            let same : around buf.count s j ≡ k = ground arith in
            rw (← same) (
              find_slot-none buf port.rx_slot_offset buf.count s j valid (omega arith)
                (ground arith) f)
      ]

  pub ixmap_slot_assign-cases :
      (ixmap_slot_assign buf port ≡ none)
      ⊎ ((k : ℕ) × (k < buf.count)
          × (in_flight buf (port.rx_slot_offset + k) ≡ false)
          × (let slot = port.rx_slot_offset + k in
              ixmap_slot_assign buf port ≡ some (slot, take_slot buf slot, step_slot buf port k)))
  unfolding ixmap_slot_assign
  ixmap_slot_assign-cases =
      elim (Option-cases (find_slot buf port.rx_slot_offset buf.count port.rx_slot_next)) [
        | inl f ↦ inl (rw (ixmap_slot_assign, f) refl)
        | inr (k, f) ↦
            let (lt, free) =
              find_slot-some buf port.rx_slot_offset buf.count port.rx_slot_next k valid f in
            inr (k, lt, free, rw (ixmap_slot_assign, f) refl)
      ]

  -- ixmap_slot_assign that succeeds gives a slot of the port's that no packet held: now it is in
  -- flight, every other slot is as it was, and of the port only the next slot to try is changed,
  -- which is one of the port's again.
  pub ixmap_slot_assign-Assigned :
      (r : ℕ × Buf × Port) → ixmap_slot_assign buf port ≡ some r → Assigned buf port r
  ixmap_slot_assign-Assigned r e = elim ixmap_slot_assign-cases [
    | inl f ↦ absurd (cc)
    | inr (k, lt, free, f) ↦
        subst (Assigned buf port) (some-injective _ _ (sym f ∙ e))
          (Assigned-take_slot buf port k lt free)
  ]

-- ixmap_slot_release of the slot that ixmap_slot_assign gave leaves every slot in flight or
-- free as before.
ixmap_slot_release-ixmap_slot_assign :
    (buf : Buf) (port : Port) (slot : ℕ) (buf' : Buf) (port' : Port)
    → SlotValid buf port
    → ixmap_slot_assign buf port ≡ some (slot, buf', port')
    → (i : ℕ) → in_flight (ixmap_slot_release buf' slot) i ≡ in_flight buf i
unfolding ixmap_slot_release
ixmap_slot_release-ixmap_slot_assign buf port slot buf' port' valid e i =
    let (lo, hi, free, flags, ok, same, same_buf) =
      ixmap_slot_assign-Assigned buf port valid (slot, buf', port') e in
    ground (arith, flags i)
