-- ===== src/Driver/Rings.antt =====
-- The descriptor rings of lib/driver.h as queues of packet slots: what stands between
-- `next_to_clean` and `next_to_use`.
use ixmap.Base.{
  ℕ, zero, suc, ◌+◌, ◌-◌, ◌^◌, ◌<◌, ◌≡◌, ◌≢◌, ◌↔◌, refl, ap, ◌∙◌, ap₂, update_same, update_other,
  List, [], ◌∷◌, ◌++◌, arith, ltb, if◌then◌else◌, update,
}
use ixmap.Driver.{Ring, ixmap_desc_unused, ring_next}

-- The `j`-th place from `s` on, around the end.
abbrev pub around : ℕ → ℕ → ℕ → ℕ
around count s j = if ltb (s + j) count then s + j else s + j - count

-- Both indices stand in the ring, whose size is below that of `uint16_t`.
abbrev pub RingValid : {D : Type 0} → Ring D → ℕ → Type 0
RingValid ring num_desc =
    (ring.next_to_use < num_desc) × (ring.next_to_clean < num_desc) × (num_desc < 2 ^ 16)

-- How many descriptors are filled and not yet cleaned.
abbrev pub pending : {D : Type 0} → Ring D → ℕ → ℕ
pending ring num_desc =
    if ltb ring.next_to_use ring.next_to_clean
    then num_desc + ring.next_to_use - ring.next_to_clean
    else ring.next_to_use - ring.next_to_clean

-- What stands at the `n` places from `i` on.
pub ring_slots : {A : Type 0} → (ℕ → A) → ℕ → ℕ → ℕ → List A
ring_slots slot_index num_desc zero i = []
ring_slots slot_index num_desc (suc n) i =
    slot_index i ∷ ring_slots slot_index num_desc n (ring_next i num_desc)

-- The slots of the filled descriptors, the oldest first.
abbrev pub queue : {D : Type 0} → Ring D → ℕ → List ℕ
queue ring num_desc = ring_slots ring.slot_index num_desc (pending ring num_desc) ring.next_to_clean

-- The slots of the filled descriptors with the descriptors, the oldest first.
abbrev pub entries : {D : Type 0} → Ring D → ℕ → List (ℕ × D)
entries ring num_desc =
    ring_slots (λ i. (ring.slot_index i, ring.desc i)) num_desc (pending ring num_desc)
      ring.next_to_clean

ring_next-eq :
    (i num_desc : ℕ)
    → i < num_desc
    → num_desc < 2 ^ 16
    → ring_next i num_desc ≡ (if ltb (i + 1) num_desc then i + 1 else 0)
unfolding ring_next
ring_next-eq i num_desc h w = ground arith

-- One place more, where `f'` differs from `f` at this place only.
module _ {A : Type 0} (f f' : ℕ → A) (num_desc u : ℕ) (s : A) (w : num_desc < 2 ^ 16)
    (here : f' u ≡ s) (elsewhere : (i : ℕ) → i ≢ u → f' i ≡ f i) where
  ring_slots-push :
      (n i : ℕ)
      → i < num_desc
      → n < num_desc
      → around num_desc i n ≡ u
      → ring_slots f' num_desc (suc n) i ≡ ring_slots f num_desc n i ++ (s ∷ [])
  unfolding ring_slots
  ring_slots-push zero i h k e =
      let same : i ≡ u = ground arith in ap (λ x. x ∷ []) (ap f' same ∙ here)
  ring_slots-push (suc n) i h k e =
      let next = ring_next-eq i num_desc h w in
      ap₂ (λ a b. a ∷ b) (elsewhere i (λ same. ground arith))
        (ring_slots-push n (ring_next i num_desc) (ground arith) (omega arith) (ground arith))

module _ {D : Type 0} (ring : Ring D) (num_desc : ℕ) (valid : RingValid ring num_desc) where
  -- ixmap_desc_unused leaves one descriptor of the ring free besides those that are pending, so
  -- that a full ring is not taken for an empty one; it is 0 exactly if all others are pending.
  pub ixmap_desc_unused-pending :
      (ixmap_desc_unused ring num_desc + pending ring num_desc + 1 ≡ num_desc)
      × ((ring.next_to_clean ≡ ring.next_to_use) ↔ (pending ring num_desc ≡ 0))
  unfolding ixmap_desc_unused
  ixmap_desc_unused-pending = (ground arith, (λ e. ground arith, λ e. ground arith))

  -- A descriptor filled at `next_to_use` stands at the end of the queue.
  pub queue-push :
      (desc : D) (slot : ℕ)
      → ixmap_desc_unused ring num_desc ≢ 0
      → let ring' : Ring D = record ring {
        slot_index = update ring.slot_index ring.next_to_use slot;
        desc = update ring.desc ring.next_to_use desc;
        next_to_use = ring_next ring.next_to_use num_desc;
      } in
        RingValid ring' num_desc
        × (pending ring' num_desc ≡ suc (pending ring num_desc))
        × (queue ring' num_desc ≡ queue ring num_desc ++ (slot ∷ []))
        × (entries ring' num_desc ≡ entries ring num_desc ++ ((slot, desc) ∷ []))
  queue-push desc slot room =
      let u = ring.next_to_use in
      let next = ring_next-eq u num_desc valid.0 valid.2 in
      let count = ixmap_desc_unused-pending.0 in
      let slots = update ring.slot_index u slot in
      let descs = update ring.desc u desc in
      let ring' : Ring D = record ring {
        slot_index = slots;
        desc = descs;
        next_to_use = ring_next u num_desc;
      } in
      let more : pending ring' num_desc ≡ suc (pending ring num_desc) = ground arith in
      let n = pending ring num_desc in
      let i = ring.next_to_clean in
      let slot_here = update_same ring.slot_index u slot in
      let slot_else = λ (k : ℕ) (other : k ≢ u). update_other ring.slot_index u k slot other in
      (
        (ground arith, valid.1, valid.2),
        more,
        rw more (
            ring_slots-push ring.slot_index slots num_desc u slot valid.2 slot_here slot_else n i
              valid.1 (omega arith) (ground arith)),
        rw more (
            ring_slots-push (λ k. (ring.slot_index k, ring.desc k)) (λ k. (slots k, descs k))
              num_desc u (slot, desc) valid.2
              (ap₂ (λ a b. (a, b)) slot_here (update_same ring.desc u desc))
              (λ k other.
                ap₂ (λ a b. (a, b)) (slot_else k other) (update_other ring.desc u k desc other))
              n i valid.1 (omega arith) (ground arith)),
      )

  -- Cleaning the descriptor at `next_to_clean` takes the oldest slot out of the queue.
  pub queue-pop :
      ring.next_to_clean ≢ ring.next_to_use
      → let ring' : Ring D = record ring {
        next_to_clean = ring_next ring.next_to_clean num_desc;
      } in
        RingValid ring' num_desc
        × (queue ring num_desc ≡ ring.slot_index ring.next_to_clean ∷ queue ring' num_desc)
        × (entries ring num_desc
            ≡ (ring.slot_index ring.next_to_clean, ring.desc ring.next_to_clean)
              ∷ entries ring' num_desc)
  unfolding ring_slots
  queue-pop some_there =
      let next = ring_next-eq ring.next_to_clean num_desc valid.1 valid.2 in
      let ring' : Ring D = record ring { next_to_clean = ring_next ring.next_to_clean num_desc } in
      let less : pending ring num_desc ≡ suc (pending ring' num_desc) = ground arith in
      ((valid.0, ground arith, valid.2), rw less refl, rw less refl)
