-- ===== src/Adapter/Life.antt =====
-- The life of an adapter of kmod/ixmap_main.c: up, down, and the interrupts that a user assigns.
use ixmap.Base.{
  ℕ, ◌+◌, ◌-◌, ◌≤◌, ◌≡◌, ◌⊎◌, refl, ap, sym, ◌∙◌, List, [], ◌∷◌, Bool, true, false, none, some,
  arith, length, Bool-cases, inl, inr,
}
use ixmap.Hw.{Regs, max_eitr}
use ixmap.Dma.{Area}
use ixmap.Adapter.{
  max_rss_indices, Irq, live, freed, IrqArray, Held, Adapter, MacOps, MsixCalls, free_irqs,
  free_array, ixmap_free_msix, ixmap_up, ixmap_down, entries_there, quiesce, finish_up,
  ixmap_setup_gpie, ixmap_take_hw_control,
}
use ixmap.Adapter.Grants.{
  Grants, Grants-Decreasing, Grants-frame, done_of, ixmap_configure_msix-granted,
}
use ixmap.Adapter.Irqs.{
  contexts_of, nothing_held, HasIrqs, Unchanged, Decreasing, ixmap_configure_msix-Configured,
}

-- The bounds that ixmap_cmd_up enforces.
abbrev pub InBounds : Adapter → Type 0
InBounds a =
    (a.num_rx_queues ≤ max_rss_indices)
    × (a.num_tx_queues ≤ max_rss_indices)
    × (a.num_interrupt_rate ≤ max_eitr)

-- Down: no queue, and nothing held.
abbrev pub IsIdle : Adapter → Type 0
IsIdle a =
    (a.num_rx_queues ≡ 0)
    × (a.num_tx_queues ≡ 0)
    × (a.num_interrupt_rate ≡ 0)
    × (a.held ≡ nothing_held)

abbrev pub IsReady : Bool → Adapter → Type 0
IsReady true a = InBounds a × HasIrqs a
IsReady false a = IsIdle a

-- The registers are mapped; up, each queue has its interrupt; down, nothing is held.
abbrev pub IsSound : Adapter → Type 0
IsSound a = (a.registers ≡ true) × IsReady a.up a

free_irqs-eq :
    (irqs : List Irq) (n m k : ℕ) (held : Held)
    → held.irqs ≡ n + length irqs
    → held.handlers ≡ m + length irqs
    → held.contexts ≡ k + contexts_of irqs
    → free_irqs (length irqs) irqs held
      ≡ some (record held { irqs = n; handlers = m; contexts = k })
unfolding free_irqs
free_irqs-eq [] n m k held e f g = ground arith
free_irqs-eq (irq ∷ irqs) n m k held e f g =
    free_irqs-eq irqs n m k _ (omega arith) (omega arith) (omega arith)

free_array-eq :
    (array : IrqArray) (irqs : List Irq) (count n m k : ℕ) (held : Held)
    → array ≡ live irqs
    → length irqs ≡ count
    → held.irqs ≡ n + length irqs
    → held.handlers ≡ m + length irqs
    → held.contexts ≡ k + contexts_of irqs
    → free_array count array held
      ≡ some (record held { arrays = held.arrays - 1; irqs = n; handlers = m; contexts = k })
free_array-eq array irqs count n m k held a l e f g =
    rw (a, ← l, free_array, free_irqs-eq irqs n m k held e f g) refl

-- ixmap_free_msix gives back all.
ixmap_free_msix-eq :
    (a : Adapter)
    → HasIrqs a
    → ixmap_free_msix a
      ≡ some (record a {
        rx_irq = freed;
        tx_irq = freed;
        msix_entries = none;
        num_q_vectors = 0;
        held = nothing_held;
      })
unfolding ixmap_free_msix
ixmap_free_msix-eq a has =
    let first =
      free_array-eq a.rx_irq has.rx_list a.num_rx_queues (length has.tx_list) (length has.tx_list)
        (contexts_of has.tx_list) a.held has.rx_live has.rx_length (ground arith) (ground arith)
        (ground arith) in
    let second =
      free_array-eq a.tx_irq has.tx_list a.num_tx_queues 0 0 0
        (record a.held {
          arrays = a.held.arrays - 1;
          irqs = length has.tx_list;
          handlers = length has.tx_list;
          contexts = contexts_of has.tx_list;
        })
        has.tx_live has.tx_length (ground arith) (ground arith) (ground arith) in
    rw (ixmap_free_msix, first, second) (ground arith)

-- What stands outside of the interrupts.
pub HasIrqs-frame :
    (a : Adapter) (up registers : Bool) (refcount : ℕ) (regs : Regs) (areas : List Area)
    (speed duplex : ℕ)
    → HasIrqs a
    → HasIrqs (record a {
      up = up;
      registers = registers;
      refcount = refcount;
      regs = regs;
      areas = areas;
      link_speed = speed;
      link_duplex = duplex;
    })
HasIrqs-frame a up registers refcount regs areas speed duplex has = record {
  rx_list = has.rx_list;
  tx_list = has.tx_list;
  vectors = has.vectors;
  rx_live = has.rx_live;
  tx_live = has.tx_live;
  rx_length = has.rx_length;
  tx_length = has.tx_length;
  entries = has.entries;
  counted = has.counted;
  holds = has.holds;
}

HasIrqs-regs :
    (a : Adapter) (regs : Regs) (up : Bool)
    → HasIrqs a
    → HasIrqs (record a { regs = regs; up = up })
HasIrqs-regs a regs up has =
    HasIrqs-frame a up a.registers a.refcount regs a.areas a.link_speed a.link_duplex has

module _ (ops : MacOps) where
  -- ixmap_down of a device that is up does not fail, and the device is down and holds nothing.
  pub ixmap_down-IsIdle :
      (online : Bool) (a : Adapter)
      → a.registers ≡ true
      → HasIrqs a
      → (a' : Adapter) × (ixmap_down ops online a ≡ some a')
        × (a'.up ≡ false)
        × IsIdle a'
        × (a' ≡ record a {
          up = false;
          num_rx_queues = 0;
          num_tx_queues = 0;
          num_interrupt_rate = 0;
          regs = a'.regs;
          msix_entries = a'.msix_entries;
          num_q_vectors = a'.num_q_vectors;
          rx_irq = a'.rx_irq;
          tx_irq = a'.tx_irq;
          held = a'.held;
        })
  unfolding ixmap_down
  ixmap_down-IsIdle online a r has =
      let regs = quiesce ops online a.regs in
      let there : entries_there a.msix_entries a.num_q_vectors ≡ true = rw has.entries refl in
      rw (ixmap_down, ixmap_free_msix-eq _ (HasIrqs-regs a regs a.up has), there, r)
        (_, refl, refl, (refl, refl, refl, refl), refl)

  -- ixmap_up returns 0 and the device is up: if the kernel granted what ixmap_configure_msix asked
  -- for, each queue has its interrupt; else nothing is held.
  pub ixmap_up-HasIrqs :
      (calls : MsixCalls) (a : Adapter)
      → Decreasing calls.enable
      → a.registers ≡ true
      → a.held ≡ nothing_held
      → (a' : Adapter) × (ixmap_up ops calls a ≡ some (0, a'))
        × (a'.up ≡ true)
        × (HasIrqs a' ⊎ (a'.held ≡ nothing_held))
        × Unchanged (record a { up = true }) a'
  unfolding ixmap_up finish_up
  ixmap_up-HasIrqs calls a d r h =
      let controlled : Adapter = record a {
        regs = ixmap_setup_gpie (ixmap_take_hw_control a.regs);
      } in
      let (done, a', run, (same, yes', no')) =
        ixmap_configure_msix-Configured calls controlled d h in
      let run' : ixmap_up ops calls a ≡ some (0, finish_up ops a') = rw (ixmap_up, run, r) refl in
      let regs = (finish_up ops a').regs in
      (
        finish_up ops a',
        run',
        refl,
        elim (Bool-cases done) [
          | inl e ↦ inl (HasIrqs-regs a' regs true (yes' e))
          | inr e ↦ inr (no' e)
        ],
        ap (λ (x : Adapter). record x { up = true; regs = regs }) same,
      )

  -- The same where the kernel grants all.
  pub ixmap_up-granted :
      (calls : MsixCalls) (a : Adapter)
      → Grants calls a
      → a.registers ≡ true
      → a.held ≡ nothing_held
      → (a' : Adapter) × (ixmap_up ops calls a ≡ some (0, a'))
        × (a'.up ≡ true)
        × HasIrqs a'
        × Unchanged (record a { up = true }) a'
  unfolding ixmap_up finish_up
  ixmap_up-granted calls a g r h =
      let controlled : Adapter = record a {
        regs = ixmap_setup_gpie (ixmap_take_hw_control a.regs);
      } in
      let g' : Grants calls controlled = Grants-frame calls a controlled g refl refl refl in
      let (done, a', run, (same, yes', no')) =
        ixmap_configure_msix-Configured calls controlled (Grants-Decreasing calls a g) h in
      let (a'', granted) = ixmap_configure_msix-granted calls controlled g' in
      let e : done ≡ true = done_of done a' a'' (sym run ∙ granted) in
      let run' : ixmap_up ops calls a ≡ some (0, finish_up ops a') = rw (ixmap_up, run, r) refl in
      let regs = (finish_up ops a').regs in
      (
        finish_up ops a',
        run',
        refl,
        HasIrqs-regs a' regs true (yes' e),
        ap (λ (x : Adapter). record x { up = true; regs = regs }) same,
      )
