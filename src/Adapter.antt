-- ===== src/Adapter.antt =====
-- kmod/ixmap_main.c: an adapter and its interrupts. `none` is a fault: the use of an array that was
-- freed or never allocated, or of an element past its end, or a loop that does not end. What the
-- kernel answers is an argument. `Held` counts what the adapter holds of the kernel for its
-- interrupts. The functions behind hw->mac.ops, which are set up once, are a parameter.
pub mod Irqs
pub mod Life
pub mod Assign
pub mod Grants
pub mod Ivar
pub mod Examples
use ixmap.Base.{
  ℕ, zero, suc, ◌+◌, ◌-◌, ◌*◌, ◌/◌, ◌%◌, ◌^◌, bit_and, bit_or, List, [], ◌∷◌, Bool, true, false,
  Option, none, some, ltb, ◌&&◌, ◌==◌, if◌then◌else◌, get_elem?, set,
}
use ixmap.Dma.{Area}
use ixmap.Hw.{
  Regs, write_reg, clear_bits, reg_ctrl_ext, ctrl_ext_drv_load, reg_eimc, reg_eimc_ex, reg_eiac,
  reg_eiam_ex, reg_gpie, max_eitr, reg_eitr, eitr_cnt_wdis, reg_ivar, reg_txdctl, txdctl_swflsh,
  reg_dmatxctl, dmatxctl_te, ixmap_setup_fc,
}

abbrev pub max_rss_indices : ℕ
max_rss_indices = 16

-- The entry's index in `msix_entries` and the context of the eventfd.
pub record Irq : Type 0 where
  pub entry : ℕ
  pub efd_ctx : Option ℕ

-- `rx_irq` and `tx_irq`: NULL, a pointer to freed memory, or an array.
pub data IrqArray : Type 0 where
  null freed : IrqArray
  live : List Irq → IrqArray

pub record Held : Type 0 where
  pub entries : ℕ
  -- Whether MSI-X is enabled.
  pub msix : Bool
  pub arrays : ℕ
  pub irqs : ℕ
  pub handlers : ℕ
  pub contexts : ℕ

pub record Adapter : Type 0 where
  pub up : Bool
  pub refcount : ℕ
  pub regs : Regs
  -- Whether the registers are mapped (ixmap_dma_map_iobase).
  pub registers : Bool
  pub iobase : ℕ
  pub iolen : ℕ
  pub areas : List Area
  pub max_msix_vectors : ℕ
  -- The vectors of the entries; `none` is NULL.
  pub msix_entries : Option (ℕ → ℕ)
  pub num_q_vectors : ℕ
  pub rx_irq : IrqArray
  pub tx_irq : IrqArray
  pub link_speed : ℕ
  pub link_duplex : ℕ
  pub num_rx_queues : ℕ
  pub num_tx_queues : ℕ
  pub num_interrupt_rate : ℕ
  pub held : Held

-- hw->mac.ops: on the registers; `none` is NULL. `check_link` gives the speed and whether the link
-- is up.
pub record MacOps : Type 0 where
  pub init_hw : Regs → Regs
  pub enable_tx_laser : Option (Regs → Regs)
  pub disable_tx_laser : Option (Regs → Regs)
  pub setup_link : Option (Regs → Regs)
  pub check_link : Option (Regs → ℕ × Bool)

abbrev pub call : Option (Regs → Regs) → Regs → Regs
call none regs = regs
call (some f) regs = f regs

unfoldable pub ixmap_adapter_inuse : Adapter → Bool
ixmap_adapter_inuse adapter = if adapter.refcount == 1 then false else true

abbrev pub ixmap_adapter_get : Adapter → Adapter
ixmap_adapter_get adapter = record adapter { refcount = adapter.refcount + 1 }

abbrev pub ixmap_adapter_put : Adapter → Adapter
ixmap_adapter_put adapter = record adapter { refcount = adapter.refcount - 1 }

-- The answer of pci_enable_msix: 0, a smaller number that it could enable, or an error.
pub data Answer : Type 0 where
  enabled : Answer
  fewer : ℕ → Answer
  refused : Answer

-- What the kernel answers to ixmap_configure_msix. Allocations and requests of interrupts are told
-- apart by their vector's index.
pub record MsixCalls : Type 0 where
  pub entries_allocated : Bool
  pub enable : ℕ → Answer
  pub vector : ℕ → ℕ
  pub rx_array_allocated : Bool
  pub tx_array_allocated : Bool
  pub irq_allocated : ℕ → Bool
  pub irq_requested : ℕ → Bool

-- `while (err)`: how many vectors are enabled in the end.
pub data Enabling : Type 0 where
  granted : ℕ → Enabling
  failed : Enabling
  endless : Enabling

pub enable_msix : (ℕ → Answer) → ℕ → ℕ → Enabling
enable_msix enable zero err = endless
enable_msix enable (suc fuel) zero = granted 0
enable_msix enable (suc fuel) (suc err) = elim (enable (suc err)) [
  | enabled ↦ granted (suc err)
  | fewer n ↦ if n == 0 then granted (suc err) else enable_msix enable fuel n
  | refused ↦ failed
]

pub ixmap_write_eitr : ℕ → ℕ → Regs → Regs
ixmap_write_eitr num_interrupt_rate vector regs =
    write_reg regs (reg_eitr vector) (bit_or (bit_and num_interrupt_rate max_eitr) eitr_cnt_wdis)

-- `queue` and `msix_vector` are `uint8_t`.
pub ixmap_set_ivar : ℕ → ℕ → ℕ → Regs → Regs
ixmap_set_ivar direction queue msix_vector regs =
    let index = 16 * (queue % 2) + 8 * direction in
    let ivar = clear_bits (regs (reg_ivar (queue / 2))) (0xff * 2 ^ index % 2 ^ 32) in
    write_reg regs (reg_ivar (queue / 2))
      (bit_or ivar (bit_or (msix_vector % 2 ^ 8) 0x80 * 2 ^ index))

abbrev pub ixmap_irq_alloc : ℕ → Irq
ixmap_irq_alloc entry = record { entry = entry; efd_ctx = none }

-- How many contexts a context is.
abbrev pub context_count : Option ℕ → ℕ
context_count none = 0
context_count (some ctx) = 1

-- eventfd_ctx_put and kfree.
abbrev pub ixmap_irq_free : Irq → Held → Held
ixmap_irq_free irq held = record held {
  contexts = held.contexts - context_count irq.efd_ctx;
  irqs = held.irqs - 1;
}

-- What a loop of ixmap_configure_msix leaves: whether all was requested, and what was.
pub record Requested : Type 0 where
  pub done : Bool
  pub requested : List Irq
  pub regs : Regs
  pub held : Held

-- The loop over the queues of one direction, with `n` to go.
pub request_irqs : MsixCalls → ℕ → ℕ → ℕ → ℕ → ℕ → Regs → Held → Requested
request_irqs calls rate direction zero queue vector regs held = record {
  done = true;
  requested = [];
  regs = regs;
  held = held;
}
request_irqs calls rate direction (suc n) queue vector regs held =
    let allocated : Held = record held { irqs = held.irqs + 1 } in
    let freed : Held = record allocated { irqs = allocated.irqs - 1 } in
    let rest =
      request_irqs calls rate direction n (suc queue) (suc vector)
        (ixmap_write_eitr rate vector (ixmap_set_ivar direction queue vector regs))
        (record allocated { handlers = allocated.handlers + 1 }) in
    if calls.irq_allocated vector
    then if calls.irq_requested vector
      then record rest { requested = ixmap_irq_alloc vector ∷ rest.requested }
      else record { done = false; requested = []; regs = regs; held = freed }
    else record { done = false; requested = []; regs = regs; held = held }

-- `free_irq` and `kfree` of what was requested, on a failure.
pub give_back : List Irq → Held → Held
give_back [] held = held
give_back (irq ∷ irqs) held =
    give_back irqs (record held { handlers = held.handlers - 1; irqs = held.irqs - 1 })

-- From `err_pci_enable_msix` on; pci_disable_msix does nothing if MSI-X is not enabled.
abbrev pub disable_msix : Adapter → Held → Bool × Adapter
disable_msix adapter held = (
  false,
  record adapter {
    msix_entries = none;
    held = record held { entries = held.entries - 1; msix = false };
  },
)

-- From `err_alloc_irq_rx` on: both arrays are freed.
abbrev drop_arrays : Adapter → Regs → Held → Bool × Adapter
drop_arrays adapter regs held =
    disable_msix (record adapter { rx_irq = freed; tx_irq = freed; regs = regs })
      (record held { arrays = held.arrays - 2 })

-- What the two loops come to.
pub enter_irqs : Adapter → Requested → Requested → Bool × Adapter
enter_irqs adapter rx tx =
    if rx.done
    then if tx.done
      then (
        true,
        record adapter {
          rx_irq = live rx.requested;
          tx_irq = live tx.requested;
          regs = tx.regs;
          held = tx.held;
        },
      )
      else drop_arrays adapter tx.regs (give_back rx.requested (give_back tx.requested tx.held))
    else drop_arrays adapter rx.regs (give_back rx.requested rx.held)

-- From the arrays on; the vectors are enabled.
pub configure_irqs : MsixCalls → Adapter → Bool × Adapter
configure_irqs calls adapter =
    let rx_only : Held = record adapter.held { arrays = adapter.held.arrays + 1 } in
    let both : Held = record rx_only { arrays = rx_only.arrays + 1 } in
    let rx =
      request_irqs calls adapter.num_interrupt_rate 0 adapter.num_rx_queues 0 0 adapter.regs both in
    let tx =
      request_irqs calls adapter.num_interrupt_rate 1 adapter.num_tx_queues 0 adapter.num_rx_queues
        rx.regs rx.held in
    if calls.rx_array_allocated
    then if calls.tx_array_allocated
      then enter_irqs adapter rx tx
      else disable_msix (record adapter { rx_irq = freed; tx_irq = null })
          (record rx_only { arrays = rx_only.arrays - 1 })
    else disable_msix (record adapter { rx_irq = null }) adapter.held

-- From the loop over pci_enable_msix on; `entries` is `kcalloc`ed.
abbrev pub enter_vectors : MsixCalls → Adapter → Enabling → Option (Bool × Adapter)
enter_vectors calls adapter endless = none
enter_vectors calls adapter failed =
    some (disable_msix adapter (record adapter.held { entries = adapter.held.entries + 1 }))
enter_vectors calls adapter (granted n) = some (
    configure_irqs calls (record adapter {
      msix_entries = some (λ i. if ltb i n then calls.vector i else 0);
      num_q_vectors = adapter.num_rx_queues + adapter.num_tx_queues;
      held = record adapter.held {
        entries = adapter.held.entries + 1;
        msix = if n == 0 then adapter.held.msix else true;
      };
    }))

pub ixmap_configure_msix : MsixCalls → Adapter → Option (Bool × Adapter)
ixmap_configure_msix calls adapter =
    let vector_num = adapter.num_rx_queues + adapter.num_tx_queues in
    if ltb adapter.max_msix_vectors vector_num
    then some (false, adapter)
    else if calls.entries_allocated
    then enter_vectors calls adapter (enable_msix calls.enable (suc vector_num) vector_num)
    else some (false, record adapter { msix_entries = none })

-- `free_irq` and `ixmap_irq_free` of the first `n` elements.
pub free_irqs : ℕ → List Irq → Held → Option Held
free_irqs zero irqs held = some held
free_irqs (suc n) [] held = none
free_irqs (suc n) (irq ∷ irqs) held =
    free_irqs n irqs (ixmap_irq_free irq (record held { handlers = held.handlers - 1 }))

abbrev pub free_array : ℕ → IrqArray → Held → Option Held
free_array n null held = if n == 0 then some held else none
free_array n freed held = none
free_array n (live irqs) held = elim (free_irqs n irqs held) [
  | none ↦ none
  | some held' ↦ some (record held' { arrays = held'.arrays - 1 })
]

-- A freed array is a fault even if no element is used: it is freed again.
pub ixmap_free_msix : Adapter → Option Adapter
ixmap_free_msix adapter = elim (free_array adapter.num_rx_queues adapter.rx_irq adapter.held) [
  | none ↦ none
  | some rx_freed ↦ elim (free_array adapter.num_tx_queues adapter.tx_irq rx_freed) [
    | none ↦ none
    | some tx_freed ↦ some (record adapter {
      rx_irq = freed;
      tx_irq = freed;
      msix_entries = none;
      num_q_vectors = 0;
      held = record tx_freed { entries = tx_freed.entries - 1; msix = false };
    })
  ]
]

-- The type of an interrupt as the user gives it.
pub data IrqType : Type 0 where
  rx tx : IrqType
  unknown : IrqType

abbrev pub get_irq? : IrqArray → ℕ → Option Irq
get_irq? null i = none
get_irq? freed i = none
get_irq? (live irqs) i = get_elem? irqs i

abbrev pub set_irq : IrqArray → ℕ → Irq → IrqArray
set_irq null i irq = null
set_irq freed i irq = freed
set_irq (live irqs) i irq = live (set irqs i irq)

-- The vector of an entry. An interrupt in use has its entry.
abbrev pub vectors_of : Option (ℕ → ℕ) → ℕ → ℕ
vectors_of none entry = 0
vectors_of (some vectors) entry = vectors entry

-- The vector and the entry for the caller; `none` is -EINVAL.
abbrev pub Assigned : Type 0
Assigned = Option (ℕ × ℕ)

-- The element at the index; `ctx` is what eventfd_ctx_fdget gives, `none` an error.
pub irq_assign :
    Option ℕ → IrqArray → ℕ → Held → (ℕ → ℕ) → Option (Option (ℕ × ℕ) × IrqArray × Held)
irq_assign ctx irqs queue_idx held vectors = elim (get_irq? irqs queue_idx) [
  | none ↦ none
  | some irq ↦ elim ctx [
    | none ↦ some (none, irqs, held)
    | some c ↦ some (
      some (vectors irq.entry, irq.entry),
      set_irq irqs queue_idx (record irq { efd_ctx = some c }),
      record held { contexts = held.contexts + 1 - context_count irq.efd_ctx },
    )
  ]
]

pub ixmap_irq_assign : IrqType → ℕ → Option ℕ → Adapter → Option (Assigned × Adapter)
ixmap_irq_assign type queue_idx ctx adapter =
    let vectors = vectors_of adapter.msix_entries in
    elim type [
      | rx ↦
          if ltb adapter.num_rx_queues queue_idx
          then some (none, adapter)
          else elim (irq_assign ctx adapter.rx_irq queue_idx adapter.held vectors) [
            | none ↦ none
            | some (r, irqs, held') ↦ some (r, record adapter { rx_irq = irqs; held = held' })
          ]
      | tx ↦
          if ltb adapter.num_tx_queues queue_idx
          then some (none, adapter)
          else elim (irq_assign ctx adapter.tx_irq queue_idx adapter.held vectors) [
            | none ↦ none
            | some (r, irqs, held') ↦ some (r, record adapter { tx_irq = irqs; held = held' })
          ]
      | unknown ↦ some (none, adapter)
    ]

-- The context that an interrupt signals.
pub ixmap_interrupt : Irq → Option ℕ
ixmap_interrupt irq = irq.efd_ctx

pub ixmap_take_hw_control : Regs → Regs
ixmap_take_hw_control regs =
    write_reg regs reg_ctrl_ext (bit_or (regs reg_ctrl_ext) ctrl_ext_drv_load)

pub ixmap_release_hw_control : Regs → Regs
ixmap_release_hw_control regs =
    write_reg regs reg_ctrl_ext (clear_bits (regs reg_ctrl_ext) ctrl_ext_drv_load)

pub ixmap_setup_gpie : Regs → Regs
ixmap_setup_gpie regs =
    let masked =
      write_reg (write_reg regs (reg_eiam_ex 0) 0xffff_ffff) (reg_eiam_ex 1) 0xffff_ffff in
    write_reg (write_reg masked reg_eiac 0xffff) reg_gpie 0xc000_0030

-- `synchronize_irq` reads the vectors of so many entries.
abbrev pub entries_there : Option (ℕ → ℕ) → ℕ → Bool
entries_there none num_q_vectors = num_q_vectors == 0
entries_there (some vectors) num_q_vectors = true

module _ (ops : MacOps) where
  -- The error is only logged.
  unfoldable pub ixmap_reset : Adapter → Option Adapter
  ixmap_reset adapter =
      if adapter.registers then some (record adapter { regs = ops.init_hw adapter.regs }) else none

  -- From `enable_tx_laser` on.
  pub finish_up : Adapter → Adapter
  finish_up adapter = record adapter {
    regs = ixmap_setup_fc (call ops.setup_link (call ops.enable_tx_laser adapter.regs));
    up = true;
  }

  -- The result is 0 also if ixmap_configure_msix fails.
  pub ixmap_up : MsixCalls → Adapter → Option (ℕ × Adapter)
  ixmap_up calls adapter =
      let controlled : Adapter = record adapter {
        regs = ixmap_setup_gpie (ixmap_take_hw_control adapter.regs);
      } in
      let configured : Option (ℕ × Adapter) = elim (ixmap_configure_msix calls controlled) [
        | none ↦ none
        | some (done, a) ↦ some (0, finish_up a)
      ] in
      if adapter.registers then configured else none

  -- The registers up to the interrupts. `online` is false if the PCI channel is offline.
  pub quiesce : Bool → Regs → Regs
  quiesce online regs =
      let masked =
        write_reg (write_reg (write_reg regs reg_eimc 0xffff_0000) (reg_eimc_ex 0) 0xffff_ffff)
          (reg_eimc_ex 1) 0xffff_ffff in
      let flushed = write_reg masked (reg_txdctl 0) txdctl_swflsh in
      let stopped =
        write_reg flushed reg_dmatxctl (clear_bits (flushed reg_dmatxctl) dmatxctl_te) in
      call ops.disable_tx_laser (if online then ops.init_hw stopped else stopped)

  pub ixmap_down : Bool → Adapter → Option Adapter
  ixmap_down online adapter =
      let quiet : Adapter = record adapter { regs = quiesce online adapter.regs } in
      let freed_irqs : Option Adapter = elim (ixmap_free_msix quiet) [
        | none ↦ none
        | some a ↦ some (record a {
          num_interrupt_rate = 0;
          num_rx_queues = 0;
          num_tx_queues = 0;
          regs = ixmap_release_hw_control a.regs;
          up = false;
        })
      ] in
      if adapter.registers && entries_there adapter.msix_entries adapter.num_q_vectors
      then freed_irqs
      else none
