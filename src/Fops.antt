-- ===== src/Fops.antt =====
-- kmod/ixmap_fops.c: the calls of a process on the device of an adapter. Each holds `adapter->sem`
-- while it runs, so that one call is one step. `none` is a fault (Adapter). What copy_from_user and
-- copy_to_user answer is an argument, true if they succeed.
pub mod Calls
pub mod Reach
mod Examples
use ixmap.Base.{
  ℕ, zero, suc, ◌+◌, ◌-◌, ◌*◌, ◌/◌, ◌%◌, ◌^◌, List, Bool, true, false, Option, none, some, ltb,
  ◌==◌, if◌then◌else◌, ◌||◌,
}
use ixmap.Hw.{max_eitr}
use ixmap.Dma.{Area, MapCalls, ixmap_dma_map, ixmap_dma_unmap, ixmap_dma_area_lookup}
use ixmap.Adapter.{
  max_rss_indices, Adapter, MacOps, MsixCalls, IrqType, Assigned, ixmap_adapter_inuse,
  ixmap_adapter_get, ixmap_adapter_put, ixmap_irq_assign, ixmap_reset, ixmap_up, ixmap_down,
}

pub data Status : Type 0 where
  success already fault invalid again busy no_entry overflow bad_fd no_device : Status

-- struct ixmap_up_req.
pub record UpReq : Type 0 where
  pub num_interrupt_rate : ℕ
  pub num_rx_queues : ℕ
  pub num_tx_queues : ℕ

-- What a command copies to the user.
pub data Reply : Type 0 where
  nothing : Reply
  link : (speed duplex flush : ℕ) → Reply
  info :
      (mmio_base mmio_size num_interrupt_rate num_rx_queues num_tx_queues max_msix_vectors : ℕ)
      → Reply
  address : ℕ → Reply
  vector : (vector entry : ℕ) → Reply

abbrev pub link_speed_10gb_full : ℕ
link_speed_10gb_full = 0x0080

-- The commands of the ioctl, with their requests and what the calls below answer.
pub data Command : Type 0 where
  get_info : Command
  up : UpReq → MsixCalls → Command
  map : (size : ℕ) → MapCalls → Command
  unmap : (addr_dma : ℕ) → Command
  down : Command
  reset : Command
  check_link : Command
  irq : (type : IrqType) (queue_idx : ℕ) (ctx : Option ℕ) → Command
  other : Command

abbrev pub Outcome : Type 0
Outcome = Option (Status × Reply × Adapter)

abbrev pub copy_out : Bool → Reply → Adapter → Outcome
copy_out copied reply adapter =
    if copied then some (success, reply, adapter) else some (fault, nothing, adapter)

-- The link as the adapter has it, after it was found with this speed, up or down, and whether the
-- user is to flush.
pub note_link : ℕ → Bool → Adapter → Adapter × ℕ
note_link speed link_up adapter =
    if link_up
    then if adapter.link_speed == 0
      then (record adapter { link_speed = speed % 2 ^ 16; link_duplex = 2 }, 0)
      else (adapter, 0)
    else if adapter.link_speed == 0
    then (adapter, 0)
    else (record adapter { link_speed = 0; link_duplex = 0 }, 1)

pub ixmap_cmd_info : Bool → Adapter → Outcome
ixmap_cmd_info copied adapter =
    copy_out copied
      (info adapter.iobase adapter.iolen adapter.num_interrupt_rate adapter.num_rx_queues
        adapter.num_tx_queues adapter.max_msix_vectors)
      adapter

-- The registers are unmapped with their area.
abbrev set_areas : ℕ → List Area → Adapter → Adapter
set_areas addr_dma areas adapter = record adapter {
  areas = areas;
  registers = if addr_dma == adapter.iobase then false else adapter.registers;
}

-- ixmap_dma_unmap, with what is returned if there is no such area, or else.
pub unmap_area : Status → Status → ℕ → Adapter → Outcome
unmap_area missing unmapped addr_dma adapter =
    elim (ixmap_dma_unmap adapter.iobase adapter.areas addr_dma) [
      | none ↦ some (missing, nothing, adapter)
      | some (areas, given_back) ↦ some (unmapped, nothing, set_areas addr_dma areas adapter)
    ]

pub ixmap_cmd_unmap : Bool → ℕ → Adapter → Outcome
ixmap_cmd_unmap copied addr_dma adapter =
    if copied then unmap_area no_entry success addr_dma adapter else some (fault, nothing, adapter)

-- What is returned for an address; 0 is a failure.
abbrev pub finish_map : Bool → Option ℕ → Adapter → Outcome
finish_map copied none adapter = some (fault, nothing, adapter)
finish_map copied (some addr) adapter =
    if addr == 0
    then some (fault, nothing, adapter)
    else if copied
    then some (success, address addr, adapter)
    else unmap_area fault fault addr adapter

pub ixmap_cmd_map : Bool → Bool → ℕ → MapCalls → Adapter → Outcome
ixmap_cmd_map copied_in copied_out size calls adapter =
    let mapped = ixmap_dma_map calls size adapter.areas in
    if copied_in
    then if size == 0
      then some (invalid, nothing, adapter)
      else finish_map copied_out mapped.addr (record adapter { areas = mapped.areas })
    else some (fault, nothing, adapter)

abbrev pub finish_irq : Bool → Assigned → Adapter → Outcome
finish_irq copied none adapter = some (invalid, nothing, adapter)
finish_irq copied (some (v, entry)) adapter = copy_out copied (vector v entry) adapter

pub ixmap_cmd_irq : Bool → Bool → IrqType → ℕ → Option ℕ → Adapter → Outcome
ixmap_cmd_irq copied_in copied_out type queue_idx ctx adapter =
    let assigned : Outcome = elim (ixmap_irq_assign type queue_idx ctx adapter) [
      | none ↦ none
      | some (r, a) ↦ finish_irq copied_out r a
    ] in
    if copied_in then assigned else some (fault, nothing, adapter)

pub ixmap_open : Adapter → Status × Adapter
ixmap_open adapter =
    if ixmap_adapter_inuse adapter then (busy, adapter) else (success, ixmap_adapter_get adapter)

-- The page frame that is mapped, if `remapped`: only the registers' area, and all of it.
pub ixmap_mmap : Bool → ℕ → ℕ → Adapter → Status × Option ℕ
ixmap_mmap remapped offset size adapter =
    if offset == 0
    then elim (ixmap_dma_area_lookup adapter.areas adapter.iobase) [
      | none ↦ (no_entry, none)
      | some area ↦
          if area.size == size
          then if remapped then (success, some (area.addr_dma / 2 ^ 12)) else (again, none)
          else (overflow, none)
    ]
    else (invalid, none)

module _ (ops : MacOps) where
  -- `online` is false if the PCI channel is offline. The path `err_up_complete` is there, though
  -- ixmap_up always returns 0.
  pub ixmap_cmd_up : Bool → Bool → UpReq → MsixCalls → Adapter → Outcome
  ixmap_cmd_up online copied req calls adapter =
      let asked : Adapter = record adapter {
        num_interrupt_rate = req.num_interrupt_rate;
        num_rx_queues = req.num_rx_queues;
        num_tx_queues = req.num_tx_queues;
      } in
      let started : Outcome = elim (ixmap_up ops calls asked) [
        | none ↦ none
        | some (zero, a) ↦ some (success, nothing, a)
        | some (suc err, a) ↦ elim (ixmap_down ops online a) [
          | none ↦ none
          | some a' ↦ some (invalid, nothing, a')
        ]
      ] in
      if adapter.up
      then some (already, nothing, adapter)
      else if copied
      then if ltb max_eitr req.num_interrupt_rate
          || ltb max_rss_indices req.num_rx_queues
          || ltb max_rss_indices req.num_tx_queues
        then some (invalid, nothing, adapter)
        else started
      else some (fault, nothing, adapter)

  pub ixmap_cmd_down : Bool → Adapter → Outcome
  ixmap_cmd_down online adapter =
      let stopped : Outcome = elim (ixmap_down ops online adapter) [
        | none ↦ none
        | some a ↦ some (success, nothing, a)
      ] in
      if adapter.up then stopped else some (already, nothing, adapter)

  pub ixmap_cmd_reset : Adapter → Outcome
  ixmap_cmd_reset adapter =
      let done : Outcome = elim (ixmap_reset ops adapter) [
        | none ↦ none
        | some a ↦ some (success, nothing, a)
      ] in
      if adapter.up then done else some (success, nothing, adapter)

  -- The speed and whether the link is up; up, if there is no function to check.
  abbrev pub find_link : Adapter → ℕ × Bool
  find_link adapter = elim ops.check_link [
    | none ↦ (link_speed_10gb_full, true)
    | some check ↦ check adapter.regs
  ]

  pub ixmap_cmd_check_link : Bool → Adapter → Outcome
  ixmap_cmd_check_link copied adapter =
      let (speed, link_up) = find_link adapter in
      let (noted, flush) = note_link speed link_up adapter in
      if adapter.up
      then if adapter.registers
        then copy_out copied (link noted.link_speed noted.link_duplex flush) noted
        else none
      else some (again, nothing, adapter)

  -- The ioctl on an open file, whose `private_data` is the adapter.
  pub ixmap_ioctl : Bool → Bool → Bool → Command → Adapter → Outcome
  ixmap_ioctl online copied_in copied_out get_info adapter = ixmap_cmd_info copied_out adapter
  ixmap_ioctl online copied_in copied_out (up req calls) adapter =
      ixmap_cmd_up online copied_in req calls adapter
  ixmap_ioctl online copied_in copied_out (map size calls) adapter =
      ixmap_cmd_map copied_in copied_out size calls adapter
  ixmap_ioctl online copied_in copied_out (unmap addr_dma) adapter =
      ixmap_cmd_unmap copied_in addr_dma adapter
  ixmap_ioctl online copied_in copied_out down adapter = ixmap_cmd_down online adapter
  ixmap_ioctl online copied_in copied_out reset adapter = ixmap_cmd_reset adapter
  ixmap_ioctl online copied_in copied_out check_link adapter =
      ixmap_cmd_check_link copied_out adapter
  ixmap_ioctl online copied_in copied_out (irq type queue_idx ctx) adapter =
      ixmap_cmd_irq copied_in copied_out type queue_idx ctx adapter
  ixmap_ioctl online copied_in copied_out other adapter = some (invalid, nothing, adapter)

  -- Up to the release of the semaphore; ixmap_adapter_put follows outside of it.
  pub close_down : Bool → Adapter → Option Adapter
  close_down online adapter = elim (ixmap_cmd_down online adapter) [
    | none ↦ none
    | some (status, reply, a) ↦ some a
  ]

  pub ixmap_close : Bool → Adapter → Option Adapter
  ixmap_close online adapter = elim (close_down online adapter) [
    | none ↦ none
    | some a ↦ some (ixmap_adapter_put a)
  ]
