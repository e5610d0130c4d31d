-- ===== src/Setup.antt =====
-- lib/ixmap.c and lib/memory.c (ixmap_mem_destroy): what the library takes from the system and
-- gives back. A world says how the calls to come end, and what is held: how often each resource.
-- The sizes of the structs are those of x86-64.
pub mod Balance
pub mod Answers
pub mod Irq
pub mod Plane
pub mod Desc
pub mod Buf
pub mod Open
pub mod Planes
pub mod Rings
pub mod Layout
pub mod Bufs
pub mod Handles
mod Examples
use ixmap.Base.{
  ℕ, ◌+◌, ◌-◌, ◌*◌, ◌/◌, List, [], ◌∷◌, Bool, true, false, ◌&&◌, Option, none, some, ◌==◌,
  if◌then◌else◌,
}

-- What is held: memory of malloc or numa_alloc_onnode, a region of mmap, a DMA mapping of the device
-- of a file descriptor, a file descriptor, a stream of fopen.
pub data Resource : Type 0 where
  memory : ℕ → ℕ → Resource
  region : ℕ → ℕ → Resource
  mapping : ℕ → ℕ → Resource
  file : ℕ → Resource
  stream : ℕ → Resource

pub same : Resource → Resource → Bool
same (memory at size) (memory at' size') = at == at' && size == size'
same (region at size) (region at' size') = at == at' && size == size'
same (mapping fd addr) (mapping fd' addr') = fd == fd' && addr == addr'
same (file fd) (file fd') = fd == fd'
same (stream f) (stream f') = f == f'
same r r' = false

-- How often `r` is held by one who holds `r'`.
abbrev pub unit : Resource → Resource → ℕ
unit r' r = if same r' r then 1 else 0

pub data IrqKind : Type 0 where
  irq_rx : IrqKind
  irq_tx : IrqKind

-- The requests to the kernel with what they ask for.
pub data Call : Type 0 where
  map_req : ℕ → ℕ → ℕ → Call
  irq_req : ℕ → IrqKind → ℕ → ℕ → Call
  up_req : ℕ → ℕ → ℕ → Call
  info_req : ℕ → Call
  smp_affinity : ℕ → ℕ → ℕ → Call

-- The answer to each call to come, where none left is a failure; what is held; how often something
-- was given back that was not held; and the requests made, the last first.
pub record World : Type 0 where
  pub answers : List (Option ℕ)
  pub live : Resource → ℕ
  pub strays : ℕ
  pub calls : List Call

-- The next of the answers, and the world without it.
pub next_answer : List (Option ℕ) → World → Option ℕ × World
next_answer [] w = (none, w)
next_answer (answer ∷ rest) w = (answer, record w { answers = rest })

abbrev pub ask : World → Option ℕ × World
ask w = next_answer w.answers w

abbrev pub note : Call → World → World
note call w = record w { calls = call ∷ w.calls }

-- A call that gives a resource: its address or number.
pub enter : (ℕ → Resource) → Option ℕ × World → Option ℕ × World
enter make (none, w) = (none, w)
enter make (some a, w) = (some a, record w { live = λ r. unit (make a) r + w.live r })

abbrev pub acquire : (ℕ → Resource) → World → Option ℕ × World
acquire make w = enter make (ask w)

pub release : Resource → World → World
release r w =
    if w.live r == 0
    then record w { strays = w.strays + 1 }
    else record w { live = λ r'. w.live r' - unit r r' }

-- A step that can fail: `goto` an error label, whose code is `clean_up` and which returns NULL or
-- -1, or go on.
pub attempt :
    {A B : Type 0}
    → Option A × World
    → (World → World)
    → (A → World → Option B × World)
    → Option B × World
attempt (none, w) clean_up go_on = (none, clean_up w)
attempt (some a, w) clean_up go_on = go_on a w

-- `ALIGN(x, a)` on an `unsigned long`.
abbrev pub align_to : ℕ → ℕ → ℕ
align_to a x = (x + (a - 1)) / a * a

abbrev pub sizeof_int32 : ℕ
sizeof_int32 = 4

abbrev pub sizeof_ulong : ℕ
sizeof_ulong = 8

abbrev pub sizeof_desc : ℕ
sizeof_desc = 16

abbrev pub sizeof_irq_handle : ℕ
sizeof_irq_handle = 24

pub record HandleRing : Type 0 where
  pub addr_virt : ℕ
  pub addr_dma : ℕ
  pub next_to_use : ℕ
  pub next_to_clean : ℕ
  pub slot_index : ℕ
  pub tail : ℕ

-- The rings are by queue; `rx_array` and `tx_array` are where they lie.
pub record Handle : Type 0 where
  pub fd : ℕ
  pub bar : ℕ
  pub bar_size : ℕ
  pub rx_array : ℕ
  pub tx_array : ℕ
  pub rx_ring : ℕ → HandleRing
  pub tx_ring : ℕ → HandleRing
  pub num_tx_desc : ℕ
  pub num_rx_desc : ℕ
  pub rx_budget : ℕ
  pub tx_budget : ℕ
  pub num_queues : ℕ
  pub num_interrupt_rate : ℕ
  pub promisc : ℕ
  pub mtu_frame : ℕ
  pub buf_size : ℕ
  pub mac_addr : List ℕ

-- IXMAP_MAP: the address that the kernel answers.
pub ixmap_dma_map : Handle → ℕ → ℕ → World → Option ℕ × World
ixmap_dma_map ih addr_virt size w =
    acquire (λ addr_dma. mapping ih.fd addr_dma) (note (map_req ih.fd addr_virt size) w)

abbrev pub ixmap_dma_unmap : Handle → ℕ → World → World
ixmap_dma_unmap ih addr_dma w = release (mapping ih.fd addr_dma) w
