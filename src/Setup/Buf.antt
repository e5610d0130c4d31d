-- ===== src/Setup/Buf.antt =====
-- ixmap_buf_alloc and ixmap_buf_release of lib/ixmap.c. `count`, `buf_size` and what is computed
-- from them are `uint32_t`.
use ixmap.Base.{ℕ, ◌*◌, ◌%◌, ◌^◌, List, [], ◌∷◌, ◌++◌, length, Option, some}
use ixmap.Setup.{
  memory, region, World, acquire, release, attempt, sizeof_int32, sizeof_ulong, Handle,
  ixmap_dma_map, ixmap_dma_unmap,
}

-- `addr_dma` lies at `addr_dma_at`, and the slots, all 0 at first, at `slots_at`.
pub record PacketBuf : Type 0 where
  pub at : ℕ
  pub addr_dma_at : ℕ
  pub slots_at : ℕ
  pub addr_virt : ℕ
  pub addr_dma : List ℕ
  pub buf_size : ℕ
  pub count : ℕ
  pub slots : ℕ → ℕ

abbrev pub sizeof_buf : ℕ
sizeof_buf = 32

abbrev pub region_size : ℕ → ℕ → ℕ → ℕ
region_size ih_num count buf_size = buf_size * (ih_num * count % 2 ^ 32) % 2 ^ 32

abbrev pub slots_size : ℕ → ℕ → ℕ
slots_size ih_num count = sizeof_int32 * (ih_num * count % 2 ^ 32)

-- The loop that unmaps the memory from the devices it was mapped for.
unfoldable pub unmap_ports : List Handle → List ℕ → World → World
unmap_ports [] addr_dma w = w
unmap_ports (ih ∷ handles) [] w = w
unmap_ports (ih ∷ handles) (addr ∷ addr_dma) w =
    unmap_ports handles addr_dma (ixmap_dma_unmap ih addr w)

-- The loop over the handles: `list` are those to go, `mapped` the addresses so far.
unfoldable pub map_ports :
    List Handle → ℕ → ℕ → List Handle → List ℕ → World → Option (List ℕ) × World
map_ports ih_list addr_virt size [] mapped w = (some mapped, w)
map_ports ih_list addr_virt size (ih ∷ list) mapped w =
    attempt (ixmap_dma_map ih addr_virt size w) (unmap_ports ih_list mapped)
      λ addr_dma w. map_ports ih_list addr_virt size list (mapped ++ addr_dma ∷ []) w

unfoldable pub ixmap_buf_alloc : List Handle → ℕ → ℕ → World → Option PacketBuf × World
ixmap_buf_alloc ih_list count buf_size w =
    let ih_num = length ih_list in
    let size = region_size ih_num count buf_size in
    attempt (acquire (λ at. memory at sizeof_buf) w) (λ w. w)
      λ at w.
        attempt (acquire (λ addr. memory addr (sizeof_ulong * ih_num)) w)
          (release (memory at sizeof_buf))
          λ addr_dma_at w.
            let free_buf = λ (w : World).
              release (memory at sizeof_buf)
                (release (memory addr_dma_at (sizeof_ulong * ih_num)) w) in
            attempt (acquire (λ addr. region addr size) w) free_buf λ addr_virt w.
              attempt (map_ports ih_list addr_virt size ih_list [] w)
                (λ w. free_buf (release (region addr_virt size) w))
                λ addr_dma w.
                  attempt (acquire (λ addr. memory addr (slots_size ih_num count)) w)
                    (λ w.
                      free_buf (release (region addr_virt size) (unmap_ports ih_list addr_dma w)))
                    λ slots_at w.
                      let buf : PacketBuf = record {
                        at = at;
                        addr_dma_at = addr_dma_at;
                        slots_at = slots_at;
                        addr_virt = addr_virt;
                        addr_dma = addr_dma;
                        buf_size = buf_size;
                        count = count;
                        slots = λ i. 0;
                      } in
                      (some buf, w)

unfoldable pub ixmap_buf_release : PacketBuf → List Handle → World → World
ixmap_buf_release buf ih_list w =
    let ih_num = length ih_list in
    release (memory buf.at sizeof_buf) (
      release (memory buf.addr_dma_at (sizeof_ulong * ih_num)) (
        release (region buf.addr_virt (region_size ih_num buf.count buf.buf_size)) (
          unmap_ports ih_list buf.addr_dma
            (release (memory buf.slots_at (slots_size ih_num buf.count)) w))))
