-- ===== src/Setup/Open.antt =====
-- ixmap_open and ixmap_close of lib/ixmap.c.
use ixmap.Base.{ℕ, ◌*◌, List, Option, some, ◌==◌, ltb, if◌then◌else◌}
use ixmap.Setup.{
  memory, region, file, World, note, ask, acquire, release, attempt, info_req, up_req, Handle,
  HandleRing,
}

-- What the kernel writes to the request of IXMAP_INFO.
pub record InfoReq : Type 0 where
  pub mmio_size : ℕ
  pub max_interrupt_rate : ℕ
  pub max_rx_queues : ℕ
  pub max_tx_queues : ℕ
  pub mac_addr : List ℕ

-- The arguments of ixmap_open, but for the name of the device.
pub record OpenArgs : Type 0 where
  pub num_queues_req : ℕ
  pub intr_rate : ℕ
  pub rx_budget : ℕ
  pub tx_budget : ℕ
  pub mtu_frame : ℕ
  pub promisc : ℕ
  pub num_rx_desc : ℕ
  pub num_tx_desc : ℕ

-- `at` is where the handle lies.
pub record OpenHandle : Type 0 where
  pub at : ℕ
  pub handle : Handle

abbrev pub sizeof_handle : ℕ
sizeof_handle = 112

abbrev pub sizeof_ring : ℕ
sizeof_ring = 40

-- The macro `min`.
abbrev pub lesser : ℕ → ℕ → ℕ
lesser x y = if ltb x y then x else y

abbrev pub queues_of : OpenArgs → InfoReq → ℕ
queues_of args info = lesser args.num_queues_req (lesser info.max_rx_queues info.max_tx_queues)

-- The memory of malloc is as it was: `blank` are the rings that happen to stand there. On the error
-- path behind the mapping `bar_size` is still 0.
unfoldable pub ixmap_open :
    OpenArgs → InfoReq → (ℕ → HandleRing) → World → Option OpenHandle × World
ixmap_open args info blank w =
    attempt (acquire (λ at. memory at sizeof_handle) w) (λ w. w)
      λ at w. attempt (acquire file w) (release (memory at sizeof_handle)) λ fd w.
        let close_free = λ (w : World). release (memory at sizeof_handle) (release (file fd) w) in
        let rate = lesser args.intr_rate info.max_interrupt_rate in
        let queues = queues_of args info in
        attempt (ask (note (info_req fd) w)) close_free λ ret w.
          attempt (ask (note (up_req fd rate queues) w)) close_free λ ret w.
            attempt (acquire (λ bar. region bar info.mmio_size) w) close_free λ bar w.
              attempt (acquire (λ rx. memory rx (sizeof_ring * queues)) w)
                (λ w. close_free (release (region bar 0) w))
                λ rx_array w.
                  attempt (acquire (λ tx. memory tx (sizeof_ring * queues)) w)
                    (λ w.
                      close_free (
                        release (region bar 0)
                          (release (memory rx_array (sizeof_ring * queues)) w)))
                    λ tx_array w.
                      let ih : Handle = record {
                        fd = fd;
                        bar = bar;
                        bar_size = info.mmio_size;
                        rx_array = rx_array;
                        tx_array = tx_array;
                        rx_ring = blank;
                        tx_ring = blank;
                        num_tx_desc = args.num_tx_desc;
                        num_rx_desc = args.num_rx_desc;
                        rx_budget = args.rx_budget;
                        tx_budget = args.tx_budget;
                        num_queues = queues;
                        num_interrupt_rate = rate;
                        promisc = if args.promisc == 0 then 0 else 1;
                        mtu_frame = args.mtu_frame;
                        buf_size = 0;
                        mac_addr = info.mac_addr;
                      } in
                      (some (record { at = at; handle = ih }), w)

unfoldable pub ixmap_close : OpenHandle → World → World
ixmap_close opened w =
    let ih = opened.handle in
    release (memory opened.at sizeof_handle) (
      release (file ih.fd) (
        release (region ih.bar ih.bar_size) (
          release (memory ih.rx_array (sizeof_ring * ih.num_queues))
            (release (memory ih.tx_array (sizeof_ring * ih.num_queues)) w))))
